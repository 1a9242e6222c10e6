-- ===== src/Boot/File.antt =====
-- src/core/BootConfig_file.cpp: a provisioning file, and the files that are looked for.
use compact_phone.Base.{
  pos, Bool, false, not, ◌&&◌, Option, none, some, List, [], ◌∷◌, ◌++◌, if◌then◌else◌, z_eq,
}
use compact_phone.Base.Text.{Text, codes, is_empty}
use compact_phone.Boot.{Qt, System, Console, Warning, warn, BootAccount, BootConfig, empty_config}
use compact_phone.Boot.Merge.{merge_into}
use compact_phone.Boot.Object.{Json, when, parse_account_object, is_complete}

module _ {J S : Type 0} (json : Json J) (qt : Qt) (sys : System S) where
  unfoldable pub parse_accounts : Text → List J → Console S → List BootAccount × Console S
  unfolding parse_account_object
  parse_accounts path [] c = ([], c)
  parse_accounts path (v ∷ vs) c =
      let (a, c1) = parse_account_object json qt sys v c in
      let c2 =
        if not (json.is_object v)
        then c
        else if is_complete json qt a
        then c1
        else warn (Warning.account_dropped path) c1 in
      let (rest, c3) = parse_accounts path vs c2 in
      if json.is_object v && is_complete json qt a then (a ∷ rest, c3) else (rest, c3)

  abbrev member_bool : Text → J → Option Bool
  member_bool key obj = when (json.contains key obj) (json.to_bool false (json.member key obj))

  abbrev member_text : Text → J → Option Text
  member_text key obj = when (json.contains key obj) (json.to_text (json.member key obj))

  abbrev pub is_section : Text → J → Bool
  is_section key r = json.contains key r && json.is_object (json.member key r)

  unfoldable pub read_defaults : J → BootConfig → BootConfig
  read_defaults r cfg =
      let d = json.member (codes "defaults") r in
      if is_section (codes "defaults") r
      then record cfg {
        auto_answer = member_bool (codes "autoanswer") d;
        dnd = member_bool (codes "dnd") d;
        minimize_to_tray = member_bool (codes "minimize_to_tray") d;
        theme = member_text (codes "theme") d;
        log_level = member_text (codes "log_level") d;
        log_file = member_text (codes "log_file") d;
      }
      else cfg

  unfoldable pub read_headless : J → BootConfig → BootConfig
  read_headless r cfg =
      let h = json.member (codes "headless") r in
      if is_section (codes "headless") r
      then record cfg {
        headless_call_uri = member_text (codes "call") h;
        headless_auto_answer = member_bool (codes "auto_answer") h;
        headless_play_file = member_text (codes "play_file") h;
        headless_loop_play_file = member_bool (codes "loop_play_file") h;
        headless_duration_sec =
            when (json.contains (codes "duration_sec") h)
              (json.to_integer (pos 0) (json.member (codes "duration_sec") h));
        headless_exit_after_call = member_bool (codes "exit_after_call") h;
      }
      else cfg

  -- `loadFromFile` once the document is known to be an object.
  unfoldable pub read_root : Text → J → Console S → BootConfig × Console S
  unfolding parse_accounts read_headless read_defaults
  read_root path r c =
      let schema = json.to_integer (pos 1) (json.member (codes "schema_version") r) in
      let (accounts, c') =
        if json.contains (codes "accounts") r && json.is_array (json.member (codes "accounts") r)
        then parse_accounts path (json.to_array (json.member (codes "accounts") r)) c
        else ([], c) in
      if not (z_eq schema (pos 1))
      then (empty_config, warn (Warning.unsupported_schema path schema) c)
      else (
        record (read_headless r (read_defaults r (record empty_config { accounts = accounts }))) {
          replace_accounts = json.to_bool false (json.member (codes "replace_accounts") r);
        },
        c',
      )

  unfoldable pub load_from_file : Text → Console S → BootConfig × Console S
  unfolding read_root
  load_from_file path c =
      if not (sys.exists path) then (empty_config, c) else elim (sys.contents path) [
        | none ↦ (empty_config, warn (Warning.unreadable_file path) c)
        | some content ↦ elim (json.root content) [
          | none ↦ (empty_config, warn (Warning.parse_error path) c)
          | some r ↦ read_root path r c
        ]
      ]

  unfoldable pub merge_files : List Text → BootConfig → Console S → BootConfig × Console S
  unfolding load_from_file merge_into
  merge_files [] cfg c = (cfg, c)
  merge_files (path ∷ paths) cfg c =
      let (layer, c') = load_from_file path c in merge_files paths (merge_into cfg layer) c'

  -- `discoverProvisioning`: the list `searched`.
  unfoldable pub searched : List Text
  searched =
      (if sys.is_unix then codes "/etc/compactphone/provisioning.json" ∷ [] else [])
      ++ sys.data_files
      ++ elim (sys.variable (codes "COMPACTPHONE_CONFIG")) [
        | none ↦ []
        | some path ↦ if is_empty path then [] else path ∷ []
      ]

  unfoldable pub discover_provisioning : Console S → BootConfig × Console S
  unfolding merge_files searched
  discover_provisioning c = merge_files searched empty_config c
