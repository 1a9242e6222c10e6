-- ===== src/Boot/Startable.antt =====
-- Every account that a configuration has can be added: src/core/BootConfig_parser.cpp.
use compact_phone.Base.{
  ◌≡◌, refl, sym, subst, pos, z_eq, Bool, true, false, not, ◌&&◌, ◌||◌, List, [], ◌∷◌, ◌++◌,
  if◌then◌else◌, arith, inl, inr, Bool-cases, Option-cases,
}
use compact_phone.Base.Lists.{All, All-append}
use compact_phone.Base.Text.{Text, codes, is_empty}
use compact_phone.Boot.{Qt, System, Console, Warning, warn, BootAccount, BootConfig, empty_config}
use compact_phone.Boot.Object.{Json, is_complete, parse_account_object}
use compact_phone.Boot.File.{
  parse_accounts, read_root, load_from_file, is_section, read_headless, read_defaults,
}
use compact_phone.Boot.Settings.{Parser, cli_server, cli_user, has_account_flags}
use compact_phone.Boot.CommandLine.{cli_accounts, cli_config, cli_password, parse_command_line}
use compact_phone.Boot.Layers.{
  combined, all_accounts, read_files, layer_files, parse_command_line-combined,
}
use compact_phone.Boot.Complete.{IsStartable, parse_account_object-IsStartable}
use compact_phone.Boot.CliAccount.{cli_params-IsStartable}

or_left : (a b : Bool) → (a || b) ≡ false → a ≡ false
or_left a b h = ground arith

or_right : (a b : Bool) → (a || b) ≡ false → b ≡ false
or_right a b h = ground arith

module _ {J S : Type 0} (json : Json J) (qt : Qt) (sys : System S) where
  parse_accounts-All :
      (path : Text) (vs : List J) (c : Console S)
      → All (IsStartable qt) (parse_accounts json qt sys path vs c).0
  unfolding parse_accounts
  parse_accounts-All path [] c = tt
  parse_accounts-All path (v ∷ vs) c =
      let (a, c1) = parse_account_object json qt sys v c in
      let c2 =
        if not (json.is_object v)
        then c
        else if is_complete json qt a
        then c1
        else warn (Warning.account_dropped path) c1 in
      kept (json.is_object v) a (parse_accounts json qt sys path vs c2)
        (parse_account_object-IsStartable qt json sys v c) (parse_accounts-All path vs c2)
    where
      kept :
          (is_object : Bool) (a : BootAccount) (r : List BootAccount × Console S)
          → (is_complete json qt a ≡ true → IsStartable qt a)
          → All (IsStartable qt) r.0
          → All
              (IsStartable qt)
              (if◌then◌else◌ {A = List BootAccount × Console S}
                (is_object && is_complete json qt a)
                (a ∷ r.0, r.1)
                r).0
      kept is_object a r whole rest = elim (Bool-cases (is_object && is_complete json qt a)) [
        | inl e ↦ rw (e) (whole (ground arith), rest)
        | inr e ↦ rw (e) rest
      ]

  settings-accounts :
      (r : J) (cfg : BootConfig)
      → (read_headless json qt sys r (read_defaults json qt sys r cfg)).accounts ≡ cfg.accounts
  unfolding read_headless read_defaults
  settings-accounts r cfg = elim (Bool-cases (is_section json qt sys (codes "headless") r)) [
    | inl e ↦ rw (e, read_headless) (defaults r cfg)
    | inr e ↦ rw (e, read_headless) (defaults r cfg)
  ]
    where
      defaults :
          (r : J) (cfg : BootConfig) → (read_defaults json qt sys r cfg).accounts ≡ cfg.accounts
      defaults r cfg = elim (Bool-cases (is_section json qt sys (codes "defaults") r)) [
        | inl e ↦ rw (e, read_defaults) refl
        | inr e ↦ rw (e, read_defaults) refl
      ]

  accounts-All :
      (present : Bool) (path : Text) (vs : List J) (c : Console S)
      → All
          (IsStartable qt)
          (if◌then◌else◌ {A = List BootAccount × Console S} present
            (parse_accounts json qt sys path vs c)
            ([], c)).0
  accounts-All true path vs c = parse_accounts-All path vs c
  accounts-All false path vs c = tt

  read_root-All :
      (path : Text) (r : J) (c : Console S)
      → All (IsStartable qt) (read_root json qt sys path r c).0.accounts
  unfolding read_root
  read_root-All path r c =
      let present =
        json.contains (codes "accounts") r && json.is_array (json.member (codes "accounts") r) in
      let found = json.to_array (json.member (codes "accounts") r) in
      elim (Bool-cases
        (z_eq (json.to_integer (pos 1) (json.member (codes "schema_version") r)) (pos 1))) [
          | inl e ↦
              rw (e, read_root)
                (subst (All (IsStartable qt))
                  (sym (
                    settings-accounts r (record empty_config {
                      accounts =
                          (if◌then◌else◌ {A = List BootAccount × Console S} present
                            (parse_accounts json qt sys path found c) ([], c)).0;
                    })))
                  (accounts-All present path found c))
          | inr e ↦ rw (e, read_root) tt
        ]

  load_from_file-All :
      (path : Text) (c : Console S)
      → All (IsStartable qt) (load_from_file json qt sys path c).0.accounts
  unfolding load_from_file
  load_from_file-All path c = elim (Bool-cases (sys.exists path)) [
    | inr e ↦ rw (e, load_from_file) tt
    | inl e ↦ elim (Option-cases (sys.contents path)) [
      | inl f ↦ rw (e, f, load_from_file) tt
      | inr (content, f) ↦ elim (Option-cases (json.root content)) [
        | inl g ↦ rw (e, f, g, load_from_file) tt
        | inr (r, g) ↦ rw (e, f, g, load_from_file) (read_root-All path r c)
      ]
    ]
  ]

  module _ (p : Parser) where
    files-All :
        (paths : List Text) (c : Console S)
        → All (λ l. All (IsStartable qt) l.accounts) (read_files json qt sys p paths c).0
    files-All [] c = tt
    files-All (path ∷ paths) c =
        (load_from_file-All path c, files-All paths (load_from_file json qt sys path c).1)

    all_accounts-All :
        (ls : List BootConfig)
        → All (λ l. All (IsStartable qt) l.accounts) ls
        → All (IsStartable qt) (all_accounts ls)
    all_accounts-All [] h = tt
    all_accounts-All (l ∷ ls) h =
        All-append (IsStartable qt) l.accounts (all_accounts ls) h.0 (all_accounts-All ls h.1)

    cli_config-All : (c : Console S) → All (IsStartable qt) (cli_config qt p sys c).0.accounts
    unfolding cli_config cli_accounts
    cli_config-All c = elim (Bool-cases (has_account_flags p)) [
      | inr e ↦ rw (e, cli_config) tt
      | inl e ↦ elim (Bool-cases (is_empty (cli_server qt p) || is_empty (cli_user qt p))) [
        | inl f ↦ rw (e, f, cli_config) tt
        | inr f ↦
            rw (e, f, cli_config)
              (
                cli_params-IsStartable qt p (cli_password qt p sys c).0
                    (or_left (is_empty (cli_server qt p)) (is_empty (cli_user qt p)) f)
                    (or_right (is_empty (cli_server qt p)) (is_empty (cli_user qt p)) f),
                tt,
              )
      ]
    ]

    -- Every account of the configuration, from any provisioning files and any command line, has
    -- a user name, a domain, an authentication user and a label that are not empty, and its
    -- start flag is the same in its parameters and beside them.
    pub parse_command_line-All :
        (c : Console S) → All (IsStartable qt) (parse_command_line qt p sys json c).0.accounts
    unfolding combined
    parse_command_line-All c =
        let files = read_files json qt sys p (layer_files json qt sys p) c in
        let cli = cli_config qt p sys files.1 in
        subst (λ r. All (IsStartable qt) r.0.accounts)
          (sym (parse_command_line-combined json qt sys p c))
          (all_accounts-All (files.0 ++ cli.0 ∷ []) (
            All-append (λ l. All (IsStartable qt) l.accounts) files.0 (cli.0 ∷ [])
              (files-All (layer_files json qt sys p) c) (cli_config-All files.1, tt)))
