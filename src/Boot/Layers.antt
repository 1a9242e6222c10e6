-- ===== src/Boot/Layers.antt =====
-- src/core/BootConfig_parser.cpp and BootConfig_file.cpp: the configuration in terms of the layers that
-- are read.
use compact_phone.Base.{
  ◌≡◌, refl, ap, ◌∙◌, sym, Bool, true, false, ◌||◌, Option, none, some, List, [], ◌∷◌, ◌++◌, map,
  if◌then◌else◌,
}
use compact_phone.Base.Text.{Text, codes, is_empty}
use compact_phone.Boot.{Qt, System, Console, BootConfig, BootAccount, empty_config}
use compact_phone.Boot.Merge.{merge_into, later}
use compact_phone.Boot.Object.{Json}
use compact_phone.Boot.File.{load_from_file, merge_files, searched, discover_provisioning}
use compact_phone.Boot.Settings.{Parser}
use compact_phone.Boot.CommandLine.{cli_config, parse_command_line}

-- What the last layer that sets a field says.
abbrev pub latest : {A : Type 0} → List (Option A) → Option A
latest [] = none
latest (x ∷ xs) = later x (latest xs)

abbrev pub all_accounts : List BootConfig → List BootAccount
all_accounts [] = []
all_accounts (l ∷ ls) = l.accounts ++ all_accounts ls

abbrev pub any_replaces : List BootConfig → Bool
any_replaces [] = false
any_replaces (l ∷ ls) = l.replace_accounts || any_replaces ls

-- All accounts in order, and for each setting the last layer that sets it.
unfoldable pub combined : List BootConfig → BootConfig
combined ls = record {
  accounts = all_accounts ls;
  auto_answer = latest (map (λ l. l.auto_answer) ls);
  dnd = latest (map (λ l. l.dnd) ls);
  minimize_to_tray = latest (map (λ l. l.minimize_to_tray) ls);
  theme = latest (map (λ l. l.theme) ls);
  log_level = latest (map (λ l. l.log_level) ls);
  log_file = latest (map (λ l. l.log_file) ls);
  headless_call_uri = latest (map (λ l. l.headless_call_uri) ls);
  headless_auto_answer = latest (map (λ l. l.headless_auto_answer) ls);
  headless_play_file = latest (map (λ l. l.headless_play_file) ls);
  headless_loop_play_file = latest (map (λ l. l.headless_loop_play_file) ls);
  headless_duration_sec = latest (map (λ l. l.headless_duration_sec) ls);
  headless_exit_after_call = latest (map (λ l. l.headless_exit_after_call) ls);
  replace_accounts = any_replaces ls;
}

later_assoc : {A : Type 0} (x y z : Option A) → later (later x y) z ≡ later x (later y z)
later_assoc x y none = refl
later_assoc x y (some v) = refl

later-none : {A : Type 0} (x : Option A) → later none x ≡ x
later-none none = refl
later-none (some v) = refl

append_assoc : {A : Type 0} (xs ys zs : List A) → (xs ++ ys) ++ zs ≡ xs ++ (ys ++ zs)
append_assoc [] ys zs = refl
append_assoc (x ∷ xs) ys zs = ap (λ t. x ∷ t) (append_assoc xs ys zs)

append-nil : {A : Type 0} (xs : List A) → xs ++ [] ≡ xs
append-nil [] = refl
append-nil (x ∷ xs) = ap (λ t. x ∷ t) (append-nil xs)

or_assoc : (a b c : Bool) → ((a || b) || c) ≡ (a || (b || c))
or_assoc true b c = refl
or_assoc false b c = refl

pub merge_into_assoc :
    (a b c : BootConfig) → merge_into (merge_into a b) c ≡ merge_into a (merge_into b c)
unfolding merge_into
merge_into_assoc a b c = λ i. record {
  accounts = append_assoc a.accounts b.accounts c.accounts i;
  auto_answer = later_assoc a.auto_answer b.auto_answer c.auto_answer i;
  dnd = later_assoc a.dnd b.dnd c.dnd i;
  minimize_to_tray = later_assoc a.minimize_to_tray b.minimize_to_tray c.minimize_to_tray i;
  theme = later_assoc a.theme b.theme c.theme i;
  log_level = later_assoc a.log_level b.log_level c.log_level i;
  log_file = later_assoc a.log_file b.log_file c.log_file i;
  headless_call_uri = later_assoc a.headless_call_uri b.headless_call_uri c.headless_call_uri i;
  headless_auto_answer =
      later_assoc a.headless_auto_answer b.headless_auto_answer c.headless_auto_answer i;
  headless_play_file = later_assoc a.headless_play_file b.headless_play_file c.headless_play_file i;
  headless_loop_play_file =
      later_assoc a.headless_loop_play_file b.headless_loop_play_file c.headless_loop_play_file i;
  headless_duration_sec =
      later_assoc a.headless_duration_sec b.headless_duration_sec c.headless_duration_sec i;
  headless_exit_after_call =
      later_assoc a.headless_exit_after_call b.headless_exit_after_call c.headless_exit_after_call
        i;
  replace_accounts = or_assoc a.replace_accounts b.replace_accounts c.replace_accounts i;
}

merge_into-empty : (a : BootConfig) → merge_into empty_config a ≡ a
unfolding merge_into
merge_into-empty a = λ i. record a {
  auto_answer = later-none a.auto_answer i;
  dnd = later-none a.dnd i;
  minimize_to_tray = later-none a.minimize_to_tray i;
  theme = later-none a.theme i;
  log_level = later-none a.log_level i;
  log_file = later-none a.log_file i;
  headless_call_uri = later-none a.headless_call_uri i;
  headless_auto_answer = later-none a.headless_auto_answer i;
  headless_play_file = later-none a.headless_play_file i;
  headless_loop_play_file = later-none a.headless_loop_play_file i;
  headless_duration_sec = later-none a.headless_duration_sec i;
  headless_exit_after_call = later-none a.headless_exit_after_call i;
}

abbrev merge_all : BootConfig → List BootConfig → BootConfig
merge_all base [] = base
merge_all base (l ∷ ls) = merge_all (merge_into base l) ls

merge_into-none : (a : BootConfig) → merge_into a (combined []) ≡ a
unfolding merge_into combined
merge_into-none a = λ i. record a {
  accounts = append-nil a.accounts i;
  replace_accounts = or-false a.replace_accounts i;
}
  where
    or-false : (b : Bool) → (b || false) ≡ b
    or-false true = refl
    or-false false = refl

merge_all-combined :
    (base : BootConfig) (ls : List BootConfig) → merge_all base ls ≡ merge_into base (combined ls)
merge_all-combined base [] = sym (merge_into-none base)
merge_all-combined base (l ∷ ls) =
    merge_all-combined (merge_into base l) ls
    ∙ merge_into_assoc base l (combined ls)
    ∙ ap (merge_into base) (step l ls)
  where
    step : (l : BootConfig) (ls : List BootConfig) → merge_into l (combined ls) ≡ combined (l ∷ ls)
    step l ls = unfold merge_into combined in refl

merge_all-append :
    (base : BootConfig) (xs ys : List BootConfig)
    → merge_all base (xs ++ ys) ≡ merge_all (merge_all base xs) ys
merge_all-append base [] ys = refl
merge_all-append base (x ∷ xs) ys = merge_all-append (merge_into base x) xs ys

module _ {J S : Type 0} (json : Json J) (qt : Qt) (sys : System S) (p : Parser) where
  -- The layers as they are read, one after the other: files, and at last the command line.
  abbrev pub read_files : List Text → Console S → List BootConfig × Console S
  read_files [] c = ([], c)
  read_files (path ∷ paths) c =
      let (layer, c1) = load_from_file json qt sys path c in
      let (rest, c2) = read_files paths c1 in (layer ∷ rest, c2)

  abbrev pub system_files : List Text
  system_files = if sys.is_unix then codes "/etc/compactphone/provisioning.json" ∷ [] else []

  abbrev pub named_file : Option Text → List Text
  named_file none = []
  named_file (some []) = []
  named_file (some (c ∷ s)) = (c ∷ s) ∷ []

  abbrev pub environment_files : List Text
  environment_files = named_file (sys.variable (codes "COMPACTPHONE_CONFIG"))

  abbrev pub chosen_files : List Text
  chosen_files = if p.is_set (codes "config") then p.value (codes "config") ∷ [] else []

  abbrev pub layer_files : List Text
  layer_files = (system_files ++ sys.data_files ++ environment_files) ++ chosen_files

  searched_files : searched json qt sys ≡ system_files ++ sys.data_files ++ environment_files
  unfolding searched
  searched_files =
      ap (λ fs. system_files ++ sys.data_files ++ fs)
        (named (sys.variable (codes "COMPACTPHONE_CONFIG")))
    where
      named :
          (v : Option Text)
          → elim v [ none ↦ [] | some path ↦ if is_empty path then [] else path ∷ [] ]
            ≡ named_file v
      named none = refl
      named (some []) = refl
      named (some (c ∷ s)) = refl

  abbrev pub layers : Console S → List BootConfig × Console S
  layers c =
      let (files, c1) = read_files layer_files c in
      let (cli, c2) = cli_config qt p sys c1 in (files ++ cli ∷ [], c2)

  read_files-append :
      (xs ys : List Text) (c : Console S)
      → let first = read_files xs c in
        let second = read_files ys first.1 in
        read_files (xs ++ ys) c ≡ (first.0 ++ second.0, second.1)
  read_files-append [] ys c = refl
  read_files-append (x ∷ xs) ys c =
      let (layer, c1) = load_from_file json qt sys x c in
      ap (λ r. (layer ∷ r.0, r.1)) (read_files-append xs ys c1)

  merge_files-read_files :
      (paths : List Text) (base : BootConfig) (c : Console S)
      → merge_files json qt sys paths base c
        ≡ (merge_all base (read_files paths c).0, (read_files paths c).1)
  unfolding merge_files
  merge_files-read_files [] base c = refl
  merge_files-read_files (x ∷ xs) base c =
      let (layer, c1) = load_from_file json qt sys x c in
      merge_files-read_files xs (merge_into base layer) c1

  -- The layers of a list of files, and of the command line.
  abbrev after_files : List Text → Console S → List BootConfig × Console S
  after_files paths c =
      let (files, c1) = read_files paths c in
      let (cli, c2) = cli_config qt p sys c1 in (files ++ cli ∷ [], c2)

  -- The discovered files with the one of `--config`.
  with_file :
      (chosen : Bool) (c : Console S)
      → let (cfg, c1) = discover_provisioning json qt sys c in
        let (file, c2) = load_from_file json qt sys (p.value (codes "config")) c1 in
        let paths =
          searched json qt sys ++ (if chosen then p.value (codes "config") ∷ [] else []) in
        Path
          (BootConfig × Console S)
          (if chosen then (merge_into cfg file, c2) else (cfg, c1))
          (merge_all empty_config (read_files paths c).0, (read_files paths c).1)
  unfolding discover_provisioning
  with_file true c =
      let paths = searched json qt sys in
      let path = p.value (codes "config") in
      let second = read_files (path ∷ []) (read_files paths c).1 in
      ap (λ r. let (l, c') = load_from_file json qt sys path r.1 in (merge_into r.0 l, c'))
        (merge_files-read_files paths empty_config c)
      ∙ ap (λ m. (m, second.1))
          (sym (merge_all-append empty_config (read_files paths c).0 second.0))
      ∙ ap (λ r. (merge_all empty_config r.0, r.1)) (sym (read_files-append paths (path ∷ []) c))
  with_file false c =
      let paths = searched json qt sys in
      merge_files-read_files paths empty_config c
      ∙ ap (λ ps. (merge_all empty_config (read_files ps c).0, (read_files ps c).1))
          (sym (append-nil paths))

  found_first :
      (c : Console S)
      → let r = after_files (searched json qt sys ++ chosen_files) c in
        parse_command_line qt p sys json c ≡ (combined r.0, r.1)
  unfolding parse_command_line
  found_first c =
      let files = read_files (searched json qt sys ++ chosen_files) c in
      let cli = cli_config qt p sys files.1 in
      ap (λ r. let (l, c') = cli_config qt p sys r.1 in (merge_into r.0 l, c'))
        (with_file (p.is_set (codes "config")) c)
      ∙ ap (λ m. (m, cli.1))
          (sym (merge_all-append empty_config files.0 (cli.0 ∷ []))
            ∙ merge_all-combined empty_config (files.0 ++ cli.0 ∷ [])
            ∙ merge_into-empty (combined (files.0 ++ cli.0 ∷ [])))

  -- The configuration is the combination of the layers in the order: the system file (on Unix), the
  -- files in Qt's locations for application data in Qt's order, the file that COMPACTPHONE_CONFIG
  -- names, the file of --config, the command line. Their accounts come one after the other, each
  -- setting is as the last layer that has it says, and replace_accounts is set if any layer asks for
  -- it. The files are read in this order, and the command line's password after them.
  pub parse_command_line-combined :
      (c : Console S) → parse_command_line qt p sys json c ≡ (combined (layers c).0, (layers c).1)
  parse_command_line-combined c =
      found_first c
      ∙ ap (λ fs. let r = after_files fs c in (combined r.0, r.1))
          (ap (λ fs. fs ++ chosen_files) searched_files)
