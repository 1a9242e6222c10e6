-- ===== src/Boot.antt =====
-- src/core/BootConfig.h: what the program is told at start. Qt's texts, JSON and command line, the files,
-- the environment and the input are parameters.
pub mod Server
pub mod Secrets
pub mod Merge
pub mod Object
pub mod File
pub mod Options
pub mod Settings
pub mod CommandLine
pub mod Layers
pub mod Params
pub mod Complete
pub mod CliAccount
pub mod Startable
pub mod Configured
pub mod Ports
use compact_phone.Base.{
  ℤ, Bool, true, false, ◌&&◌, not, Option, none, some, List, [], ◌∷◌, if◌then◌else◌,
}
use compact_phone.Base.Dict.{is_some}
use compact_phone.Base.Text.{Text, codes}
use compact_phone.Base.TextMap.{TextMap, get, set}

-- What a `QVariant` holds here; `invalid` is that of a missing key.
pub data Value : Type 0 where
  invalid : Value
  text : Text → Value
  boolean : Bool → Value
  number : ℤ → Value

abbrev pub Params : Type 0
Params = TextMap Value

pub record BootAccount : Type 0 where
  pub params : Params
  pub password : Text
  pub register_on_start : Bool

pub record BootConfig : Type 0 where
  pub accounts : List BootAccount
  pub auto_answer : Option Bool
  pub dnd : Option Bool
  pub minimize_to_tray : Option Bool
  pub theme : Option Text
  pub log_level : Option Text
  pub log_file : Option Text
  pub headless_call_uri : Option Text
  pub headless_auto_answer : Option Bool
  pub headless_play_file : Option Text
  pub headless_loop_play_file : Option Bool
  pub headless_duration_sec : Option ℤ
  pub headless_exit_after_call : Option Bool
  pub replace_accounts : Bool

abbrev pub empty_account : BootAccount
empty_account = record { params = []; password = []; register_on_start = true }

abbrev pub empty_config : BootConfig
empty_config = record {
  accounts = [];
  auto_answer = none;
  dnd = none;
  minimize_to_tray = none;
  theme = none;
  log_level = none;
  log_file = none;
  headless_call_uri = none;
  headless_auto_answer = none;
  headless_play_file = none;
  headless_loop_play_file = none;
  headless_duration_sec = none;
  headless_exit_after_call = none;
  replace_accounts = false;
}

abbrev is_nil : List BootAccount → Bool
is_nil [] = true
is_nil (a ∷ rest) = false

-- `empty`
unfoldable pub is_empty_config : BootConfig → Bool
is_empty_config c =
    is_nil c.accounts
    && not (is_some c.auto_answer)
    && not (is_some c.dnd)
    && not (is_some c.minimize_to_tray)
    && not (is_some c.theme)
    && not (is_some c.log_level)
    && not (is_some c.log_file)
    && not (is_some c.headless_call_uri)
    && not (is_some c.headless_auto_answer)
    && not (is_some c.headless_play_file)
    && not (is_some c.headless_loop_play_file)
    && not (is_some c.headless_duration_sec)
    && not (is_some c.headless_exit_after_call)

-- The functions of `QString` and `QVariant` that the program calls.
pub record Qt : Type 0 where
  pub trimmed : Text → Text
  pub to_lower : Text → Text
  pub to_int : Text → ℤ
  pub number : ℤ → Text

module _ (qt : Qt) where
  -- `QVariant::toString`
  abbrev pub to_string : Value → Text
  to_string invalid = []
  to_string (text s) = s
  to_string (boolean b) = if b then codes "true" else codes "false"
  to_string (number n) = qt.number n

abbrev or_invalid : Option Value → Value
or_invalid none = invalid
or_invalid (some v) = v

-- `params.value(key)`
abbrev pub value : Text → Params → Value
value key params = or_invalid (get key params)

-- What is printed for the user, with the source's prefix and text left out.
pub data Warning : Type 0 where
  variable_not_set : Text → Warning
  unreadable_password_file : Text → Warning
  unreadable_file : Text → Warning
  parse_error : Text → Warning
  unsupported_schema : Text → ℤ → Warning
  account_dropped : Text → Warning
  server_and_user_required : Warning
  password_leaks : Warning

-- The program's surroundings: what it reads from, over the state of the standard input. `data_files` are
-- the files in the directories of `QStandardPaths::standardLocations(AppDataLocation)`, in its order: the
-- user's own directory, then those that are shared by all users.
pub record System (S : Type 0) : Type 0 where
  pub is_unix : Bool
  pub data_files : List Text
  pub variable : Text → Option Text
  pub exists : Text → Bool
  pub contents : Text → Option Text
  pub first_line : Text → Option Text
  pub read_line : S → Text × S

-- The standard input and what has been printed, the newest first.
pub record Console (S : Type 0) : Type 0 where
  pub input : S
  pub warnings : List Warning

abbrev pub warn : {S : Type 0} → Warning → Console S → Console S
warn w c = record c { warnings = w ∷ c.warnings }
