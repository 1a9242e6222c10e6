-- ===== src/Accounts.antt =====
-- src/core/AccountsManager.h: registration states, the state of the accounts manager, and its reads.
-- The children have its operations and what is proved of them.
pub mod Registration
pub mod Table
pub mod Editing
pub mod RoundTrip
pub mod Tied
pub mod Entries
pub mod Kept
pub mod Edits
pub mod Rows
pub mod Changes
pub mod Switches
pub mod Defaults
pub mod Choosing
pub mod Restart
pub mod Outcomes
use compact_phone.Base.{
  ℕ, ℤ, pos, negsuc, ◌/◌, Bool, true, false, not, ◌&&◌, Option, none, some, List, [], ◌∷◌,
  if◌then◌else◌, z_eq, ◌==◌, invalid_id,
}
use compact_phone.Base.Dict.{Dict, lookup}
use compact_phone.Base.Text.{Text, text_eq}
use compact_phone.Account.{Account}
use compact_phone.Backend.{PresenceState}

pub data RegistrationState : Type 0 where
  unregistered registering registered failed : RegistrationState

pub record RegError : Type 0 where
  pub code : ℤ
  pub reason : Text

abbrev pub no_error : RegError
no_error = record { code = pos 0; reason = [] }

pub record RegStateUpdate : Type 0 where
  pub state : RegistrationState
  pub error : RegError

pub record MwiState : Type 0 where
  pub new_messages : ℤ
  pub old_messages : ℤ
  pub active : Bool

pub record Entry : Type 0 where
  pub account : Account
  pub registered : Bool

pub data Signal : Type 0 where
  registration_state_changed : ℤ → RegistrationState → Signal
  mwi_changed : ℤ → MwiState → Signal
  instant_message_received : ℤ → Text → Text → Signal
  presence_changed : ℤ → PresenceState → Signal

-- `password_cache` is keyed by the reference of a password; `signals` is latest first.
pub record AccountsManager (B : Type 0) : Type 0 where
  pub backend : B
  pub entries : List Entry
  pub backend_ids : Dict ℤ
  pub reg_states : Dict RegistrationState
  pub reg_errors : Dict RegError
  pub mwi : Dict MwiState
  pub password_cache : List (Text × Text)
  pub signals : List Signal

-- `statusCode / 100 == 2`; the division of a negative code truncates towards 0, so it is never 2.
abbrev pub is_2xx : ℤ → Bool
is_2xx (pos n) = n / 100 == 2
is_2xx (negsuc n) = false

unfoldable pub map_reg_event : Bool → ℤ → Text → RegError → RegStateUpdate
map_reg_event is_active code reason last_error =
    if is_active && is_2xx code
    then record { state = RegistrationState.registered; error = no_error }
    else if z_eq code (pos 0)
    then record { state = RegistrationState.registering; error = last_error }
    else if not is_active && is_2xx code
    then record { state = RegistrationState.unregistered; error = last_error }
    else record {
      state = RegistrationState.failed;
      error = record { code = code; reason = reason };
    }

unfoldable pub find_entry : ℤ → List Entry → Option Entry
find_entry id [] = none
find_entry id (e ∷ es) = if z_eq e.account.id id then some e else find_entry id es

unfoldable pub find_password : Text → List (Text × Text) → Option Text
find_password key [] = none
find_password key ((k, password) ∷ cache) =
    if text_eq k key then some password else find_password key cache

abbrev pub or_unregistered : Option RegistrationState → RegistrationState
or_unregistered none = RegistrationState.unregistered
or_unregistered (some s) = s

abbrev pub or_no_error : Option RegError → RegError
or_no_error none = no_error
or_no_error (some e) = e

abbrev or_no_mwi : Option MwiState → MwiState
or_no_mwi none = record { new_messages = pos 0; old_messages = pos 0; active = false }
or_no_mwi (some s) = s

abbrev pub or_invalid : Option ℤ → ℤ
or_invalid none = invalid_id
or_invalid (some id) = id

-- The loop of `accountIdForBackend`.
unfoldable pub key_of : ℤ → Dict ℤ → ℤ
key_of value [] = invalid_id
key_of value ((k, v) ∷ d) = if z_eq v value then k else key_of value d

module _ {B : Type 0} where
  unfoldable pub state_of : ℤ → AccountsManager B → RegistrationState
  state_of id m = or_unregistered (lookup id m.reg_states)

  unfoldable pub last_reg_error_of : ℤ → AccountsManager B → RegError
  last_reg_error_of id m = or_no_error (lookup id m.reg_errors)

  unfoldable pub mwi_state_of : ℤ → AccountsManager B → MwiState
  mwi_state_of id m = or_no_mwi (lookup id m.mwi)

  unfoldable pub backend_id_for : ℤ → AccountsManager B → ℤ
  backend_id_for id m = or_invalid (lookup id m.backend_ids)

  unfoldable pub account_id_for_backend : ℤ → AccountsManager B → ℤ
  unfolding key_of
  account_id_for_backend backend_id m = key_of backend_id m.backend_ids
