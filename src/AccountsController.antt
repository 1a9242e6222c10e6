-- ===== src/AccountsController.antt =====
-- src/core/AccountsController.h, AccountsController.cpp: the accounts as the user interface sees them.
pub mod Params
pub mod Settings
pub mod Status
pub mod Actions
pub mod Servers
pub mod Active
pub mod RoundTrip
pub mod Defaults
pub mod History
use compact_phone.Base.{ℕ, ℤ, pos, Bool, true, false, not, Option, none, some, List, ◌∷◌, z_eq}
use compact_phone.Base.Dict.{Dict}
use compact_phone.Base.Text.{Text}
use compact_phone.Boot.{Qt, Value, to_string}
use compact_phone.Accounts.{RegistrationState}
use compact_phone.Accounts.Editing.{AccountBook}

-- What a failed registration is said to be: the code and the reason that are known.
pub data Detail : Type 0 where
  code_and_reason : ℤ → Text → Detail
  code : ℤ → Detail
  reason : Text → Detail
  transport_error : Detail

-- What the interface is told.
pub data Notice : Type 0 where
  model_refreshed : Notice
  registration_changed : ℤ → Notice
  active_account_changed : Notice
  registered_count_changed : Notice
  registration_failed : Text → Detail → Notice

-- `m_activeAccountId` is the account that the user chose, which need not be active.
pub record AccountsController (B K D : Type 0) : Type 0 where
  pub book : AccountBook B K D
  pub registered_count : ℕ
  pub active_id : ℤ
  pub last_state : Dict RegistrationState
  pub notices : List Notice

abbrev pub notify : {B K D : Type 0} → Notice → AccountsController B K D → AccountsController B K D
notify n c = record c { notices = n ∷ c.notices }

-- What the controller asks of the backend beyond SipBackend.
pub record MediaSettings (B : Type 0) : Type 0 where
  pub set_stun_servers : List Text → B → B
  pub set_codec_priority : List Text → B → B

-- `QVariant::toBool` and `toInt`; how a text is read is Qt's.
abbrev pub to_bool : (Text → Bool) → Value → Bool
to_bool truth Value.invalid = false
to_bool truth (Value.text s) = truth s
to_bool truth (Value.boolean b) = b
to_bool truth (Value.number n) = not (z_eq n (pos 0))

abbrev pub to_int : Qt → Value → ℤ
to_int qt Value.invalid = pos 0
to_int qt (Value.text s) = qt.to_int s
to_int qt (Value.boolean true) = pos 1
to_int qt (Value.boolean false) = pos 0
to_int qt (Value.number n) = n
