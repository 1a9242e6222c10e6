-- ===== src/Tests/Accounts.antt =====
-- The theorems about registration at one account over the fake backend.
use compact_phone.Base.{pos, ◌≡◌, refl, true, false, Option, some, [], ◌∷◌, z_eq, invalid_id}
use compact_phone.Base.Text.{Text, codes}
use compact_phone.Backend.Fake.{FakeSipBackend}
use compact_phone.Backend.Fake.Calls.{fake_backend}
use compact_phone.Backend.Fake.Engine.{add_account}
use compact_phone.Accounts.{
  AccountsManager, RegistrationState, no_error, state_of, last_reg_error_of, backend_id_for,
  account_id_for_backend, find_entry, find_password,
}
use compact_phone.Accounts.Registration.{
  settings_of, password_for, register_account, unregister_account, on_reg_state,
}
use compact_phone.Accounts.Outcomes
use compact_phone.Tests.{account, ready_backend}

abbrev keychain : Text → Option Text
keychain key = some (codes "pw")

abbrev manager : AccountsManager FakeSipBackend
manager = record {
  backend = ready_backend;
  entries = record { account = account; registered = false } ∷ [];
  backend_ids = [];
  reg_states = [];
  reg_errors = [];
  mwi = [];
  password_cache = [];
  signals = [];
}

-- The manager once the account is up as 5 of the backend.
abbrev up : AccountsManager FakeSipBackend
up = record manager { backend_ids = (pos 1, pos 5) ∷ [] }

on_reg_state_outcome_example :
    let m' = on_reg_state fake_backend keychain (pos 5) true (pos 403) (codes "Forbidden") up in
    (state_of (pos 1) m' ≡ RegistrationState.failed)
    × (last_reg_error_of (pos 1) m' ≡ record { code = pos 403; reason = codes "Forbidden" })
unfolding z_eq account_id_for_backend
on_reg_state_outcome_example =
    Outcomes.on_reg_state_outcome fake_backend keychain (pos 5) (pos 403) (pos 1) true
      (codes "Forbidden") up refl

register_unregister_example :
    let (granted, b) = fake_backend.add_account (settings_of account (codes "pw")) ready_backend in
    let (ok, registered) = register_account fake_backend keychain (pos 1) manager in
    let down = unregister_account fake_backend keychain (pos 1) registered in
    (ok ≡ true)
    × (backend_id_for (pos 1) registered ≡ granted)
    × (backend_id_for (pos 1) down ≡ invalid_id)
    × (down.backend ≡ (fake_backend.remove_account granted b).1)
    × (state_of (pos 1) down ≡ RegistrationState.unregistered)
    × (last_reg_error_of (pos 1) down ≡ no_error)
unfolding find_entry z_eq password_for add_account find_password
register_unregister_example =
    Outcomes.register_unregister fake_backend keychain (pos 1)
      (record { account = account; registered = false }) (codes "pw") manager refl refl refl refl
      refl
