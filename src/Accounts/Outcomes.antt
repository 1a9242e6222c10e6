-- ===== src/Accounts/Outcomes.antt =====
-- What registration leaves: src/core/AccountsManager.cpp, `registerAccount`, `unregisterAccount` and
-- `onRegState`.
use compact_phone.Base.{
  ℤ, pos, negsuc, ◌≡◌, refl, ap, ◌∙◌, sym, subst, Bool, true, false, Option, none, some, List, [],
  ◌∷◌, arith, if◌then◌else◌, z_eq, z_eq_refl, invalid_id,
}
use compact_phone.Base.Dict.{lookup, lookup-insert, lookup-erase}
use compact_phone.Base.Text.{Text}
use compact_phone.Account.{Account}
use compact_phone.Backend.{SipBackend}
use compact_phone.Accounts.{
  RegistrationState, RegError, Entry, AccountsManager, map_reg_event, is_2xx, no_error, find_entry,
  state_of, last_reg_error_of, backend_id_for, account_id_for_backend, or_invalid,
}
use compact_phone.Accounts.Registration.{
  settings_of, mark_registered, has_registered, password_for, add_to_backend, with_password,
  register_account, unregister_account, on_reg_state,
}

abbrev pub state_for : Bool → ℤ → RegistrationState
state_for active code =
    if is_2xx code
    then if active then RegistrationState.registered else RegistrationState.unregistered
    else if z_eq code (pos 0)
    then RegistrationState.registering
    else RegistrationState.failed

abbrev pub error_for : RegistrationState → ℤ → Text → RegError → RegError
error_for RegistrationState.registered code reason last = no_error
error_for RegistrationState.failed code reason last = record { code = code; reason = reason }
error_for _ code reason last = last

map_reg_event_lem :
    (active : Bool) (code : ℤ) (reason : Text) (last : RegError)
    → let upd = map_reg_event active code reason last in
      (upd.state ≡ state_for active code)
      × (upd.error ≡ error_for (state_for active code) code reason last)
unfolding map_reg_event z_eq
map_reg_event_lem true (pos n) reason last = ground arith
map_reg_event_lem false (pos n) reason last = ground arith
map_reg_event_lem true (negsuc n) reason last = ground arith
map_reg_event_lem false (negsuc n) reason last = ground arith

module _ {B : Type 0} (sip : SipBackend B) (keychain : Text → Option Text) where
  -- A registration event for the account that the backend id belongs to: a 2xx makes it registered or,
  -- if the registration is not active, unregistered; a code of 0 means that an attempt is under way;
  -- anything else is a failure. Its error is cleared on registration, replaced on a failure, and else
  -- the one that was. No other account's state or error changes.
  pub on_reg_state_outcome :
      (backend_id code j : ℤ) (active : Bool) (reason : Text) (m : AccountsManager B)
      → z_eq (account_id_for_backend backend_id m) invalid_id ≡ false
      → let id = account_id_for_backend backend_id m in
        let m' = on_reg_state sip keychain backend_id active code reason m in
        (state_of j m' ≡ (if z_eq id j then state_for active code else state_of j m))
        × (last_reg_error_of j m' ≡ (
            if z_eq id j
            then error_for (state_for active code) code reason (last_reg_error_of id m)
            else last_reg_error_of j m))
  unfolding on_reg_state state_of last_reg_error_of
  on_reg_state_outcome backend_id code j active reason m known =
      let id = account_id_for_backend backend_id m in
      let upd = map_reg_event active code reason (last_reg_error_of id m) in
      rw known (
        ground (
          arith,
          map_reg_event_lem active code reason (last_reg_error_of id m),
          lookup-insert j id upd.state m.reg_states,
          lookup-insert j id upd.error m.reg_errors,
        ))

  has_registered-mark :
      (id : ℤ) (e : Entry) (es : List Entry)
      → find_entry id es ≡ some e
      → has_registered id (mark_registered id es) ≡ true
  unfolding has_registered mark_registered find_entry
  has_registered-mark id e [] found = ground arith
  has_registered-mark id e (x ∷ es) found = ground (arith, has_registered-mark id e es)

  password_for-keeps :
      (key : Text) (m : AccountsManager B)
      → let m' = (password_for sip keychain key m).1 in
        (m'.backend ≡ m.backend) × (m'.entries ≡ m.entries) × (m'.backend_ids ≡ m.backend_ids)
  unfolding password_for
  password_for-keeps key m = ground arith

  with_password-known :
      (a : Account) (id : ℤ) (password : Text) (p : Option Text × AccountsManager B)
      → p.0 ≡ some password
      → with_password sip keychain a id p ≡ add_to_backend sip keychain a id password p.1
  unfolding with_password
  with_password-known a id password (none, m) known = ground arith
  with_password-known a id password (some q, m) known = ground arith

  register_account-with_password :
      (id : ℤ) (e : Entry) (m : AccountsManager B)
      → find_entry id m.entries ≡ some e
      → sip.is_running m.backend ≡ true
      → e.registered ≡ false
      → register_account sip keychain id m
        ≡ with_password sip keychain e.account id
            (password_for sip keychain e.account.password_ref m)
  unfolding register_account
  register_account-with_password id e m found running fresh =
      rw (found, register_account) (rw running (rw fresh refl))

  -- The account is up under that id of the backend.
  abbrev IsUp : ℤ → ℤ → AccountsManager B → Type 0
  IsUp id granted m =
      (has_registered id m.entries ≡ true) × (lookup id m.backend_ids ≡ some granted)

  add_to_backend-up :
      (a : Account) (id : ℤ) (e : Entry) (password : Text) (m : AccountsManager B)
      → find_entry id m.entries ≡ some e
      → z_eq (sip.add_account (settings_of a password) m.backend).0 invalid_id ≡ false
      → let (granted, b) = sip.add_account (settings_of a password) m.backend in
        let (ok, up) = add_to_backend sip keychain a id password m in
        (ok ≡ true) × IsUp id granted up × (up.backend ≡ b)
  unfolding add_to_backend
  add_to_backend-up a id e password m found valid =
      let g = (sip.add_account (settings_of a password) m.backend).0 in
      rw valid (
        refl,
        (
          has_registered-mark id e m.entries found,
          ground (arith, z_eq_refl id, lookup-insert id id g m.backend_ids),
        ),
        refl,
      )

  unregister_account-up :
      (id granted : ℤ) (m : AccountsManager B)
      → IsUp id granted m
      → z_eq granted invalid_id ≡ false
      → let down = unregister_account sip keychain id m in
        (backend_id_for id down ≡ invalid_id)
        × (down.backend ≡ (sip.remove_account granted m.backend).1)
        × (state_of id down ≡ RegistrationState.unregistered)
        × (last_reg_error_of id down ≡ no_error)
  unfolding unregister_account backend_id_for state_of last_reg_error_of
  unregister_account-up id granted m up valid = ground (
    arith,
    up,
    z_eq_refl id,
    lookup-erase id id m.backend_ids,
    lookup-insert id id RegistrationState.unregistered m.reg_states,
    lookup-erase id id m.reg_errors,
  )

  -- What a granted registration answers, and what it leaves.
  abbrev Granted : ℤ → ℤ × B → Bool × AccountsManager B → Type 0
  Granted id (g, b) (ok, up) = (ok ≡ true) × IsUp id g up × (up.backend ≡ b)

  register_account-Granted :
      (id : ℤ) (e : Entry) (password : Text) (m : AccountsManager B)
      → find_entry id m.entries ≡ some e
      → sip.is_running m.backend ≡ true
      → e.registered ≡ false
      → (password_for sip keychain e.account.password_ref m).0 ≡ some password
      → z_eq (sip.add_account (settings_of e.account password) m.backend).0 invalid_id ≡ false
      → Granted id
          (sip.add_account (settings_of e.account password) m.backend)
          (register_account sip keychain id m)
  register_account-Granted id e password m found running fresh known granted =
      let key = e.account.password_ref in
      let m' = (password_for sip keychain key m).1 in
      let kept = password_for-keeps key m in
      let same : register_account sip keychain id m
          ≡ add_to_backend sip keychain e.account id password m' =
        register_account-with_password id e m found running fresh
        ∙ with_password-known e.account id password (password_for sip keychain key m) known in
      let added = add_to_backend-up e.account id e password m' (ap (find_entry id) kept.1 ∙ found) (
        ap (λ b. z_eq (sip.add_account (settings_of e.account password) b).0 invalid_id) kept.0
        ∙ granted) in
      subst (λ x. Granted id (sip.add_account (settings_of e.account password) m.backend) x)
        (sym same)
        (subst
          (λ b.
            Granted id (sip.add_account (settings_of e.account password) b)
              (add_to_backend sip keychain e.account id password m'))
          kept.0 added)

  -- Registering an account that is not registered yet, with a backend that runs and grants it and a
  -- password that is at hand: it gets the id of the backend's answer. Unregistering it then has the
  -- backend remove that id, and leaves the account without an id, unregistered and with no error.
  pub register_unregister :
      (id : ℤ) (e : Entry) (password : Text) (m : AccountsManager B)
      → find_entry id m.entries ≡ some e
      → sip.is_running m.backend ≡ true
      → e.registered ≡ false
      → (password_for sip keychain e.account.password_ref m).0 ≡ some password
      → z_eq (sip.add_account (settings_of e.account password) m.backend).0 invalid_id ≡ false
      → let (granted, b) = sip.add_account (settings_of e.account password) m.backend in
        let (ok, up) = register_account sip keychain id m in
        let down = unregister_account sip keychain id up in
        (ok ≡ true)
        × (backend_id_for id up ≡ granted)
        × (backend_id_for id down ≡ invalid_id)
        × (down.backend ≡ (sip.remove_account granted b).1)
        × (state_of id down ≡ RegistrationState.unregistered)
        × (last_reg_error_of id down ≡ no_error)
  unfolding backend_id_for
  register_unregister id e password m found running fresh known granted =
      let up = register_account-Granted id e password m found running fresh known granted in
      let g = (sip.add_account (settings_of e.account password) m.backend).0 in
      let down = unregister_account-up id g (register_account sip keychain id m).1 up.1 granted in
      (
        up.0,
        ap or_invalid up.1.1,
        down.0,
        down.1 ∙ ap (λ b. (sip.remove_account g b).1) up.2,
        down.2,
        down.3,
      )
