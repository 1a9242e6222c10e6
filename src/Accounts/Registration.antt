-- ===== src/Accounts/Registration.antt =====
-- src/core/AccountsManager.cpp: registration, and the events of the backend. The keychain is a
-- parameter: what it holds under a reference.
use compact_phone.Base.{
  ℤ, Bool, true, false, not, ◌&&◌, ◌||◌, Option, none, some, List, [], ◌∷◌, ◌++◌, if◌then◌else◌,
  z_eq, invalid_id,
}
use compact_phone.Base.Dict.{lookup, insert, erase}
use compact_phone.Base.Text.{Text, is_empty}
use compact_phone.Account.{Account}
use compact_phone.Backend.{SipBackend, AccountSettings}
use compact_phone.Accounts.{
  RegistrationState, Entry, Signal, MwiState, AccountsManager, map_reg_event, find_entry,
  find_password, last_reg_error_of, backend_id_for, account_id_for_backend,
}

-- What the backend is asked to register. `authUser` and `authRealm` are passed raw.
unfoldable pub settings_of : Account → Text → AccountSettings
settings_of a password = record {
  display_name = a.display_name;
  username = a.username;
  domain = a.domain;
  auth_user = a.auth_user;
  auth_realm = a.auth_realm;
  password = password;
  transport = a.transport;
  proxy = a.proxy;
  public_address = a.public_address;
  register_interval_sec = a.register_interval_sec;
  keepalive_interval_sec = a.keepalive_interval_sec;
  session_timers_enabled = a.session_timers_enabled;
  publish_presence_enabled = a.publish_presence_enabled;
  ice_enabled = a.ice_enabled;
  hide_caller_id = a.hide_caller_id;
  zrtp_enabled = a.zrtp_enabled;
  srtp_mode = a.srtp_mode;
  allow_untrusted_cert = a.allow_untrusted_cert;
  dtmf_method = a.dtmf_method;
  use_stun = not (is_empty a.stun_server);
}

-- The first entry of the account is marked as registered.
unfoldable pub mark_registered : ℤ → List Entry → List Entry
mark_registered id [] = []
mark_registered id (e ∷ es) =
    if z_eq e.account.id id then record e { registered = true } ∷ es else e ∷ mark_registered id es

-- The first registered entry of the account is marked as not registered.
unfoldable pub mark_unregistered : ℤ → List Entry → List Entry
mark_unregistered id [] = []
mark_unregistered id (e ∷ es) =
    if not (z_eq e.account.id id) || not e.registered
    then e ∷ mark_unregistered id es
    else record e { registered = false } ∷ es

unfoldable pub has_registered : ℤ → List Entry → Bool
has_registered id [] = false
has_registered id (e ∷ es) = z_eq e.account.id id && e.registered || has_registered id es

-- Enabled and to be registered at start, in order.
unfoldable pub startup_ids : List Entry → List ℤ
startup_ids [] = []
startup_ids (e ∷ es) =
    if e.account.enabled && e.account.register_on_startup
    then e.account.id ∷ startup_ids es
    else startup_ids es

module _ {B : Type 0} (sip : SipBackend B) (keychain : Text → Option Text) where
  -- The password of a reference, from the cache or else from the keychain, which fills the cache.
  unfoldable pub password_for : Text → AccountsManager B → Option Text × AccountsManager B
  password_for key m = elim (find_password key m.password_cache) [
    | some password ↦ (some password, m)
    | none ↦ elim (keychain key) [
      | none ↦ (none, m)
      | some password ↦
          (some password, record m { password_cache = m.password_cache ++ (key, password) ∷ [] })
    ]
  ]

  -- `registerAccount` once it has a password.
  unfoldable pub add_to_backend : Account → ℤ → Text → AccountsManager B → Bool × AccountsManager B
  unfolding settings_of mark_registered
  add_to_backend a id password m =
      let (backend_id, b) = sip.add_account (settings_of a password) m.backend in
      if z_eq backend_id invalid_id then (false, record m { backend = b }) else (
        true,
        record m {
          backend = b;
          backend_ids = insert id backend_id m.backend_ids;
          entries = mark_registered id m.entries;
        },
      )

  unfoldable pub with_password :
      Account → ℤ → Option Text × AccountsManager B → Bool × AccountsManager B
  unfolding add_to_backend
  with_password a id (none, m) = (false, m)
  with_password a id (some password, m) = add_to_backend a id password m

  unfoldable pub register_account : ℤ → AccountsManager B → Bool × AccountsManager B
  unfolding password_for with_password find_entry
  register_account id m = elim (find_entry id m.entries) [
    | none ↦ (false, m)
    | some e ↦
        if not (sip.is_running m.backend)
        then (false, m)
        else if e.registered
        then (true, m)
        else with_password e.account id (password_for e.account.password_ref m)
  ]

  abbrev drop_backend_id : ℤ → AccountsManager B → AccountsManager B
  drop_backend_id id m = elim (lookup id m.backend_ids) [
    | none ↦ m
    | some backend_id ↦
        let m' = record m { backend_ids = erase id m.backend_ids } in
        if z_eq backend_id invalid_id
        then m'
        else record m' { backend = (sip.remove_account backend_id m'.backend).1 }
  ]

  unfoldable pub unregister_account : ℤ → AccountsManager B → AccountsManager B
  unfolding has_registered mark_unregistered
  unregister_account id m =
      if not (has_registered id m.entries)
      then m
      else let dropped = drop_backend_id id m in
        record dropped {
          entries = mark_unregistered id dropped.entries;
          reg_states = insert id RegistrationState.unregistered dropped.reg_states;
          reg_errors = erase id dropped.reg_errors;
        }

  unfoldable pub register_all : List ℤ → AccountsManager B → AccountsManager B
  unfolding register_account
  register_all [] m = m
  register_all (id ∷ ids) m = register_all ids (register_account id m).1

  -- The entries are walked as they stand: registering one changes no account.
  unfoldable pub register_startup_accounts : AccountsManager B → AccountsManager B
  unfolding register_all startup_ids
  register_startup_accounts m = register_all (startup_ids m.entries) m

  unfoldable pub reregister : List ℤ → AccountsManager B → AccountsManager B
  unfolding register_account unregister_account
  reregister [] m = m
  reregister (id ∷ ids) m = reregister ids (register_account id (unregister_account id m)).1

  unfoldable pub reregister_all_enabled : AccountsManager B → AccountsManager B
  unfolding reregister startup_ids
  reregister_all_enabled m = reregister (startup_ids m.entries) m

  unfoldable pub on_reg_state : ℤ → Bool → ℤ → Text → AccountsManager B → AccountsManager B
  unfolding map_reg_event account_id_for_backend last_reg_error_of
  on_reg_state backend_id reg_active sip_code reason m =
      let id = account_id_for_backend backend_id m in
      let upd = map_reg_event reg_active sip_code reason (last_reg_error_of id m) in
      if z_eq id invalid_id then m else record m {
        reg_states = insert id upd.state m.reg_states;
        reg_errors = insert id upd.error m.reg_errors;
        signals = Signal.registration_state_changed id upd.state ∷ m.signals;
      }

  unfoldable pub on_mwi : ℤ → ℤ → ℤ → Bool → AccountsManager B → AccountsManager B
  unfolding account_id_for_backend
  on_mwi backend_id new_messages old_messages active m =
      let id = account_id_for_backend backend_id m in
      let s : MwiState = record {
        new_messages = new_messages;
        old_messages = old_messages;
        active = active;
      } in
      if z_eq id invalid_id
      then m
      else record m { mwi = insert id s m.mwi; signals = Signal.mwi_changed id s ∷ m.signals }

  unfoldable pub on_instant_message : ℤ → Text → Text → AccountsManager B → AccountsManager B
  unfolding account_id_for_backend
  on_instant_message backend_id from_uri body m =
      let id = account_id_for_backend backend_id m in
      if z_eq id invalid_id
      then m
      else record m { signals = Signal.instant_message_received id from_uri body ∷ m.signals }

  unfoldable pub send_instant_message :
      ℤ → Text → Text → AccountsManager B → Bool × AccountsManager B
  unfolding backend_id_for
  send_instant_message id to body m =
      let (ok, b) = sip.send_message (backend_id_for id m) to body m.backend in
      if z_eq (backend_id_for id m) invalid_id then (false, m) else (ok, record m { backend = b })
