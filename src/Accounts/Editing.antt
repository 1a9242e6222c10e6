-- ===== src/Accounts/Editing.antt =====
-- src/core/AccountsManager.cpp: what edits the accounts. The keychain and the database are parameters;
-- a fresh reference for a password comes as an argument.
use compact_phone.Base.{
  ℤ, Bool, true, false, not, ◌&&◌, ◌||◌, Option, none, some, List, [], ◌∷◌, ◌++◌, if◌then◌else◌,
  z_eq, invalid_id, map,
}
use compact_phone.Base.Text.{Text, text_eq}
use compact_phone.Account.{Account}
use compact_phone.Backend.{SipBackend}
use compact_phone.Accounts.{Entry, AccountsManager, find_entry}
use compact_phone.Accounts.Registration.{register_account, unregister_account}
use compact_phone.Accounts.Table.{Table, write_default, row_of, account_of}

pub record Keychain (K : Type 0) : Type 0 where
  pub get : Text → K → Option Text
  pub set : Text → Text → K → Bool × K
  pub erase : Text → K → Bool × K

-- The manager with the stores that it writes to.
pub record AccountBook (B K D : Type 0) : Type 0 where
  pub manager : AccountsManager B
  pub secrets : K
  pub database : D

abbrev pub new_entry : Account → Entry
new_entry a = record { account = a; registered = false }

-- `m_passwordCache[key] = password`
unfoldable pub cache_password : Text → Text → List (Text × Text) → List (Text × Text)
cache_password key password [] = (key, password) ∷ []
cache_password key password ((k, p) ∷ cache) =
    if text_eq k key then (k, password) ∷ cache else (k, p) ∷ cache_password key password cache

unfoldable pub forget_password : Text → List (Text × Text) → List (Text × Text)
forget_password key [] = []
forget_password key ((k, p) ∷ cache) =
    let rest = forget_password key cache in if text_eq k key then rest else (k, p) ∷ rest

-- `m_entries.erase(it)` at the first entry of the account.
unfoldable pub erase_entry : ℤ → List Entry → List Entry
erase_entry id [] = []
erase_entry id (e ∷ es) = if z_eq e.account.id id then es else e ∷ erase_entry id es

-- A write to the account of the first entry that has it.
unfoldable pub edit_entry : ℤ → (Account → Account) → List Entry → List Entry
edit_entry id f [] = []
edit_entry id f (e ∷ es) =
    if z_eq e.account.id id then record e { account = f e.account } ∷ es else e ∷ edit_entry id f es

-- `isDefault` and `passwordRef` are kept.
abbrev pub edited : Account → Account → Account
edited acc old = record acc { is_default = old.is_default; password_ref = old.password_ref }

abbrev pub make_default : ℤ → Entry → Entry
make_default id e = record e { account = record e.account { is_default = z_eq e.account.id id } }

unfoldable pub default_of : (Account → Bool) → List Entry → Option ℤ
default_of test [] = none
default_of test (e ∷ es) = if test e.account then some e.account.id else default_of test es

-- The loop of `find`.
unfoldable pub account_at : ℤ → List Entry → Option Account
account_at id [] = none
account_at id (e ∷ es) = if z_eq e.account.id id then some e.account else account_at id es

abbrev or_else : Option ℤ → Option ℤ → Option ℤ
or_else none y = y
or_else (some x) y = some x

abbrev or_invalid : Option ℤ → ℤ
or_invalid none = invalid_id
or_invalid (some id) = id

module _ {B K D : Type 0} where
  unfoldable pub accounts : AccountBook B K D → List Account
  accounts b = map (λ e. e.account) b.manager.entries

  unfoldable pub find : ℤ → AccountBook B K D → Option Account
  unfolding account_at
  find id b = account_at id b.manager.entries

  unfoldable pub default_account_id : AccountBook B K D → ℤ
  unfolding default_of
  default_account_id b = or_invalid (
      or_else (default_of (λ a. a.is_default && a.enabled) b.manager.entries)
        (default_of (λ a. a.enabled) b.manager.entries))

module _ {B K D : Type 0} (sip : SipBackend B) (kc : Keychain K) (table : Table D) where
  -- `loadFromDatabase`
  unfoldable pub load : AccountBook B K D → AccountBook B K D
  unfolding account_of
  load b = record b {
    manager = record b.manager {
      entries = b.manager.entries ++ map (λ r. new_entry (account_of r)) (table.rows b.database);
    };
  }

  unfoldable pub register : ℤ → AccountBook B K D → AccountBook B K D
  unfolding register_account
  register id b = record b {
    manager = (register_account sip (λ key. kc.get key b.secrets) id b.manager).1;
  }

  unfoldable pub unregister : ℤ → AccountBook B K D → AccountBook B K D
  unfolding unregister_account
  unregister id b = record b {
    manager = unregister_account sip (λ key. kc.get key b.secrets) id b.manager;
  }

  -- `add` once the row is in: the entry, the cache, and perhaps the registration.
  unfoldable pub add_entry : Account → Text → AccountBook B K D → AccountBook B K D
  unfolding register cache_password
  add_entry a password b =
      let added = record b {
        manager = record b.manager {
          entries = b.manager.entries ++ new_entry a ∷ [];
          password_cache = cache_password a.password_ref password b.manager.password_cache;
        };
      } in
      if a.enabled && a.register_on_startup then register a.id added else added

  unfoldable pub add : Text → Account → Text → AccountBook B K D → ℤ × AccountBook B K D
  unfolding add_entry row_of
  add ref acc password b =
      let a = record acc { password_ref = ref } in
      let (kept, secrets) = kc.set ref password b.secrets in
      let (inserted, database) = table.insert_row (row_of a) b.database in
      if not kept then (invalid_id, record b { secrets = secrets }) else elim inserted [
        | none ↦ (invalid_id, record b { secrets = (kc.erase ref secrets).1; database = database })
        | some id ↦ (
          id,
          add_entry (record a { id = id }) password
              (record b { secrets = secrets; database = database }),
        )
      ]

  -- `remove` after the account has been unregistered.
  unfoldable pub remove_entry : ℤ → Text → AccountBook B K D → Bool × AccountBook B K D
  unfolding forget_password erase_entry
  remove_entry id ref b =
      let secrets = (kc.erase ref b.secrets).1 in
      let cache = forget_password ref b.manager.password_cache in
      let (deleted, database) = table.delete_row id b.database in
      let forgotten = record b {
        manager = record b.manager { password_cache = cache };
        secrets = secrets;
        database = database;
      } in
      if not deleted then (false, forgotten) else (
        true,
        record forgotten {
          manager = record forgotten.manager { entries = erase_entry id forgotten.manager.entries };
        },
      )

  unfoldable pub remove : ℤ → AccountBook B K D → Bool × AccountBook B K D
  unfolding unregister remove_entry find_entry
  remove id b = elim (find_entry id b.manager.entries) [
    | none ↦ (false, b)
    | some e ↦
        let down = if e.registered then unregister id b else b in
        remove_entry id e.account.password_ref down
  ]

  -- `update` once the row is written: `live` says whether the account was registered.
  unfoldable pub update_entry : Account → Bool → AccountBook B K D → AccountBook B K D
  unfolding register unregister edit_entry
  update_entry acc live b =
      let down = if live then unregister acc.id b else b in
      let written = record down {
        manager = record down.manager {
          entries = edit_entry acc.id (edited acc) down.manager.entries;
        };
      } in
      if acc.enabled && (live || acc.register_on_startup) then register acc.id written else written

  unfoldable pub update : Account → AccountBook B K D → Bool × AccountBook B K D
  unfolding update_entry find_entry row_of
  update acc b = elim (find_entry acc.id b.manager.entries) [
    | none ↦ (false, b)
    | some e ↦
        let (ok, database) = table.update_row (row_of acc) b.database in
        let b' = record b { database = database } in
        if ok then (true, update_entry acc e.registered b') else (false, b')
  ]

  unfoldable pub set_default : ℤ → AccountBook B K D → Bool × AccountBook B K D
  unfolding find_entry write_default
  set_default id b = elim (find_entry id b.manager.entries) [
    | none ↦ (false, b)
    | some e ↦
        let (ok, database) = write_default table id b.database in
        let b' = record b { database = database } in
        if ok
        then (
          true,
          record b' {
            manager = record b'.manager { entries = map (make_default id) b'.manager.entries };
          },
        )
        else (false, b')
  ]

  -- `setEnabled` once the row is written.
  unfoldable pub enable_entry : ℤ → Bool → AccountBook B K D → AccountBook B K D
  unfolding register unregister edit_entry
  enable_entry id enabled b =
      let written = record b {
        manager = record b.manager {
          entries = edit_entry id (λ a. record a { enabled = enabled }) b.manager.entries;
        };
      } in
      if enabled then register id written else unregister id written

  unfoldable pub set_enabled : ℤ → Bool → AccountBook B K D → Bool × AccountBook B K D
  unfolding enable_entry find_entry
  set_enabled id enabled b = elim (find_entry id b.manager.entries) [
    | none ↦ (false, b)
    | some e ↦
        let (ok, database) = table.set_enabled_row id enabled b.database in
        let b' = record b { database = database } in
        if e.account.enabled && enabled || not e.account.enabled && not enabled
        then (true, b)
        else if ok
        then (true, enable_entry id enabled b')
        else (false, b')
  ]

  -- `setPassword` once the keychain has the password.
  unfoldable pub renew : ℤ → Entry → AccountBook B K D → AccountBook B K D
  unfolding register unregister
  renew id e b =
      let down = if e.registered then unregister id b else b in
      if e.account.enabled && (e.registered || e.account.register_on_startup)
      then register id down
      else down

  unfoldable pub set_password : ℤ → Text → AccountBook B K D → Bool × AccountBook B K D
  unfolding renew find_entry cache_password
  set_password id password b = elim (find_entry id b.manager.entries) [
    | none ↦ (false, b)
    | some e ↦
        let ref = e.account.password_ref in
        let (kept, secrets) = kc.set ref password b.secrets in
        let b' = record b { secrets = secrets } in
        let cached = record b' {
          manager = record b'.manager {
            password_cache = cache_password ref password b'.manager.password_cache;
          };
        } in
        if kept then (true, renew id e cached) else (false, b')
  ]
