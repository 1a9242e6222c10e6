-- ===== src/AccountsController/Actions.antt =====
-- src/core/AccountsController.cpp: what the user does to the accounts.
use compact_phone.Base.{
  ℤ, Bool, true, false, not, ◌&&◌, none, some, List, [], ◌∷◌, if◌then◌else◌, z_eq, invalid_id,
}
use compact_phone.Base.Text.{Text, codes, is_empty}
use compact_phone.Base.TextMap.{get}
use compact_phone.Boot.{Qt, Params, value, to_string}
use compact_phone.Account.{Account}
use compact_phone.Backend.{SipBackend}
use compact_phone.Accounts.Table.{Table}
use compact_phone.Accounts.Editing
use compact_phone.Accounts.Editing.{AccountBook, Keychain}
use compact_phone.AccountsController.{AccountsController, MediaSettings, Notice, notify, to_bool}
use compact_phone.AccountsController.Params.{new_account, apply_params, default_auth_user, contains}
use compact_phone.AccountsController.Settings.{push_settings}
use compact_phone.AccountsController.Status.{refresh_registered_count}

abbrev pub no_accounts : List Account → Bool
no_accounts [] = true
no_accounts (a ∷ rest) = false

module _ {B K D : Type 0} (sip : SipBackend B) (kc : Keychain K) (table : Table D)
    (media : MediaSettings B) (qt : Qt) (truth : Text → Bool) where
  -- The controller as it is made.
  unfoldable pub created : AccountBook B K D → AccountsController B K D
  unfolding push_settings refresh_registered_count
  created book = push_settings media (
      refresh_registered_count (record {
        book = book;
        registered_count = 0;
        active_id = invalid_id;
        last_state = [];
        notices = [];
      }))

  abbrev refreshed : AccountsController B K D → AccountsController B K D
  refreshed c = notify Notice.model_refreshed c

  -- What follows a change that may bring an account up or down.
  unfoldable pub changed : AccountsController B K D → AccountsController B K D
  unfolding push_settings refresh_registered_count
  changed c =
      notify Notice.active_account_changed
        (push_settings media (refresh_registered_count (refreshed c)))

  -- The account that `addAccount` passes on.
  unfoldable pub account_to_add : Params → Bool → Account
  unfolding apply_params get
  account_to_add params first_account =
      let wants_default = to_bool truth (value (codes "isDefault") params) in
      default_auth_user qt truth (record (apply_params qt truth new_account params) {
        is_default =
            if contains qt truth (codes "isDefault") params
            then wants_default && first_account
            else first_account;
        enabled =
            if contains qt truth (codes "enabled") params
            then to_bool truth (value (codes "enabled") params)
            else true;
      })

  unfoldable pub add_account :
      Text → Params → AccountsController B K D → ℤ × AccountsController B K D
  unfolding account_to_add push_settings Editing.add Editing.set_default Editing.accounts z_eq
  add_account ref params c =
      let wants_default = to_bool truth (value (codes "isDefault") params) in
      let a = account_to_add params (no_accounts (Editing.accounts c.book)) in
      let password = to_string qt (value (codes "password") params) in
      let (id, added) = Editing.add sip kc table ref a password c.book in
      let chosen =
        if not (z_eq id invalid_id) && wants_default && not a.is_default
        then (Editing.set_default sip kc table id added).1
        else added in
      (id, push_settings media (refreshed (record c { book = chosen })))

  unfoldable pub remove_account : ℤ → AccountsController B K D → Bool × AccountsController B K D
  unfolding changed Editing.remove
  remove_account id c =
      let (ok, book) = Editing.remove sip kc table id c.book in
      let c' = record c { book = book } in if ok then (true, changed c') else (false, c')

  -- `updateAccount` once the account has been updated.
  unfoldable pub book_updated : ℤ → Params → AccountBook B K D → AccountBook B K D
  unfolding Editing.set_default Editing.set_password
  book_updated id params b =
      let password = to_string qt (value (codes "password") params) in
      let b1 =
        if to_bool truth (value (codes "isDefault") params)
        then (Editing.set_default sip kc table id b).1
        else b in
      if is_empty password then b1 else (Editing.set_password sip kc table id password b1).1

  unfoldable pub update_account :
      ℤ → Params → AccountsController B K D → Bool × AccountsController B K D
  unfolding changed book_updated apply_params Editing.update Editing.find
  update_account id params c = elim (Editing.find id c.book) [
    | none ↦ (false, c)
    | some current ↦
        let edited = default_auth_user qt truth (apply_params qt truth current params) in
        let (ok, book) = Editing.update sip kc table edited c.book in
        if ok
        then (true, changed (record c { book = book_updated id params book }))
        else (false, record c { book = book })
  ]

  unfoldable pub set_default_account :
      ℤ → AccountsController B K D → Bool × AccountsController B K D
  unfolding push_settings Editing.set_default
  set_default_account id c =
      let (ok, book) = Editing.set_default sip kc table id c.book in
      let c' = record c { book = book } in
      if ok
      then (true, notify Notice.active_account_changed (push_settings media (refreshed c')))
      else (false, c')

  unfoldable pub set_account_enabled :
      ℤ → Bool → AccountsController B K D → Bool × AccountsController B K D
  unfolding changed Editing.set_enabled
  set_account_enabled id on c =
      let (ok, book) = Editing.set_enabled sip kc table id on c.book in
      let c' = record c { book = book } in if ok then (true, changed c') else (false, c')
