-- ===== src/AccountsController/Status.antt =====
-- src/core/AccountsController.cpp: registration, and the account that is active.
use compact_phone.Base.{
  ℕ, ◌+◌, ℤ, pos, Bool, true, false, not, ◌&&◌, Option, none, some, List, [], ◌∷◌, if◌then◌else◌,
  z_eq, ltb_ℤ, invalid_id, ◌==◌,
}
use compact_phone.Base.Dict.{lookup, insert}
use compact_phone.Base.Text.{Text, is_empty}
use compact_phone.Boot.{Params}
use compact_phone.Account.{Account}
use compact_phone.Accounts.{
  AccountsManager, RegistrationState, RegError, state_of, last_reg_error_of,
}
use compact_phone.Accounts.Editing
use compact_phone.Accounts.Editing.{AccountBook, Keychain}
use compact_phone.AccountsController.{AccountsController, Notice, Detail, notify}
use compact_phone.AccountsController.Params.{snapshot}

abbrev pub is_registered : RegistrationState → Bool
is_registered RegistrationState.registered = true
is_registered s = false

abbrev pub is_failed : RegistrationState → Bool
is_failed RegistrationState.failed = true
is_failed s = false

abbrev was_failed : Option RegistrationState → Bool
was_failed none = false
was_failed (some s) = is_failed s

abbrev label_of : Option Account → Text
label_of none = []
label_of (some a) = if is_empty a.label then a.display_name else a.label

abbrev detail_of : RegError → Detail
detail_of e =
    if ltb_ℤ (pos 0) e.code && not (is_empty e.reason)
    then Detail.code_and_reason e.code e.reason
    else if ltb_ℤ (pos 0) e.code
    then Detail.code e.code
    else if not (is_empty e.reason)
    then Detail.reason e.reason
    else Detail.transport_error

-- The three loops of `activeAccountId`, each of which returns what it finds.
abbrev pub first_of : Option ℤ → Option ℤ → Option ℤ → ℤ
first_of (some id) default first = id
first_of none (some id) first = id
first_of none none (some id) = id
first_of none none none = invalid_id

module _ {B : Type 0} where
  unfoldable pub count_registered : AccountsManager B → List Account → ℕ
  unfolding state_of
  count_registered m [] = 0
  count_registered m (a ∷ rest) =
      (if is_registered (state_of a.id m) then 1 else 0) + count_registered m rest

  -- Enabled, and registered.
  abbrev pub is_up : AccountsManager B → Account → Bool
  is_up m a = a.enabled && is_registered (state_of a.id m)

  unfoldable pub first_up : (Account → Bool) → AccountsManager B → List Account → Option ℤ
  unfolding state_of
  first_up test m [] = none
  first_up test m (a ∷ rest) = if test a && is_up m a then some a.id else first_up test m rest

module _ {B K D : Type 0} where
  unfoldable pub refresh_registered_count : AccountsController B K D → AccountsController B K D
  unfolding count_registered Editing.accounts
  refresh_registered_count c =
      let n = count_registered c.book.manager (Editing.accounts c.book) in
      if n == c.registered_count
      then c
      else notify Notice.registered_count_changed (record c { registered_count = n })

  -- The chosen account, or else the default one, or else the first: the first of these that is up.
  unfoldable pub active_account_id : AccountsController B K D → ℤ
  unfolding first_up Editing.accounts
  active_account_id c =
      let accounts = Editing.accounts c.book in
      let m = c.book.manager in
      let chosen =
        if ltb_ℤ (pos 0) c.active_id
        then first_up (λ a. z_eq a.id c.active_id) m accounts
        else none in
      first_of chosen (first_up (λ a. a.is_default) m accounts) (first_up (λ a. true) m accounts)

  unfoldable pub set_active_account_id : ℤ → AccountsController B K D → AccountsController B K D
  unfolding z_eq
  set_active_account_id id c =
      if z_eq c.active_id id
      then c
      else notify Notice.active_account_changed (record c { active_id = id })

  -- The slot on `registrationStateChanged`, as it runs from the queue.
  unfoldable pub on_registration_state_changed :
      ℤ → RegistrationState → AccountsController B K D → AccountsController B K D
  unfolding refresh_registered_count last_reg_error_of Editing.find
  on_registration_state_changed id s c =
      let is_new_failure = is_failed s && not (was_failed (lookup id c.last_state)) in
      let told = notify Notice.active_account_changed (
        refresh_registered_count (
          notify (Notice.registration_changed id)
            (record c { last_state = insert id s c.last_state }))) in
      if is_new_failure
      then notify
          (Notice.registration_failed (label_of (Editing.find id told.book))
            (detail_of (last_reg_error_of id told.book.manager)))
          told
      else told

  -- `accountSnapshot`: empty for an account that is not there.
  unfoldable pub account_snapshot : ℤ → AccountsController B K D → Params
  unfolding snapshot Editing.find
  account_snapshot id c = elim (Editing.find id c.book) [ none ↦ [] | some a ↦ snapshot a ]
