-- ===== src/AccountsController/History.antt =====
-- The histories of src/core/AccountsController.cpp: the user's operations, the registration events that
-- src/core/AccountsManager.cpp handles, and the slots that they queue.
use compact_phone.Base.{
  ◌≤◌, ℤ, ◌≡◌, refl, sym, subst, Bool, true, false, not, ◌&&◌, List, [], ◌∷◌, if◌then◌else◌, z_eq,
  invalid_id, arith, inl, inr, Option-cases,
}
use compact_phone.Base.Dict.{insert}
use compact_phone.Base.Text.{Text, codes, is_empty}
use compact_phone.Boot.{Qt, Params, value, to_string}
use compact_phone.Backend.{SipBackend}
use compact_phone.Accounts.{RegistrationState}
use compact_phone.Accounts.Registration.{on_reg_state}
use compact_phone.Accounts.Table.{Table, IsTable}
use compact_phone.Accounts.Editing
use compact_phone.Accounts.Editing.{AccountBook, Keychain}
use compact_phone.Accounts.Defaults.{default_count}
use compact_phone.AccountsController.{AccountsController, MediaSettings, Notice, notify, to_bool}
use compact_phone.AccountsController.Params.{apply_params, default_auth_user}
use compact_phone.AccountsController.Settings.{push_settings}
use compact_phone.AccountsController.Status.{on_registration_state_changed, set_active_account_id}
use compact_phone.AccountsController.Actions
use compact_phone.AccountsController.Actions.{no_accounts, changed, account_to_add, book_updated}
use compact_phone.Accounts.Restart
use compact_phone.Accounts.Restart.{IsAccountsTable, load-IsKept, edit-IsKept}
use compact_phone.Accounts.Tied.{IsTied}
use compact_phone.AccountsController.Actions.{created}
use compact_phone.AccountsController.Defaults.{
  IsGood, refresh-book, changed-IsGood, set_default-IsGood, update-IsGood, set_enabled-IsGood,
  set_password-IsGood, remove-IsGood, add-IsGood,
}

-- What the user does, the events of the backend, and the slot on the manager's signal. The slot is queued
-- and runs later, so it may run here at any time, for any account and state.
pub data Act : Type 0 where
  add_account : Text → Params → Act
  remove_account : ℤ → Act
  update_account : ℤ → Params → Act
  set_default_account : ℤ → Act
  set_account_enabled : ℤ → Bool → Act
  set_active_account : ℤ → Act
  registration_event : ℤ → Bool → ℤ → Text → Act
  registration_state_changed : ℤ → RegistrationState → Act

module _ {B K D : Type 0} (sip : SipBackend B) (kc : Keychain K) (table : Table D)
    (media : MediaSettings B) (qt : Qt) (truth : Text → Bool) where
  unfoldable pub act : Act → AccountsController B K D → AccountsController B K D
  unfolding Actions.add_account Restart.edit
  act (Act.add_account ref params) c =
      (Actions.add_account sip kc table media qt truth ref params c).1
  act (Act.remove_account id) c = (Actions.remove_account sip kc table media qt truth id c).1
  act (Act.update_account id params) c =
      (Actions.update_account sip kc table media qt truth id params c).1
  act (Act.set_default_account id) c =
      (Actions.set_default_account sip kc table media qt truth id c).1
  act (Act.set_account_enabled id on) c =
      (Actions.set_account_enabled sip kc table media qt truth id on c).1
  act (Act.set_active_account id) c = set_active_account_id id c
  act (Act.registration_event backend_id active code reason) c = record c {
    book =
        Restart.edit sip kc table (Restart.Edit.registration_event backend_id active code reason)
          c.book;
  }
  act (Act.registration_state_changed id s) c = on_registration_state_changed id s c

  unfoldable pub acts : List Act → AccountsController B K D → AccountsController B K D
  unfolding act
  acts [] c = c
  acts (a ∷ rest) c = acts rest (act a c)

  module _ (laws : IsTable table) where
    abbrev Good : AccountsController B K D → Type 0
    Good c = IsGood sip kc table media qt truth c.book

    -- The manager after `addAccount`, before the backend is told.
    add_account-IsGood :
        (ref : Text) (params : Params) (c : AccountsController B K D)
        → Good c
        → Good (Actions.add_account sip kc table media qt truth ref params c).1
    unfolding Actions.add_account
    add_account-IsGood ref params c h =
        let a =
          account_to_add sip kc table media qt truth params
            (no_accounts (Editing.accounts c.book)) in
        let password = to_string qt (value (codes "password") params) in
        let added = Editing.add sip kc table ref a password c.book in
        let wants = to_bool truth (value (codes "isDefault") params) in
        chosen (not (z_eq added.0 invalid_id) && wants && not a.is_default) added.0 added.1
          (add-IsGood sip kc table media qt truth laws ref params c.book h)
      where
        chosen :
            (b : Bool) (id : ℤ) (book : AccountBook B K D)
            → IsGood sip kc table media qt truth book
            → IsGood sip kc table media qt truth
                (if b then (Editing.set_default sip kc table id book).1 else book)
        chosen true id book g = set_default-IsGood sip kc table media qt truth laws id book g
        chosen false id book g = g

    book_updated-IsGood :
        (id : ℤ) (params : Params) (b : AccountBook B K D)
        → IsGood sip kc table media qt truth b
        → IsGood sip kc table media qt truth (book_updated sip kc table media qt truth id params b)
    unfolding book_updated
    book_updated-IsGood id params b h =
        let wants = to_bool truth (value (codes "isDefault") params) in
        let password = to_string qt (value (codes "password") params) in
        renewed (is_empty password) password
          (if wants then (Editing.set_default sip kc table id b).1 else b) (chosen wants)
      where
        chosen :
            (w : Bool)
            → IsGood sip kc table media qt truth
                (if w then (Editing.set_default sip kc table id b).1 else b)
        chosen true = set_default-IsGood sip kc table media qt truth laws id b h
        chosen false = h

        renewed :
            (e : Bool) (password : Text) (book : AccountBook B K D)
            → IsGood sip kc table media qt truth book
            → IsGood sip kc table media qt truth
                (if e then book else (Editing.set_password sip kc table id password book).1)
        renewed true password book g = g
        renewed false password book g =
            set_password-IsGood sip kc table media qt truth laws id password book g

    -- A change that is settled, or refused.
    settled-IsGood :
        (ok : Bool) (c c' : AccountsController B K D)
        → Good c'
        → Good c
        → Good (if◌then◌else◌ {A = Bool × AccountsController B K D} ok (true, c') (false, c)).1
    settled-IsGood true c c' h' h = h'
    settled-IsGood false c c' h' h = h

    update_account-IsGood :
        (id : ℤ) (params : Params) (c : AccountsController B K D)
        → Good c
        → Good (Actions.update_account sip kc table media qt truth id params c).1
    unfolding Actions.update_account
    update_account-IsGood id params c h = elim (Option-cases (Editing.find id c.book)) [
      | inl gone ↦ rw (gone, Actions.update_account) h
      | inr (current, found) ↦
          let edited = default_auth_user qt truth (apply_params qt truth current params) in
          let updated = Editing.update sip kc table edited c.book in
          let good = update-IsGood sip kc table media qt truth laws edited c.book h in
          let c' = record c {
            book = book_updated sip kc table media qt truth id params updated.1;
          } in
          rw (found, Actions.update_account)
            (settled-IsGood updated.0 (record c { book = updated.1 })
              (changed sip kc table media qt truth c')
              (changed-IsGood sip kc table media qt truth c'
                (book_updated-IsGood id params updated.1 good))
              good)
    ]

    registration_state_changed-book :
        (id : ℤ) (s : RegistrationState) (c : AccountsController B K D)
        → (on_registration_state_changed id s c).book ≡ c.book
    unfolding on_registration_state_changed
    registration_state_changed-book id s c =
        let c' =
          notify (Notice.registration_changed id)
            (record c { last_state = insert id s c.last_state }) in
        ground (arith, refresh-book sip kc table media qt truth c')

    on_reg_state-defaults :
        (backend_id : ℤ) (active : Bool) (code : ℤ) (reason : Text) (b : AccountBook B K D)
        → default_count sip kc table b ≤ 1
        → default_count sip kc table (
            Restart.edit sip kc table
              (Restart.Edit.registration_event backend_id active code reason)
              b)
          ≤ 1
    unfolding Restart.edit on_reg_state
    on_reg_state-defaults backend_id active code reason b h = ground arith

    set_active_account_id-book :
        (id : ℤ) (c : AccountsController B K D) → (set_active_account_id id c).book ≡ c.book
    unfolding set_active_account_id
    set_active_account_id-book id c = ground arith

    act-IsGood : (a : Act) (c : AccountsController B K D) → Good c → Good (act a c)
    unfolding act Actions.remove_account Actions.set_default_account Actions.set_account_enabled
        push_settings
    act-IsGood (Act.add_account ref params) c h = add_account-IsGood ref params c h
    act-IsGood (Act.remove_account id) c h =
        let r = Editing.remove sip kc table id c.book in
        let good = remove-IsGood sip kc table media qt truth laws id c.book h in
        let c' = record c { book = r.1 } in
        settled-IsGood r.0 c' (changed sip kc table media qt truth c')
          (changed-IsGood sip kc table media qt truth c' good) good
    act-IsGood (Act.update_account id params) c h = update_account-IsGood id params c h
    act-IsGood (Act.set_default_account id) c h =
        let r = Editing.set_default sip kc table id c.book in
        let good = set_default-IsGood sip kc table media qt truth laws id c.book h in
        let c' = record c { book = r.1 } in
        settled-IsGood r.0 c'
          (notify Notice.active_account_changed
            (push_settings media (notify Notice.model_refreshed c')))
          (good) good
    act-IsGood (Act.set_account_enabled id on) c h =
        let r = Editing.set_enabled sip kc table id on c.book in
        let good = set_enabled-IsGood sip kc table media qt truth laws id on c.book h in
        let c' = record c { book = r.1 } in
        settled-IsGood r.0 c' (changed sip kc table media qt truth c')
          (changed-IsGood sip kc table media qt truth c' good) good
    act-IsGood (Act.set_active_account id) c h =
        subst (IsGood sip kc table media qt truth) (sym (set_active_account_id-book id c)) h
    act-IsGood (Act.registration_event backend_id active code reason) c h =
        let e = Restart.Edit.registration_event backend_id active code reason in
        (
          (λ k. edit-IsKept sip kc table false laws e c.book refl h.0 k),
          on_reg_state-defaults backend_id active code reason c.book h.1,
        )
    act-IsGood (Act.registration_state_changed id s) c h =
        subst (IsGood sip kc table media qt truth) (sym (registration_state_changed-book id s c)) h

    acts-IsGood : (rest : List Act) (c : AccountsController B K D) → Good c → Good (acts rest c)
    unfolding acts
    acts-IsGood [] c h = h
    acts-IsGood (a ∷ rest) c h = acts-IsGood rest (act a c) (act-IsGood a c h)

    -- A controller over a manager that is loaded from a table with distinct ids and at most one
    -- default account, the table obeying its laws: after any sequence of the user's operations, any
    -- of which may fail, of registration events that the manager handles, and of runs of the slot
    -- on its signal, at most one account is the default
    -- one, and each id has at most one entry, which is registered exactly if the manager holds
    -- an id of the backend for it.
    pub acts-default_count :
        (backend : B) (secrets : K) (database : D)
        → IsAccountsTable (table.rows database)
        → default_count sip kc table
            (Editing.load sip kc table (Restart.started sip kc table backend secrets database))
          ≤ 1
        → (rest : List Act)
        → let loaded =
            Editing.load sip kc table (Restart.started sip kc table backend secrets database) in
          let book = (acts rest (created sip kc table media qt truth loaded)).book in
          (default_count sip kc table book ≤ 1) × ((k : ℤ) → IsTied k book.manager)
    unfolding created push_settings
    acts-default_count backend secrets database h one rest =
        let loaded =
          Editing.load sip kc table (Restart.started sip kc table backend secrets database) in
        let fresh : AccountsController B K D = record {
          book = loaded;
          registered_count = 0;
          active_id = invalid_id;
          last_state = [];
          notices = [];
        } in
        let start : Good (created sip kc table media qt truth loaded) =
          subst (IsGood sip kc table media qt truth)
            (sym (refresh-book sip kc table media qt truth fresh))
            ((λ k. load-IsKept sip kc table false backend secrets database h k), one) in
        let end = acts-IsGood rest (created sip kc table media qt truth loaded) start in
        (end.1, (λ k. (end.0 k).0))
