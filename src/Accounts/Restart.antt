-- ===== src/Accounts/Restart.antt =====
-- A history of src/core/AccountsManager.cpp from the accounts that it loads at start.
use compact_phone.Base.{
  ℕ, ◌+◌, ◌≤◌, ℤ, ◌≡◌, refl, ap, ◌∙◌, sym, Bool, true, false, Option, none, some, List, [], ◌∷◌,
  map, ◌&&◌, ◌||◌, arith, if◌then◌else◌, z_eq,
}
use compact_phone.Base.Dict.{is_some, map_option, lookup}
use compact_phone.Base.Text.{Text}
use compact_phone.Account.{Account}
use compact_phone.Backend.{SipBackend}
use compact_phone.Accounts.{Entry, find_entry}
use compact_phone.Accounts.Registration.{
  has_registered, register_all, register_startup_accounts, reregister, reregister_all_enabled,
  on_reg_state, startup_ids,
}
use compact_phone.Accounts.Table.{Table, IsTable, Row, row_at, account_of, is_set, commit_fails}
use compact_phone.Accounts.RoundTrip.{read_back, read_back-account_of}
use compact_phone.Accounts.Editing
use compact_phone.Accounts.Editing.{AccountBook, Keychain, account_at, new_entry}
use compact_phone.Accounts.Tied.{count}
use compact_phone.Accounts.Kept.{
  IsKept, shown, has_flag, account_of_row, register-IsKept, unregister-IsKept,
}
use compact_phone.Accounts.Edits.{add-IsKept, remove-IsKept}
use compact_phone.Accounts.Changes.{update-IsKept, set_default-IsKept}
use compact_phone.Accounts.Switches.{set_enabled-IsKept, set_password-IsKept}

-- A call of the manager. `add` is given the fresh reference under which it keeps the password.
pub data Edit : Type 0 where
  add : Text → Account → Text → Edit
  remove : ℤ → Edit
  update : Account → Edit
  set_default : ℤ → Edit
  set_enabled : ℤ → Bool → Edit
  set_password : ℤ → Text → Edit
  register : ℤ → Edit
  unregister : ℤ → Edit
  register_startup : Edit
  reregister_enabled : Edit
  registration_event : ℤ → Bool → ℤ → Text → Edit

abbrev row_count : ℤ → List Row → ℕ
row_count k [] = 0
row_count k (r ∷ rs) = (if z_eq r.id k then 1 else 0) + row_count k rs

-- The table as the schema has it: an id is of one row, and the default flag is 0 or 1.
abbrev pub IsAccountsTable : List Row → Type 0
IsAccountsTable rs = (k : ℤ) → (row_count k rs ≤ 1) × (has_flag (row_at k rs) ≡ true)

abbrev loaded : List Row → List Entry
loaded rs = map (λ r. new_entry (account_of r)) rs

account_at-loaded :
    (k : ℤ) (rs : List Row) → account_at k (loaded rs) ≡ account_of_row true (row_at k rs)
unfolding account_at account_of row_at
account_at-loaded k [] = refl
account_at-loaded k (r ∷ rs) = ground (arith, account_at-loaded k rs)

count-loaded : (k : ℤ) (rs : List Row) → count k (loaded rs) ≡ row_count k rs
unfolding account_of
count-loaded k [] = refl
count-loaded k (r ∷ rs) = ground (arith, count-loaded k rs)

has_registered-loaded : (k : ℤ) (rs : List Row) → has_registered k (loaded rs) ≡ false
unfolding has_registered
has_registered-loaded k [] = refl
has_registered-loaded k (r ∷ rs) = ground (arith, has_registered-loaded k rs)

shown-account_of :
    (s : Bool) (o : Option Row) → map_option (shown s) (account_of_row true o) ≡ account_of_row s o
shown-account_of s none = refl
shown-account_of s (some r) =
    ap {A = Account} (λ a. some (record a { is_default = s && is_set r.is_default }))
      (read_back-account_of r)

module _ {B K D : Type 0} (sip : SipBackend B) (kc : Keychain K) (table : Table D) where
  unfoldable pub edit : Edit → AccountBook B K D → AccountBook B K D
  unfolding Editing.add Editing.remove Editing.update register_startup_accounts
      reregister_all_enabled on_reg_state
  edit (add ref acc password) b = (Editing.add sip kc table ref acc password b).1
  edit (remove id) b = (Editing.remove sip kc table id b).1
  edit (update acc) b = (Editing.update sip kc table acc b).1
  edit (set_default id) b = (Editing.set_default sip kc table id b).1
  edit (set_enabled id on) b = (Editing.set_enabled sip kc table id on b).1
  edit (set_password id password) b = (Editing.set_password sip kc table id password b).1
  edit (register id) b = Editing.register sip kc table id b
  edit (unregister id) b = Editing.unregister sip kc table id b
  edit register_startup b = record b {
    manager = register_startup_accounts sip (λ key. kc.get key b.secrets) b.manager;
  }
  edit reregister_enabled b = record b {
    manager = reregister_all_enabled sip (λ key. kc.get key b.secrets) b.manager;
  }
  edit (registration_event backend_id active code reason) b = record b {
    manager =
        on_reg_state sip (λ key. kc.get key b.secrets) backend_id active code reason b.manager;
  }

  unfoldable pub edits : List Edit → AccountBook B K D → AccountBook B K D
  unfolding edit
  edits [] b = b
  edits (e ∷ es) b = edits es (edit e b)

  -- A manager as it is made: nothing loaded, nothing registered.
  abbrev pub started : B → K → D → AccountBook B K D
  started backend secrets database = record {
    manager = record {
      entries = [];
      backend_ids = [];
      reg_states = [];
      reg_errors = [];
      mwi = [];
      password_cache = [];
      backend = backend;
      signals = [];
    };
    secrets = secrets;
    database = database;
  }

  -- A call of `setDefault` that gets to a `COMMIT` which fails.
  unfoldable pub loses_commit : Edit → AccountBook B K D → Bool
  unfolding find_entry
  loses_commit (set_default id) b =
      is_some (find_entry id b.manager.entries) && commit_fails table id b.database
  loses_commit _ b = false

  unfoldable pub any_loses_commit : List Edit → AccountBook B K D → Bool
  unfolding loses_commit edit
  any_loses_commit [] b = false
  any_loses_commit (e ∷ es) b = loses_commit e b || any_loses_commit es (edit e b)

  module _ (s : Bool) where
    register_all-IsKept :
        (ids : List ℤ) (b : AccountBook B K D)
        → ((j : ℤ) → IsKept table s j b)
        → (k : ℤ)
        → IsKept table s k
            (record b { manager = register_all sip (λ key. kc.get key b.secrets) ids b.manager })
    unfolding register_all Editing.register
    register_all-IsKept [] b h k = h k
    register_all-IsKept (id ∷ ids) b h k =
        register_all-IsKept ids (Editing.register sip kc table id b)
          (λ j. register-IsKept sip kc table s j id b (h j)) k

    reregister-IsKept :
        (ids : List ℤ) (b : AccountBook B K D)
        → ((j : ℤ) → IsKept table s j b)
        → (k : ℤ)
        → IsKept table s k
            (record b { manager = reregister sip (λ key. kc.get key b.secrets) ids b.manager })
    unfolding reregister Editing.register Editing.unregister
    reregister-IsKept [] b h k = h k
    reregister-IsKept (id ∷ ids) b h k =
        let down = Editing.unregister sip kc table id b in
        reregister-IsKept ids (Editing.register sip kc table id down)
          (λ j.
            register-IsKept sip kc table s j id down
              (unregister-IsKept sip kc table s j id b (h id).0.0 (h j)))
          k

    pub edit-IsKept :
        (laws : IsTable table) (e : Edit) (b : AccountBook B K D)
        → s && loses_commit e b ≡ false
        → ((j : ℤ) → IsKept table s j b)
        → (k : ℤ) → IsKept table s k (edit e b)
    unfolding edit loses_commit register_startup_accounts reregister_all_enabled on_reg_state
    edit-IsKept laws (add ref acc password) b kept h k =
        add-IsKept sip kc table s k laws ref acc password b h
    edit-IsKept laws (remove id) b kept h k = remove-IsKept sip kc table s k laws id b h
    edit-IsKept laws (update acc) b kept h k = update-IsKept sip kc table s k laws acc b h
    edit-IsKept laws (set_default id) b kept h k =
        set_default-IsKept sip kc table s k laws id b kept h
    edit-IsKept laws (set_enabled id on) b kept h k =
        set_enabled-IsKept sip kc table s k laws id on b h
    edit-IsKept laws (set_password id password) b kept h k =
        set_password-IsKept sip kc table s k id password b h
    edit-IsKept laws (register id) b kept h k = register-IsKept sip kc table s k id b (h k)
    edit-IsKept laws (unregister id) b kept h k =
        unregister-IsKept sip kc table s k id b (h id).0.0 (h k)
    edit-IsKept laws register_startup b kept h k =
        register_all-IsKept (startup_ids b.manager.entries) b h k
    edit-IsKept laws reregister_enabled b kept h k =
        reregister-IsKept (startup_ids b.manager.entries) b h k
    edit-IsKept laws (registration_event backend_id active code reason) b kept h k =
        ground (arith, h k)

    edits-IsKept :
        (laws : IsTable table) (es : List Edit) (b : AccountBook B K D)
        → s && any_loses_commit es b ≡ false
        → ((j : ℤ) → IsKept table s j b)
        → (k : ℤ) → IsKept table s k (edits es b)
    unfolding edits any_loses_commit
    edits-IsKept laws [] b kept h k = h k
    edits-IsKept laws (e ∷ es) b kept h k =
        edits-IsKept laws es (edit e b) (ground arith) (edit-IsKept laws e b (ground arith) h) k

    pub load-IsKept :
        (backend : B) (secrets : K) (database : D)
        → IsAccountsTable (table.rows database)
        → (k : ℤ) → IsKept table s k (Editing.load sip kc table (started backend secrets database))
    unfolding Editing.load lookup
    load-IsKept backend secrets database h k =
        let rs = table.rows database in
        (
          (ground (arith, count-loaded k rs, h k), has_registered-loaded k rs),
          (
            sym (shown-account_of s (row_at k rs))
                ∙ ap (map_option (shown s)) (sym (account_at-loaded k rs)),
            (h k).1,
          ),
        )

  -- A manager that starts from a database whose ids are distinct and whose default flags are 0 or
  -- 1, over a table that obeys its laws: after any sequence of add, remove, update, set_default,
  -- set_enabled, set_password, registrations, re-registrations and registration events, any of
  -- which may fail, the COMMIT of set_default included, an id has at most one entry, and the entry
  -- is registered exactly if the manager holds an id of the backend for it.
  pub registered-backend_ids :
      (laws : IsTable table) (backend : B) (secrets : K) (database : D)
      → IsAccountsTable (table.rows database)
      → (es : List Edit) (k : ℤ)
      → let b = edits es (Editing.load sip kc table (started backend secrets database)) in
        (count k b.manager.entries ≤ 1)
        × (has_registered k b.manager.entries ≡ is_some (lookup k b.manager.backend_ids))
  registered-backend_ids laws backend secrets database h es k =
      (edits-IsKept false laws es (Editing.load sip kc table (started backend secrets database))
        refl (load-IsKept false backend secrets database h) k).0

  -- Under the same conditions, after any such sequence in which no set_default gets to a COMMIT that
  -- fails, a manager that is started anew from the database finds under each id the account that
  -- the first one finds, in every field, except that a text ends at its first NUL and that an empty
  -- label is shown as the display name; and it finds none where the first one finds none. Every
  -- other operation may fail, and set_default before its COMMIT.
  pub find-restart :
      (laws : IsTable table) (backend : B) (secrets : K) (database : D)
      → IsAccountsTable (table.rows database)
      → (es : List Edit) (backend' : B) (secrets' : K) (k : ℤ)
      → any_loses_commit es (Editing.load sip kc table (started backend secrets database)) ≡ false
      → let b = edits es (Editing.load sip kc table (started backend secrets database)) in
        Editing.find k (Editing.load sip kc table (started backend' secrets' b.database))
        ≡ map_option read_back (Editing.find k b)
  unfolding Editing.find Editing.load
  find-restart laws backend secrets database h es backend' secrets' k kept =
      let b = edits es (Editing.load sip kc table (started backend secrets database)) in
      account_at-loaded k (table.rows b.database)
      ∙ (edits-IsKept true laws es (Editing.load sip kc table (started backend secrets database))
          kept (load-IsKept true backend secrets database h) k).1.0
