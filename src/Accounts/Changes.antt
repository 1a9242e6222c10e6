-- ===== src/Accounts/Changes.antt =====
-- What `update`, `setDefault`, `setEnabled` and `setPassword` of src/core/AccountsManager.cpp keep.
use compact_phone.Base.{
  ◌≤◌, ℤ, ◌≡◌, ap, ◌∙◌, sym, Bool, true, false, ◌&&◌, ◌||◌, Option, arith, if◌then◌else◌, z_eq,
  z_eq_iff, ◌⊎◌, inl, inr, Bool-cases, Option-cases,
}
use compact_phone.Base.Dict.{is_some, map_option}
use compact_phone.Account.{Account}
use compact_phone.Backend.{SipBackend}
use compact_phone.Accounts.{find_entry}
use compact_phone.Accounts.Table.{
  Table, IsTable, Row, row_at, row_of, overwritten, write_default, commit_fails,
}
use compact_phone.Accounts.Editing
use compact_phone.Accounts.Editing.{
  AccountBook, Keychain, account_at, edited, edit_entry, cache_password, make_default,
}
use compact_phone.Accounts.Tied.{count, IsTied, unregister_account-IsTied}
use compact_phone.Accounts.Entries
use compact_phone.Accounts.Rows.{
  written_row, overwritten_row, redefaulted_row, write_default-rows, redefaulted,
  redefaulted-unseen,
}
use compact_phone.Accounts.Kept.{IsKept, shown, has_flag, account_of_row, register-IsKept}

module _ {B K D : Type 0} (sip : SipBackend B) (kc : Keychain K) (table : Table D) (s : Bool)
    (k : ℤ) where
  abbrev pub at : AccountBook B K D → Option Account
  at b = account_at k b.manager.entries

  -- The row says what `expected` says.
  abbrev pub Reads : AccountBook B K D → Option Account → Type 0
  Reads b expected =
      (account_of_row s (row_at k (table.rows b.database)) ≡ map_option (shown s) expected)
      × (has_flag (row_at k (table.rows b.database)) ≡ true)

  abbrev pub rewrite_entry : ℤ → (Account → Account) → AccountBook B K D → AccountBook B K D
  rewrite_entry id f b = record b {
    manager = record b.manager { entries = edit_entry id f b.manager.entries };
  }

  pub rewrite_entry-IsKept :
      (id : ℤ) (f : Account → Account) (b : AccountBook B K D)
      → ((a : Account) → z_eq a.id id ≡ true → (f a).id ≡ a.id)
      → IsTied k b.manager
      → Reads b (if z_eq id k then map_option f (at b) else at b)
      → IsKept table s k (rewrite_entry id f b)
  rewrite_entry-IsKept id f b keeps tied reads =
      let es = b.manager.entries in
      (
        (
          ground (arith, Entries.count-edit_entry k id f keeps es),
          Entries.has_registered-edit_entry k id f keeps es ∙ tied.1,
        ),
        (
          reads.0 ∙ ap (map_option (shown s)) (sym (Entries.account_at-edit_entry k id f keeps es)),
          reads.1,
        ),
      )

  unregister-Reads :
      (id : ℤ) (b : AccountBook B K D) (f : Option Account → Option Account)
      → Reads b (f (at b))
      → Reads (Editing.unregister sip kc table id b) (f (at (Editing.unregister sip kc table id b)))
  unfolding Editing.unregister
  unregister-Reads id b f reads = (
    reads.0
        ∙ ap (λ o. map_option (shown s) (f o))
            (sym (
              Entries.account_at-unregister_account sip (λ key. kc.get key b.secrets) k id
                b.manager)),
    reads.1,
  )

  unregister-IsTied :
      (id : ℤ) (b : AccountBook B K D)
      → count id b.manager.entries ≤ 1
      → IsTied k b.manager
      → IsTied k (Editing.unregister sip kc table id b).manager
  unfolding Editing.unregister
  unregister-IsTied id b single tied =
      unregister_account-IsTied sip (λ key. kc.get key b.secrets) k id b.manager single tied

  pub register_if-IsKept :
      (c : Bool) (id : ℤ) (b : AccountBook B K D)
      → IsKept table s k b
      → IsKept table s k (if c then Editing.register sip kc table id b else b)
  register_if-IsKept true id b h = register-IsKept sip kc table s k id b h
  register_if-IsKept false id b h = h

  update_entry-IsKept :
      (acc : Account) (live : Bool) (b : AccountBook B K D)
      → count acc.id b.manager.entries ≤ 1
      → IsTied k b.manager
      → Reads b (if z_eq acc.id k then map_option (edited acc) (at b) else at b)
      → IsKept table s k (Editing.update_entry sip kc table acc live b)
  unfolding Editing.update_entry
  update_entry-IsKept acc true b single tied reads =
      register_if-IsKept (acc.enabled && (true || acc.register_on_startup)) acc.id
        (rewrite_entry acc.id (edited acc) (Editing.unregister sip kc table acc.id b))
        (rewrite_entry-IsKept acc.id (edited acc) (Editing.unregister sip kc table acc.id b)
          (λ a e. sym ((z_eq_iff a.id acc.id).0 e)) (unregister-IsTied acc.id b single tied)
          (unregister-Reads acc.id b (λ o. if z_eq acc.id k then map_option (edited acc) o else o)
            reads))
  update_entry-IsKept acc false b single tied reads =
      register_if-IsKept (acc.enabled && (false || acc.register_on_startup)) acc.id
        (rewrite_entry acc.id (edited acc) b)
        (rewrite_entry-IsKept acc.id (edited acc) b (λ a e. sym ((z_eq_iff a.id acc.id).0 e)) tied
          reads)

  pub update-IsKept :
      (laws : IsTable table) (acc : Account) (b : AccountBook B K D)
      → ((j : ℤ) → IsKept table s j b)
      → IsKept table s k (Editing.update sip kc table acc b).1
  unfolding Editing.update row_of
  update-IsKept laws acc b h =
      let db = b.database in
      let row = row_of acc in
      let o = row_at k (table.rows db) in
      elim (Option-cases (find_entry acc.id b.manager.entries)) [
        | inl gone ↦ rw (gone, Editing.update) (h k)
        | inr (e, found) ↦ elim (Bool-cases (table.update_row row db).0) [
          | inl ok ↦
              let law =
                laws.updated row db k
                ∙ ap (λ c. if c && z_eq acc.id k then map_option (overwritten row) o else o) ok in
              let reads =
                written_row s (overwritten row) (edited acc) o (at b) (z_eq acc.id k) (h k).1.0
                  (h k).1.1 (overwritten_row s acc) in
              rw (found, ok, Editing.update)
                (update_entry-IsKept acc e.registered
                  (record b { database = (table.update_row row db).1 }) (h acc.id).0.0 (h k).0
                  (ap (account_of_row s) law ∙ reads.0, ap has_flag law ∙ reads.1))
          | inr ok ↦
              let law =
                laws.updated row db k
                ∙ ap (λ c. if c && z_eq acc.id k then map_option (overwritten row) o else o) ok in
              rw (found, ok, Editing.update)
                ((h k).0, (ap (account_of_row s) law ∙ (h k).1.0, ap has_flag law ∙ (h k).1.1))
        ]
      ]

  -- The rows after a transaction that fails; a lost `COMMIT` matters only to the default flag.
  undefaulted :
      (id : ℤ) (o o' : Option Row) (a : Option Account) (lost : Bool)
      → (o' ≡ o) ⊎ ((lost ≡ true) × (o' ≡ map_option (redefaulted id) o))
      → s && lost ≡ false
      → account_of_row s o ≡ map_option (shown s) a
      → has_flag o ≡ true
      → (account_of_row s o' ≡ map_option (shown s) a) × (has_flag o' ≡ true)
  undefaulted id o o' a lost (inl e) kept h flagged =
      (ap (account_of_row s) e ∙ h, ap has_flag e ∙ flagged)
  undefaulted id o o' a lost (inr (l, e)) kept h flagged =
      unseen s h (sym (ap (λ b. s && b) l) ∙ kept)
    where
      unseen :
          (seen : Bool)
          → account_of_row seen o ≡ map_option (shown seen) a
          → seen && true ≡ false
          → (account_of_row seen o' ≡ map_option (shown seen) a) × (has_flag o' ≡ true)
      unseen true h n = ground arith
      unseen false h n =
          let both = redefaulted-unseen id o flagged in
          (ap (account_of_row false) e ∙ both.0 ∙ h, ap has_flag e ∙ both.1)

  pub set_default-IsKept :
      (laws : IsTable table) (id : ℤ) (b : AccountBook B K D)
      → s && (is_some (find_entry id b.manager.entries) && commit_fails table id b.database) ≡ false
      → ((j : ℤ) → IsKept table s j b)
      → IsKept table s k (Editing.set_default sip kc table id b).1
  unfolding Editing.set_default
  set_default-IsKept laws id b kept h =
      let db = b.database in
      let es = b.manager.entries in
      let o = row_at k (table.rows db) in
      let law = write_default-rows table laws id db k in
      elim (Option-cases (find_entry id es)) [
        | inl gone ↦ rw (gone, Editing.set_default) (h k)
        | inr (e, found) ↦ elim (Bool-cases (write_default table id db).0) [
          | inl ok ↦
              let reads =
                written_row s (redefaulted id) (λ a. record a { is_default = z_eq a.id id }) o
                  (at b) true (h k).1.0 (h k).1.1 (redefaulted_row s id) in
              rw (found, ok, Editing.set_default)
                (
                  (
                    ground (arith, Entries.count-make_default k id es, h k),
                    Entries.has_registered-make_default k id es ∙ (h k).0.1,
                  ),
                  (
                    ap (account_of_row s) (law.0 ok)
                        ∙ reads.0
                        ∙ ap (map_option (shown s)) (sym (Entries.account_at-make_default k id es)),
                    ap has_flag (law.0 ok) ∙ reads.1,
                  ),
                )
          | inr ok ↦
              rw (found, ok, Editing.set_default)
                (
                  (h k).0,
                  undefaulted id o (row_at k (table.rows (write_default table id db).1)) (at b)
                      (commit_fails table id db) (law.1 ok)
                      (sym (ap (λ f. s && (is_some f && commit_fails table id db)) found) ∙ kept)
                      (h k).1.0 (h k).1.1,
                )
        ]
      ]
