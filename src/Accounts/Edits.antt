-- ===== src/Accounts/Edits.antt =====
-- What `add`, `remove` and `update` of src/core/AccountsManager.cpp keep.
use compact_phone.Base.{
  ◌≤◌, ℤ, ◌≡◌, refl, ap, ◌∙◌, sym, Bool, true, false, ◌&&◌, Option, none, some, [], ◌∷◌, ◌++◌,
  arith, if◌then◌else◌, z_eq, z_eq_iff, z_eq_refl, inl, inr, Bool-cases, Option-cases,
}
use compact_phone.Base.Dict.{is_some, map_option, lookup}
use compact_phone.Base.Text.{Text}
use compact_phone.Account.{Account}
use compact_phone.Backend.{SipBackend}
use compact_phone.Accounts.{find_entry}
use compact_phone.Accounts.Registration.{has_registered, unregister_account}
use compact_phone.Accounts.Table.{Table, IsTable, Row, row_at, row_of, account_of}
use compact_phone.Accounts.RoundTrip.{account_of-row_of}
use compact_phone.Accounts.Editing
use compact_phone.Accounts.Editing.{
  AccountBook, Keychain, account_at, edited, edit_entry, erase_entry, new_entry, cache_password,
  forget_password,
}
use compact_phone.Accounts.Tied.{count, has_registered-mark_unregistered}
use compact_phone.Accounts.Entries
use compact_phone.Accounts.Kept.{
  IsKept, shown, is_flag, has_flag, account_of_row, register-IsKept, unregister-IsKept,
}

has_flag-row_of : (a : Account) → is_flag (row_of a).is_default ≡ true
unfolding row_of z_eq
has_flag-row_of a = elim (Bool-cases a.is_default) [ inl e ↦ ground arith | inr e ↦ ground arith ]

unmapped : (s : Bool) (o : Option Account) → map_option (shown s) o ≡ none → o ≡ none
unmapped s none h = refl
unmapped s (some a) h = ground arith

added_row :
    (s : Bool) (a : Account) (id : ℤ) (o : Option Row) (at : Option Account) (same : Bool)
    → account_of_row s o ≡ map_option (shown s) at
    → (same ≡ true → at ≡ none)
    → account_of_row s (if same then some (row_of (record a { id = id })) else o)
      ≡ map_option
          (shown s)
          (if is_some at then at else if same then some (record a { id = id }) else none)
unfolding z_eq account_of
added_row s a id o none true h fresh =
    ap {A = Account} (λ x. some (record x { is_default = s && x.is_default }))
      (account_of-row_of (record a { id = id }))
added_row s a id o (some x) true h fresh = ground arith
added_row s a id o none false h fresh = h
added_row s a id o (some x) false h fresh = h

flagged_row :
    (a : Account) (id : ℤ) (o : Option Row) (same : Bool)
    → has_flag o ≡ true
    → has_flag (if same then some (row_of (record a { id = id })) else o) ≡ true
flagged_row a id o true h = has_flag-row_of (record a { id = id })
flagged_row a id o false h = h

deleted_row :
    (s : Bool) (o : Option Row) (at : Option Account) (same : Bool)
    → account_of_row s o ≡ map_option (shown s) at
    → has_flag o ≡ true
    → (account_of_row s (if same then none else o)
        ≡ map_option (shown s) (if same then none else at))
      × (has_flag (if same then none else o) ≡ true)
deleted_row s o at true h flagged = (refl, refl)
deleted_row s o at false h flagged = (h, flagged)

module _ {B K D : Type 0} (sip : SipBackend B) (kc : Keychain K) (table : Table D) (s : Bool)
    (k : ℤ) where
  add_entry-IsKept :
      (a : Account) (password : Text) (b : AccountBook B K D)
      → count k b.manager.entries ≤ 1
      → (z_eq a.id k ≡ true → count k b.manager.entries ≡ 0)
      → has_registered k b.manager.entries ≡ is_some (lookup k b.manager.backend_ids)
      → account_of_row s (row_at k (table.rows b.database))
        ≡ map_option (shown s) (
            if is_some (account_at k b.manager.entries)
            then account_at k b.manager.entries
            else if z_eq a.id k
            then some a
            else none)
      → has_flag (row_at k (table.rows b.database)) ≡ true
      → IsKept table s k (Editing.add_entry sip kc table a password b)
  unfolding Editing.add_entry
  add_entry-IsKept a password b single fresh tied rows flagged =
      let added = record b {
        manager = record b.manager {
          entries = b.manager.entries ++ new_entry a ∷ [];
          password_cache = cache_password a.password_ref password b.manager.password_cache;
        };
      } in
      let kept : IsKept table s k added = (
        (
          ground (arith, Entries.count-snoc k a b.manager.entries),
          Entries.has_registered-snoc k a b.manager.entries ∙ tied,
        ),
        (
          rows ∙ ap (map_option (shown s)) (sym (Entries.account_at-snoc k a b.manager.entries)),
          flagged,
        ),
      ) in
      elim (Bool-cases (a.enabled && a.register_on_startup)) [
        | inl e ↦ rw (e, Editing.add_entry) (register-IsKept sip kc table s k a.id added kept)
        | inr e ↦ rw (e, Editing.add_entry) kept
      ]

  pub add-IsKept :
      (laws : IsTable table) (ref : Text) (acc : Account) (password : Text) (b : AccountBook B K D)
      → ((j : ℤ) → IsKept table s j b)
      → IsKept table s k (Editing.add sip kc table ref acc password b).1
  unfolding Editing.add
  add-IsKept laws ref acc password b h =
      let a = record acc { password_ref = ref } in
      let db = b.database in
      elim (Bool-cases (kc.set ref password b.secrets).0) [
        | inr e ↦ rw (e, Editing.add) (h k)
        | inl e ↦ elim (Option-cases (table.insert_row (row_of a) db).0) [
          | inl f ↦
              let same = laws.not_inserted (row_of a) db k f in
              rw (e, f, Editing.add)
                ((h k).0, (ap (account_of_row s) same ∙ (h k).1.0, ap has_flag same ∙ (h k).1.1))
          | inr (id, f) ↦
              let law = laws.inserted (row_of a) db k id f in
              let absent : z_eq id k ≡ true → account_at k b.manager.entries ≡ none = λ q.
                unmapped s (account_at k b.manager.entries) (
                  sym (h k).1.0
                  ∙ ap (account_of_row s)
                      (ap (λ j. row_at j (table.rows db)) (sym ((z_eq_iff id k).0 q)) ∙ law.0)) in
              rw (e, f, Editing.add)
                (add_entry-IsKept (record a { id = id }) password
                  (record b {
                    secrets = (kc.set ref password b.secrets).1;
                    database = (table.insert_row (row_of a) db).1;
                  })
                  (h k).0.0 (λ q. Entries.count-none k b.manager.entries (absent q)) (h k).0.1
                  (ap (account_of_row s) law.1
                    ∙ added_row s a id (row_at k (table.rows db)) (account_at k b.manager.entries)
                        (z_eq id k) (h k).1.0 absent)
                  (ap has_flag law.1
                    ∙ flagged_row a id (row_at k (table.rows db)) (z_eq id k) (h k).1.1))
        ]
      ]

  remove_entry-IsKept :
      (laws : IsTable table) (id : ℤ) (ref : Text) (b : AccountBook B K D)
      → has_registered id b.manager.entries ≡ false
      → ((j : ℤ) → IsKept table s j b)
      → IsKept table s k (Editing.remove_entry sip kc table id ref b).1
  unfolding Editing.remove_entry
  remove_entry-IsKept laws id ref b off h =
      let es = b.manager.entries in
      let o = row_at k (table.rows b.database) in
      let law = laws.deleted id b.database k in
      let erased = Entries.account_at-erase_entry k id es (h id).0.0 in
      let counted = Entries.count-erase_entry k id es in
      let registered = Entries.has_registered-erase_entry k id es (h id).0.0 off in
      elim (Bool-cases (table.delete_row id b.database).0) [
        | inl e ↦
            let law' = law ∙ ap (λ ok. if ok && z_eq id k then none else o) e in
            let row = deleted_row s o (account_at k es) (z_eq id k) (h k).1.0 (h k).1.1 in
            rw (e, Editing.remove_entry)
              (
                (ground (arith, h k), registered ∙ (h k).0.1),
                (
                  ap (account_of_row s) law' ∙ row.0 ∙ ap (map_option (shown s)) (sym erased),
                  ap has_flag law' ∙ row.1,
                ),
              )
        | inr e ↦
            let law' = law ∙ ap (λ ok. if ok && z_eq id k then none else o) e in
            rw (e, Editing.remove_entry)
              ((h k).0, (ap (account_of_row s) law' ∙ (h k).1.0, ap has_flag law' ∙ (h k).1.1))
      ]

  down :
      (id : ℤ) (b : AccountBook B K D)
      → count id b.manager.entries ≤ 1
      → has_registered id (Editing.unregister sip kc table id b).manager.entries ≡ false
  unfolding Editing.unregister unregister_account
  down id b single =
      ground (arith, z_eq_refl id, has_registered-mark_unregistered id id b.manager.entries single)

  pub remove-IsKept :
      (laws : IsTable table) (id : ℤ) (b : AccountBook B K D)
      → ((j : ℤ) → IsKept table s j b)
      → IsKept table s k (Editing.remove sip kc table id b).1
  unfolding Editing.remove
  remove-IsKept laws id b h = elim (Option-cases (find_entry id b.manager.entries)) [
    | inl gone ↦ rw (gone, Editing.remove) (h k)
    | inr (e, found) ↦
        let live = Entries.find_entry-registered id e b.manager.entries found (h id).0.0 in
        elim (Bool-cases e.registered) [
          | inl up ↦
              rw (found, up, Editing.remove)
                (remove_entry-IsKept laws id e.account.password_ref
                  (Editing.unregister sip kc table id b) (down id b (h id).0.0)
                  (λ j. unregister-IsKept sip kc table s j id b (h id).0.0 (h j)))
          | inr up ↦
              rw (found, up, Editing.remove)
                (remove_entry-IsKept laws id e.account.password_ref b (live ∙ up) h)
        ]
  ]
