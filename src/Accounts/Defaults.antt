-- ===== src/Accounts/Defaults.antt =====
-- How many entries are the default one: src/core/AccountsManager.cpp.
use compact_phone.Base.{
  ℕ, ◌+◌, ◌≤◌, ℤ, ◌≡◌, refl, ◌∙◌, Bool, true, false, ◌&&◌, ◌||◌, List, [], ◌∷◌, ◌++◌, map,
  if◌then◌else◌, arith, inl, inr, Bool-cases, Option-cases,
}
use compact_phone.Base.Text.{Text}
use compact_phone.Account.{Account}
use compact_phone.Backend.{SipBackend}
use compact_phone.Accounts.{Entry, find_entry}
use compact_phone.Accounts.Registration.{
  mark_registered, mark_unregistered, register_account, unregister_account, with_password,
  password_for, add_to_backend,
}
use compact_phone.Accounts.Table.{Table, row_of}
use compact_phone.Accounts.Editing
use compact_phone.Accounts.Editing.{
  AccountBook, Keychain, new_entry, erase_entry, edit_entry, make_default, edited, cache_password,
}
use compact_phone.Accounts.Tied.{count}

abbrev pub defaults : List Entry → ℕ
defaults [] = 0
defaults (e ∷ es) = (if e.account.is_default then 1 else 0) + defaults es

module _ (id : ℤ) where
  defaults-mark_registered : (es : List Entry) → defaults (mark_registered id es) ≡ defaults es
  unfolding mark_registered
  defaults-mark_registered [] = refl
  defaults-mark_registered (e ∷ es) = ground (arith, defaults-mark_registered es)

  defaults-mark_unregistered : (es : List Entry) → defaults (mark_unregistered id es) ≡ defaults es
  unfolding mark_unregistered
  defaults-mark_unregistered [] = refl
  defaults-mark_unregistered (e ∷ es) = ground (arith, defaults-mark_unregistered es)

  defaults-erase_entry : (es : List Entry) → defaults (erase_entry id es) ≤ defaults es
  unfolding erase_entry
  defaults-erase_entry [] = ground arith
  defaults-erase_entry (e ∷ es) = ground (arith, defaults-erase_entry es)

  defaults-edit_entry :
      (f : Account → Account) (es : List Entry)
      → ((a : Account) → (f a).is_default ≡ a.is_default)
      → defaults (edit_entry id f es) ≡ defaults es
  unfolding edit_entry
  defaults-edit_entry f [] keeps = refl
  defaults-edit_entry f (e ∷ es) keeps =
      ground (arith, keeps e.account, defaults-edit_entry f es keeps)

  defaults-make_default : (es : List Entry) → defaults (map (make_default id) es) ≡ count id es
  defaults-make_default [] = refl
  defaults-make_default (e ∷ es) = ground (arith, defaults-make_default es)

defaults-snoc :
    (a : Account) (es : List Entry)
    → defaults (es ++ new_entry a ∷ []) ≡ defaults es + (if a.is_default then 1 else 0)
defaults-snoc a [] = ground arith
defaults-snoc a (e ∷ es) = ground (arith, defaults-snoc a es)

module _ {B K D : Type 0} (sip : SipBackend B) (kc : Keychain K) (table : Table D) where
  abbrev pub default_count : AccountBook B K D → ℕ
  default_count b = defaults b.manager.entries

  register-default_count :
      (id : ℤ) (b : AccountBook B K D)
      → default_count (Editing.register sip kc table id b) ≡ default_count b
  unfolding Editing.register register_account with_password password_for add_to_backend
  register-default_count id b = ground (arith, defaults-mark_registered id b.manager.entries)

  unregister-default_count :
      (id : ℤ) (b : AccountBook B K D)
      → default_count (Editing.unregister sip kc table id b) ≡ default_count b
  unfolding Editing.unregister unregister_account
  unregister-default_count id b = ground (arith, defaults-mark_unregistered id b.manager.entries)

  register_if-default_count :
      (c : Bool) (id : ℤ) (b : AccountBook B K D)
      → default_count (if c then Editing.register sip kc table id b else b) ≡ default_count b
  register_if-default_count true id b = register-default_count id b
  register_if-default_count false id b = refl

  unregister_if-default_count :
      (c : Bool) (id : ℤ) (b : AccountBook B K D)
      → default_count (if c then Editing.unregister sip kc table id b else b) ≡ default_count b
  unregister_if-default_count true id b = unregister-default_count id b
  unregister_if-default_count false id b = refl

  add_entry-default_count :
      (a : Account) (password : Text) (b : AccountBook B K D)
      → default_count (Editing.add_entry sip kc table a password b)
        ≡ default_count b + (if a.is_default then 1 else 0)
  unfolding Editing.add_entry
  add_entry-default_count a password b =
      register_if-default_count (a.enabled && a.register_on_startup) a.id (record b {
        manager = record b.manager {
          entries = b.manager.entries ++ new_entry a ∷ [];
          password_cache = cache_password a.password_ref password b.manager.password_cache;
        };
      })
      ∙ defaults-snoc a b.manager.entries

  pub add-default_count :
      (ref : Text) (acc : Account) (password : Text) (b : AccountBook B K D)
      → default_count (Editing.add sip kc table ref acc password b).1
        ≤ default_count b + (if acc.is_default then 1 else 0)
  unfolding Editing.add
  add-default_count ref acc password b =
      let a = record acc { password_ref = ref } in
      let row = table.insert_row (row_of a) b.database in
      elim (Bool-cases (kc.set ref password b.secrets).0) [
        | inr e ↦ rw (e, Editing.add) (ground arith)
        | inl e ↦ elim (Option-cases row.0) [
          | inl f ↦ rw (e, f, Editing.add) (ground arith)
          | inr (id, f) ↦
              rw (e, f, Editing.add)
                (ground (
                  arith,
                  add_entry-default_count (record a { id = id }) password
                      (record b { secrets = (kc.set ref password b.secrets).1; database = row.1 }),
                ))
        ]
      ]

  pub remove-default_count :
      (id : ℤ) (b : AccountBook B K D)
      → default_count (Editing.remove sip kc table id b).1 ≤ default_count b
  unfolding Editing.remove Editing.remove_entry
  remove-default_count id b = ground (
    arith,
    unregister-default_count id b,
    defaults-erase_entry id b.manager.entries,
    defaults-erase_entry id (Editing.unregister sip kc table id b).manager.entries,
  )

  update_entry-default_count :
      (acc : Account) (live : Bool) (b : AccountBook B K D)
      → default_count (Editing.update_entry sip kc table acc live b)
        ≡ defaults (
            edit_entry acc.id
              (edited acc)
              (if live then Editing.unregister sip kc table acc.id b else b).manager.entries)
  unfolding Editing.update_entry
  update_entry-default_count acc live b =
      let down = if live then Editing.unregister sip kc table acc.id b else b in
      register_if-default_count (acc.enabled && (live || acc.register_on_startup)) acc.id
        (record down {
          manager = record down.manager {
            entries = edit_entry acc.id (edited acc) down.manager.entries;
          };
        })

  pub update-default_count :
      (acc : Account) (b : AccountBook B K D)
      → default_count (Editing.update sip kc table acc b).1 ≡ default_count b
  unfolding Editing.update
  update-default_count acc b =
      let row = table.update_row (row_of acc) b.database in
      let b' = record b { database = row.1 } in
      elim (Option-cases (find_entry acc.id b.manager.entries)) [
        | inl gone ↦ rw (gone, Editing.update) refl
        | inr (e, found) ↦ elim (Bool-cases row.0) [
          | inr no_row ↦ rw (found, no_row, Editing.update) refl
          | inl ok ↦
              rw (found, ok, Editing.update)
                (update_entry-default_count acc e.registered b'
                  ∙ defaults-edit_entry acc.id (edited acc)
                      (if e.registered
                        then Editing.unregister sip kc table acc.id b'
                        else b').manager.entries
                      (λ a. refl)
                  ∙ unregister_if-default_count e.registered acc.id b')
        ]
      ]

  pub set_default-default_count :
      (id : ℤ) (b : AccountBook B K D)
      → count id b.manager.entries ≤ 1
      → default_count b ≤ 1
      → default_count (Editing.set_default sip kc table id b).1 ≤ 1
  unfolding Editing.set_default
  set_default-default_count id b single one =
      ground (arith, defaults-make_default id b.manager.entries)

  pub set_enabled-default_count :
      (id : ℤ) (on : Bool) (b : AccountBook B K D)
      → default_count (Editing.set_enabled sip kc table id on b).1 ≡ default_count b
  unfolding Editing.set_enabled Editing.enable_entry
  set_enabled-default_count id on b =
      let row = table.set_enabled_row id on b.database in
      let b' = record b { database = row.1 } in
      let f : Account → Account = λ a. record a { enabled = on } in
      let written = record b' {
        manager = record b'.manager { entries = edit_entry id f b.manager.entries };
      } in
      elim (Option-cases (find_entry id b.manager.entries)) [
        | inl gone ↦ rw (gone, Editing.set_enabled) refl
        | inr (e, found) ↦ ground (
          arith,
          register-default_count id written,
          unregister-default_count id written,
          defaults-edit_entry id f b.manager.entries (λ a. refl),
        )
      ]

  pub set_password-default_count :
      (id : ℤ) (password : Text) (b : AccountBook B K D)
      → default_count (Editing.set_password sip kc table id password b).1 ≡ default_count b
  unfolding Editing.set_password Editing.renew
  set_password-default_count id password b = elim (Option-cases (find_entry id b.manager.entries)) [
    | inl gone ↦ rw (gone, Editing.set_password) refl
    | inr (e, found) ↦
        let ref = e.account.password_ref in
        let cached = record b {
          secrets = (kc.set ref password b.secrets).1;
          manager = record b.manager {
            password_cache = cache_password ref password b.manager.password_cache;
          };
        } in
        elim (Bool-cases (kc.set ref password b.secrets).0) [
          | inr bad ↦ rw (found, bad, Editing.set_password) refl
          | inl ok ↦
              rw (found, ok, Editing.set_password)
                (register_if-default_count
                    (e.account.enabled && (e.registered || e.account.register_on_startup)) id
                    (if e.registered then Editing.unregister sip kc table id cached else cached)
                  ∙ unregister_if-default_count e.registered id cached)
        ]
  ]
