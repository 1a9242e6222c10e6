-- ===== src/Accounts/Switches.antt =====
-- What `setEnabled` and `setPassword` of src/core/AccountsManager.cpp keep.
use compact_phone.Base.{
  ◌≤◌, ℤ, refl, ap, ◌∙◌, Bool, true, false, not, ◌&&◌, ◌||◌, arith, if◌then◌else◌, z_eq, inl, inr,
  Bool-cases, Option-cases,
}
use compact_phone.Base.Dict.{map_option}
use compact_phone.Base.Text.{Text}
use compact_phone.Account.{Account}
use compact_phone.Backend.{SipBackend}
use compact_phone.Accounts.{Entry, find_entry}
use compact_phone.Accounts.Table.{Table, IsTable, Row, row_at, flag}
use compact_phone.Accounts.Editing
use compact_phone.Accounts.Editing.{
  AccountBook, Keychain, account_at, edited, edit_entry, cache_password, make_default,
}
use compact_phone.Accounts.Tied.{count, IsTied}
use compact_phone.Accounts.Entries
use compact_phone.Accounts.Rows.{written_row, enabled_row}
use compact_phone.Accounts.Kept.{
  IsKept, has_flag, account_of_row, register-IsKept, unregister-IsKept,
}
use compact_phone.Accounts.Changes.{
  at, Reads, rewrite_entry, rewrite_entry-IsKept, register_if-IsKept,
}

module _ {B K D : Type 0} (sip : SipBackend B) (kc : Keychain K) (table : Table D) (s : Bool)
    (k : ℤ) where
  enable_entry-IsKept :
      (id : ℤ) (on : Bool) (b : AccountBook B K D)
      → count id b.manager.entries ≤ 1
      → IsTied k b.manager
      → Reads sip kc table s k b (
          if z_eq id k
          then map_option (λ a. record a { enabled = on }) (at sip kc table s k b)
          else at sip kc table s k b)
      → IsKept table s k (Editing.enable_entry sip kc table id on b)
  unfolding Editing.enable_entry
  enable_entry-IsKept id true b single tied reads =
      let f : Account → Account = λ a. record a { enabled = true } in
      register-IsKept sip kc table s k id (rewrite_entry sip kc table s k id f b)
        (rewrite_entry-IsKept sip kc table s k id f b (λ a e. refl) tied reads)
  enable_entry-IsKept id false b single tied reads =
      let f : Account → Account = λ a. record a { enabled = false } in
      unregister-IsKept sip kc table s k id (rewrite_entry sip kc table s k id f b)
        (ground (arith, Entries.count-edit_entry id id f (λ a e. refl) b.manager.entries))
        (rewrite_entry-IsKept sip kc table s k id f b (λ a e. refl) tied reads)

  pub set_enabled-IsKept :
      (laws : IsTable table) (id : ℤ) (on : Bool) (b : AccountBook B K D)
      → ((j : ℤ) → IsKept table s j b)
      → IsKept table s k (Editing.set_enabled sip kc table id on b).1
  unfolding Editing.set_enabled
  set_enabled-IsKept laws id on b h =
      let db = b.database in
      let o = row_at k (table.rows db) in
      let f : Row → Row = λ r. record r { enabled = flag on } in
      elim (Option-cases (find_entry id b.manager.entries)) [
        | inl gone ↦ rw (gone, Editing.set_enabled) (h k)
        | inr (e, found) ↦
            elim (Bool-cases (e.account.enabled && on || not e.account.enabled && not on)) [
              | inl same ↦ rw (found, same, Editing.set_enabled) (h k)
              | inr same ↦ elim (Bool-cases (table.set_enabled_row id on db).0) [
                | inl ok ↦
                    let law =
                      laws.enabled id on db k
                      ∙ ap (λ c. if c && z_eq id k then map_option f o else o) ok in
                    let reads =
                      written_row s f (λ a. record a { enabled = on }) o (at sip kc table s k b)
                        (z_eq id k) (h k).1.0 (h k).1.1 (enabled_row s on) in
                    rw (found, same, ok, Editing.set_enabled)
                      (enable_entry-IsKept id on
                        (record b { database = (table.set_enabled_row id on db).1 }) (h id).0.0
                        (h k).0 (ap (account_of_row s) law ∙ reads.0, ap has_flag law ∙ reads.1))
                | inr ok ↦
                    let law =
                      laws.enabled id on db k
                      ∙ ap (λ c. if c && z_eq id k then map_option f o else o) ok in
                    rw (found, same, ok, Editing.set_enabled)
                      (
                        (h k).0,
                        (ap (account_of_row s) law ∙ (h k).1.0, ap has_flag law ∙ (h k).1.1),
                      )
              ]
            ]
      ]

  renew-IsKept :
      (id : ℤ) (e : Entry) (b : AccountBook B K D)
      → count id b.manager.entries ≤ 1
      → IsKept table s k b
      → IsKept table s k (Editing.renew sip kc table id e b)
  unfolding Editing.renew
  renew-IsKept id e b single h =
      register_if-IsKept sip kc table s k
        (e.account.enabled && (e.registered || e.account.register_on_startup)) id
        (if e.registered then Editing.unregister sip kc table id b else b) (down e.registered)
    where
      down : (c : Bool) → IsKept table s k (if c then Editing.unregister sip kc table id b else b)
      down true = unregister-IsKept sip kc table s k id b single h
      down false = h

  pub set_password-IsKept :
      (id : ℤ) (password : Text) (b : AccountBook B K D)
      → ((j : ℤ) → IsKept table s j b)
      → IsKept table s k (Editing.set_password sip kc table id password b).1
  unfolding Editing.set_password
  set_password-IsKept id password b h = elim (Option-cases (find_entry id b.manager.entries)) [
    | inl gone ↦ rw (gone, Editing.set_password) (h k)
    | inr (e, found) ↦ elim (Bool-cases (kc.set e.account.password_ref password b.secrets).0) [
      | inr ok ↦ rw (found, ok, Editing.set_password) (h k)
      | inl ok ↦
          rw (found, ok, Editing.set_password) (renew-IsKept id e (cached e) (h id).0.0 (h k))
    ]
  ]
    where
      cached : Entry → AccountBook B K D
      cached e = record b {
        secrets = (kc.set e.account.password_ref password b.secrets).1;
        manager = record b.manager {
          password_cache = cache_password e.account.password_ref password b.manager.password_cache;
        };
      }
