-- ===== src/Accounts/Kept.antt =====
-- What the edits of src/core/AccountsManager.cpp keep, at each id: the tie between registration and the
-- backend's ids, and the agreement of the entries with the accounts table.
use compact_phone.Base.{
  ◌≤◌, ℤ, pos, ◌≡◌, ap, ◌∙◌, sym, Bool, true, ◌&&◌, ◌||◌, Option, none, some, z_eq,
}
use compact_phone.Base.Dict.{map_option}
use compact_phone.Account.{Account}
use compact_phone.Backend.{SipBackend}
use compact_phone.Accounts.Table.{Table, Row, row_at, account_of, is_set}
use compact_phone.Accounts.RoundTrip.{read_back}
use compact_phone.Accounts.Editing
use compact_phone.Accounts.Editing.{AccountBook, Keychain, account_at, edited}
use compact_phone.Accounts.Tied.{count, IsTied, register_account-IsTied, unregister_account-IsTied}
use compact_phone.Accounts.Entries

-- What is compared of an account that was read and of one that the manager has: everything if `s`, and
-- everything but the default flag if not.
abbrev pub read : Bool → Row → Account
read s r = record (account_of r) { is_default = s && is_set r.is_default }

abbrev pub shown : Bool → Account → Account
shown s a = record (read_back a) { is_default = s && a.is_default }

abbrev pub is_flag : ℤ → Bool
is_flag n = z_eq n (pos 0) || z_eq n (pos 1)

abbrev pub has_flag : Option Row → Bool
has_flag none = true
has_flag (some r) = is_flag r.is_default

abbrev pub account_of_row : Bool → Option Row → Option Account
account_of_row s none = none
account_of_row s (some r) = some (read s r)

module _ {B K D : Type 0} (table : Table D) (s : Bool) where
  -- What the database has for `k` is what the manager has; its default flag is 0 or 1.
  abbrev pub Mirrors : ℤ → AccountBook B K D → Type 0
  Mirrors k b =
      (account_of_row s (row_at k (table.rows b.database))
        ≡ map_option (shown s) (account_at k b.manager.entries))
      × (has_flag (row_at k (table.rows b.database)) ≡ true)

  abbrev pub IsKept : ℤ → AccountBook B K D → Type 0
  IsKept k b = IsTied k b.manager × Mirrors k b

module _ {B K D : Type 0} (sip : SipBackend B) (kc : Keychain K) (table : Table D) (s : Bool)
    (k : ℤ) where
  pub register-IsKept :
      (id : ℤ) (b : AccountBook B K D)
      → IsKept table s k b
      → IsKept table s k (Editing.register sip kc table id b)
  unfolding Editing.register
  register-IsKept id b h = (
    register_account-IsTied sip (λ key. kc.get key b.secrets) k id b.manager h.0,
    (
      h.1.0
          ∙ ap (map_option (shown s)) (
              sym (
                Entries.account_at-register_account sip (λ key. kc.get key b.secrets) k id
                  b.manager)),
      h.1.1,
    ),
  )

  pub unregister-IsKept :
      (id : ℤ) (b : AccountBook B K D)
      → count id b.manager.entries ≤ 1
      → IsKept table s k b
      → IsKept table s k (Editing.unregister sip kc table id b)
  unfolding Editing.unregister
  unregister-IsKept id b single h = (
    unregister_account-IsTied sip (λ key. kc.get key b.secrets) k id b.manager single h.0,
    (
      h.1.0
          ∙ ap (map_option (shown s)) (
              sym (
                Entries.account_at-unregister_account sip (λ key. kc.get key b.secrets) k id
                  b.manager)),
      h.1.1,
    ),
  )
