-- ===== src/AccountsController/Defaults.antt =====
-- What the operations of the user keep: src/core/AccountsController.cpp.
use compact_phone.Base.{
  ℕ, ◌+◌, ◌≤◌, ℤ, ◌≡◌, refl, sym, subst, Bool, true, false, List, [], ◌∷◌, map, if◌then◌else◌,
  arith,
}
use compact_phone.Base.Text.{Text, codes}
use compact_phone.Boot.{Qt, Params, value, to_string}
use compact_phone.Account.{Account}
use compact_phone.Backend.{SipBackend}
use compact_phone.Accounts.{Entry}
use compact_phone.Accounts.Table.{Table, IsTable}
use compact_phone.Accounts.Editing
use compact_phone.Accounts.Editing.{AccountBook, Keychain}
use compact_phone.Accounts.Kept.{IsKept}
use compact_phone.Accounts.Edits.{add-IsKept, remove-IsKept}
use compact_phone.Accounts.Changes.{update-IsKept, set_default-IsKept}
use compact_phone.Accounts.Switches.{set_enabled-IsKept, set_password-IsKept}
use compact_phone.Accounts.Defaults.{
  defaults, default_count, add-default_count, remove-default_count, update-default_count,
  set_default-default_count, set_enabled-default_count, set_password-default_count,
}
use compact_phone.AccountsController.{AccountsController, MediaSettings, Notice, notify}
use compact_phone.AccountsController.Settings.{push_settings}
use compact_phone.AccountsController.Status.{refresh_registered_count}
use compact_phone.AccountsController.Actions.{no_accounts, changed, account_to_add}

first_account : (es : List Entry) → no_accounts (map (λ e. e.account) es) ≡ true → defaults es ≡ 0
first_account [] h = refl
first_account (e ∷ es) h = ground arith

module _ {B K D : Type 0} (sip : SipBackend B) (kc : Keychain K) (table : Table D)
    (media : MediaSettings B) (qt : Qt) (truth : Text → Bool) where
  -- The manager is tied to its backend and its database, and has one default account at most.
  abbrev pub IsGood : AccountBook B K D → Type 0
  IsGood b = ((k : ℤ) → IsKept table false k b) × (default_count sip kc table b ≤ 1)

  pub push_settings-IsGood :
      (c : AccountsController B K D) → IsGood c.book → IsGood (push_settings media c).book
  unfolding push_settings
  push_settings-IsGood c h = h

  pub refresh-book : (c : AccountsController B K D) → (refresh_registered_count c).book ≡ c.book
  unfolding refresh_registered_count
  refresh-book c = ground arith

  pub changed-IsGood :
      (c : AccountsController B K D)
      → IsGood c.book
      → IsGood (changed sip kc table media qt truth c).book
  unfolding changed
  changed-IsGood c h = subst IsGood (sym (refresh-book (notify Notice.model_refreshed c))) h

  account_to_add-is_default :
      (params : Params) (first : Bool)
      → (account_to_add sip kc table media qt truth params first).is_default ≡ true
      → first ≡ true
  unfolding account_to_add
  account_to_add-is_default params true h = refl
  account_to_add-is_default params false h = ground arith

  -- The edits of the manager that the operations are made of.
  module _ (laws : IsTable table) where
    pub set_default-IsGood :
        (id : ℤ) (b : AccountBook B K D)
        → IsGood b
        → IsGood (Editing.set_default sip kc table id b).1
    set_default-IsGood id b h = (
      (λ k. set_default-IsKept sip kc table false k laws id b refl h.0),
      set_default-default_count sip kc table id b (h.0 id).0.0 h.1,
    )

    pub update-IsGood :
        (a : Account) (b : AccountBook B K D)
        → IsGood b
        → IsGood (Editing.update sip kc table a b).1
    update-IsGood a b h = (
      (λ k. update-IsKept sip kc table false k laws a b h.0),
      subst (λ n. n ≤ 1) (sym (update-default_count sip kc table a b)) h.1,
    )

    pub set_enabled-IsGood :
        (id : ℤ) (on : Bool) (b : AccountBook B K D)
        → IsGood b
        → IsGood (Editing.set_enabled sip kc table id on b).1
    set_enabled-IsGood id on b h = (
      (λ k. set_enabled-IsKept sip kc table false k laws id on b h.0),
      subst (λ n. n ≤ 1) (sym (set_enabled-default_count sip kc table id on b)) h.1,
    )

    pub set_password-IsGood :
        (id : ℤ) (password : Text) (b : AccountBook B K D)
        → IsGood b
        → IsGood (Editing.set_password sip kc table id password b).1
    set_password-IsGood id password b h = (
      (λ k. set_password-IsKept sip kc table false k id password b h.0),
      subst (λ n. n ≤ 1) (sym (set_password-default_count sip kc table id password b)) h.1,
    )

    pub remove-IsGood :
        (id : ℤ) (b : AccountBook B K D) → IsGood b → IsGood (Editing.remove sip kc table id b).1
    remove-IsGood id b h = (
      (λ k. remove-IsKept sip kc table false k laws id b h.0),
      omega (arith, remove-default_count sip kc table id b, h.1),
    )

    pub add-IsGood :
        (ref : Text) (params : Params) (b : AccountBook B K D)
        → let a =
            account_to_add sip kc table media qt truth params (no_accounts (Editing.accounts b)) in
          IsGood b
          → IsGood
              (Editing.add sip kc table ref a (to_string qt (value (codes "password") params)) b).1
    unfolding Editing.accounts
    add-IsGood ref params b h =
        let first = no_accounts (Editing.accounts b) in
        let a = account_to_add sip kc table media qt truth params first in
        let password = to_string qt (value (codes "password") params) in
        (
          (λ k. add-IsKept sip kc table false k laws ref a password b h.0),
          few (a.is_default) (account_to_add-is_default params first)
              (add-default_count sip kc table ref a password b),
        )
      where
        few :
            (d : Bool)
            → (d ≡ true → no_accounts (Editing.accounts b) ≡ true)
            → {n : ℕ} → n ≤ defaults b.manager.entries + (if d then 1 else 0)
            → n ≤ 1
        few true first {n} le = omega (arith, le, first_account b.manager.entries (first refl))
        few false first {n} le = omega (arith, le, h.1)
