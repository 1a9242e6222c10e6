-- ===== src/Accounts/Entries.antt =====
-- What the edits of src/core/AccountsManager.cpp make of its list of entries, at each id.
use compact_phone.Base.{
  ◌+◌, ◌≤◌, ℤ, ◌≡◌, refl, true, false, Option, none, some, List, [], ◌∷◌, ◌++◌, map, arith,
  if◌then◌else◌, z_eq, z_eq_iff,
}
use compact_phone.Base.Dict.{is_some, map_option}
use compact_phone.Base.Text.{Text}
use compact_phone.Account.{Account}
use compact_phone.Backend.{SipBackend}
use compact_phone.Accounts.{Entry, AccountsManager, find_entry}
use compact_phone.Accounts.Registration.{
  has_registered, mark_registered, mark_unregistered, password_for, add_to_backend, with_password,
  register_account, unregister_account,
}
use compact_phone.Accounts.Editing.{new_entry, erase_entry, edit_entry, make_default, account_at}
use compact_phone.Accounts.Tied.{count, unlisted}

pub find_entry-registered :
    (id : ℤ) (e : Entry) (es : List Entry)
    → find_entry id es ≡ some e
    → count id es ≤ 1
    → has_registered id es ≡ e.registered
unfolding find_entry has_registered
find_entry-registered id e [] found single = ground arith
find_entry-registered id e (x ∷ es) found single =
    ground (arith, unlisted id es, find_entry-registered id e es)

pub find_entry-account :
    (id : ℤ) (e : Entry) (es : List Entry)
    → find_entry id es ≡ some e
    → account_at id es ≡ some e.account
unfolding find_entry account_at
find_entry-account id e [] found = ground arith
find_entry-account id e (x ∷ es) found = ground (arith, find_entry-account id e es)

pub count-none : (k : ℤ) (es : List Entry) → account_at k es ≡ none → count k es ≡ 0
unfolding account_at
count-none k [] h = refl
count-none k (e ∷ es) h = ground (arith, count-none k es)

module _ (k : ℤ) where
  pub account_at-snoc :
      (a : Account) (es : List Entry)
      → account_at k (es ++ new_entry a ∷ []) ≡ (
          if is_some (account_at k es)
          then account_at k es
          else if z_eq a.id k
          then some a
          else none)
  unfolding account_at
  account_at-snoc a [] = refl
  account_at-snoc a (e ∷ es) = ground (arith, account_at-snoc a es)

  pub count-snoc :
      (a : Account) (es : List Entry)
      → count k (es ++ new_entry a ∷ []) ≡ count k es + (if z_eq a.id k then 1 else 0)
  count-snoc a [] = ground arith
  count-snoc a (e ∷ es) = ground (arith, count-snoc a es)

  pub has_registered-snoc :
      (a : Account) (es : List Entry)
      → has_registered k (es ++ new_entry a ∷ []) ≡ has_registered k es
  unfolding has_registered
  has_registered-snoc a [] = ground arith
  has_registered-snoc a (e ∷ es) = ground (arith, has_registered-snoc a es)

  module _ (id : ℤ) where
    pub account_at-mark_registered :
        (es : List Entry) → account_at k (mark_registered id es) ≡ account_at k es
    unfolding account_at mark_registered
    account_at-mark_registered [] = refl
    account_at-mark_registered (e ∷ es) = ground (arith, account_at-mark_registered es)

    pub account_at-mark_unregistered :
        (es : List Entry) → account_at k (mark_unregistered id es) ≡ account_at k es
    unfolding account_at mark_unregistered
    account_at-mark_unregistered [] = refl
    account_at-mark_unregistered (e ∷ es) = ground (arith, account_at-mark_unregistered es)

    pub account_at-erase_entry :
        (es : List Entry)
        → count id es ≤ 1
        → account_at k (erase_entry id es) ≡ (if z_eq id k then none else account_at k es)
    unfolding account_at erase_entry
    account_at-erase_entry [] single = ground arith
    account_at-erase_entry (e ∷ es) single = ground (
      arith,
      z_eq_iff e.account.id k,
      z_eq_iff e.account.id id,
      z_eq_iff id k,
      unlisted_account es,
      account_at-erase_entry es,
    )
      where
        unlisted_account : (es : List Entry) → count id es ≡ 0 → account_at id es ≡ none
        unlisted_account [] h = unfold account_at in refl
        unlisted_account (e ∷ es) h = unfold account_at in ground (arith, unlisted_account es)

    pub count-erase_entry : (es : List Entry) → count k (erase_entry id es) ≤ count k es
    unfolding erase_entry
    count-erase_entry [] = ground arith
    count-erase_entry (e ∷ es) = ground (arith, count-erase_entry es)

    pub has_registered-erase_entry :
        (es : List Entry)
        → count id es ≤ 1
        → has_registered id es ≡ false
        → has_registered k (erase_entry id es) ≡ has_registered k es
    unfolding erase_entry has_registered
    has_registered-erase_entry [] single h = refl
    has_registered-erase_entry (e ∷ es) single h = ground (
      arith,
      z_eq_iff e.account.id k,
      z_eq_iff e.account.id id,
      z_eq_iff id k,
      has_registered-erase_entry es,
    )

    module _ (f : Account → Account)
        (keeps : (a : Account) → z_eq a.id id ≡ true → (f a).id ≡ a.id) where
      pub account_at-edit_entry :
          (es : List Entry)
          → account_at k (edit_entry id f es)
            ≡ (if z_eq id k then map_option f (account_at k es) else account_at k es)
      unfolding account_at edit_entry
      account_at-edit_entry [] = ground arith
      account_at-edit_entry (e ∷ es) = ground (
        arith,
        z_eq_iff e.account.id k,
        z_eq_iff e.account.id id,
        z_eq_iff id k,
        keeps e.account,
        account_at-edit_entry es,
      )

      pub count-edit_entry : (es : List Entry) → count k (edit_entry id f es) ≡ count k es
      unfolding edit_entry
      count-edit_entry [] = refl
      count-edit_entry (e ∷ es) = ground (arith, keeps e.account, count-edit_entry es)

      pub has_registered-edit_entry :
          (es : List Entry) → has_registered k (edit_entry id f es) ≡ has_registered k es
      unfolding edit_entry has_registered
      has_registered-edit_entry [] = refl
      has_registered-edit_entry (e ∷ es) =
          ground (arith, keeps e.account, has_registered-edit_entry es)

    pub account_at-make_default :
        (es : List Entry)
        → account_at k (map (make_default id) es)
          ≡ map_option (λ a. record a { is_default = z_eq a.id id }) (account_at k es)
    unfolding account_at
    account_at-make_default [] = refl
    account_at-make_default (e ∷ es) = ground (arith, account_at-make_default es)

    pub count-make_default : (es : List Entry) → count k (map (make_default id) es) ≡ count k es
    count-make_default [] = refl
    count-make_default (e ∷ es) = ground (arith, count-make_default es)

    pub has_registered-make_default :
        (es : List Entry) → has_registered k (map (make_default id) es) ≡ has_registered k es
    unfolding has_registered
    has_registered-make_default [] = refl
    has_registered-make_default (e ∷ es) = ground (arith, has_registered-make_default es)

-- Registration writes no account.
module _ {B : Type 0} (sip : SipBackend B) (keychain : Text → Option Text) (k : ℤ) where
  pub account_at-register_account :
      (id : ℤ) (m : AccountsManager B)
      → account_at k (register_account sip keychain id m).1.entries ≡ account_at k m.entries
  unfolding register_account with_password password_for add_to_backend
  account_at-register_account id m = ground (arith, account_at-mark_registered k id m.entries)

  pub account_at-unregister_account :
      (id : ℤ) (m : AccountsManager B)
      → account_at k (unregister_account sip keychain id m).entries ≡ account_at k m.entries
  unfolding unregister_account
  account_at-unregister_account id m = ground (arith, account_at-mark_unregistered k id m.entries)
