-- ===== src/Accounts/Tied.antt =====
-- The invariant that src/core/AccountsManager.cpp states of its entries: an account is registered
-- exactly if the manager holds an id of the backend for it.
use compact_phone.Base.{
  ℕ, ◌+◌, ◌≤◌, ℤ, ◌≡◌, refl, ap, ◌∙◌, true, false, not, ◌&&◌, ◌||◌, Option, none, some, List, [],
  ◌∷◌, arith, if◌then◌else◌, z_eq, z_eq_iff, inl, inr, Option-cases,
}
use compact_phone.Base.Dict.{lookup, is_some, lookup-insert, lookup-erase}
use compact_phone.Base.Text.{Text}
use compact_phone.Account.{Account}
use compact_phone.Backend.{SipBackend}
use compact_phone.Accounts.{Entry, AccountsManager, find_entry}
use compact_phone.Accounts.Registration.{
  settings_of, mark_registered, mark_unregistered, has_registered, password_for, add_to_backend,
  with_password, register_account, unregister_account,
}

abbrev pub count : ℤ → List Entry → ℕ
count k [] = 0
count k (e ∷ es) = (if z_eq e.account.id k then 1 else 0) + count k es

-- At most one entry has the id `k`, and it is registered exactly if the backend has an id for `k`.
abbrev pub IsTied : {B : Type 0} → ℤ → AccountsManager B → Type 0
IsTied k m =
    (count k m.entries ≤ 1) × (has_registered k m.entries ≡ is_some (lookup k m.backend_ids))

module _ (k id : ℤ) where
  has_registered-mark_registered :
      (es : List Entry)
      → has_registered k (mark_registered id es)
        ≡ (z_eq id k && is_some (find_entry id es) || has_registered k es)
  unfolding has_registered mark_registered find_entry
  has_registered-mark_registered [] = ground arith
  has_registered-mark_registered (e ∷ es) = ground (
    arith,
    z_eq_iff e.account.id k,
    z_eq_iff e.account.id id,
    z_eq_iff id k,
    has_registered-mark_registered es,
  )

  count-mark_registered : (es : List Entry) → count k (mark_registered id es) ≡ count k es
  unfolding mark_registered
  count-mark_registered [] = refl
  count-mark_registered (e ∷ es) = ground (arith, count-mark_registered es)

  pub count-mark_unregistered : (es : List Entry) → count k (mark_unregistered id es) ≡ count k es
  unfolding mark_unregistered
  count-mark_unregistered [] = refl
  count-mark_unregistered (e ∷ es) = ground (arith, count-mark_unregistered es)

pub unlisted : (k : ℤ) (es : List Entry) → count k es ≡ 0 → has_registered k es ≡ false
unfolding has_registered
unlisted k [] h = refl
unlisted k (e ∷ es) h = ground (arith, unlisted k es)

pub has_registered-mark_unregistered :
    (k id : ℤ) (es : List Entry)
    → count id es ≤ 1
    → has_registered k (mark_unregistered id es) ≡ (not (z_eq id k) && has_registered k es)
unfolding has_registered mark_unregistered
has_registered-mark_unregistered k id [] h = ground arith
has_registered-mark_unregistered k id (e ∷ es) h = ground (
  arith,
  z_eq_iff e.account.id k,
  z_eq_iff e.account.id id,
  z_eq_iff id k,
  unlisted id es,
  has_registered-mark_unregistered k id es,
)

module _ {B : Type 0} (sip : SipBackend B) (keychain : Text → Option Text) (k : ℤ) where
  add_to_backend-IsTied :
      (a : Account) (id : ℤ) (password : Text) (m : AccountsManager B)
      → is_some (find_entry id m.entries) ≡ true
      → IsTied k m
      → IsTied k (add_to_backend sip keychain a id password m).1
  unfolding add_to_backend
  add_to_backend-IsTied a id password m found h = ground (
    arith,
    count-mark_registered k id m.entries,
    has_registered-mark_registered k id m.entries,
    lookup-insert k id (sip.add_account (settings_of a password) m.backend).0 m.backend_ids,
  )

  password_for-same :
      (key : Text) (m : AccountsManager B)
      → let m' = (password_for sip keychain key m).1 in
        (m'.entries ≡ m.entries) × (m'.backend_ids ≡ m.backend_ids)
  unfolding password_for
  password_for-same key m = ground arith

  password_for-IsTied :
      (key : Text) (m : AccountsManager B)
      → IsTied k m
      → IsTied k (password_for sip keychain key m).1
  unfolding password_for
  password_for-IsTied key m h = ground arith

  with_password-IsTied :
      (a : Account) (id : ℤ) (p : Option Text × AccountsManager B)
      → is_some (find_entry id p.1.entries) ≡ true
      → IsTied k p.1
      → IsTied k (with_password sip keychain a id p).1
  unfolding with_password
  with_password-IsTied a id (none, m) found h = h
  with_password-IsTied a id (some password, m) found h =
      add_to_backend-IsTied a id password m found h

  pub register_account-IsTied :
      (id : ℤ) (m : AccountsManager B)
      → IsTied k m
      → IsTied k (register_account sip keychain id m).1
  unfolding register_account
  register_account-IsTied id m h = elim (Option-cases (find_entry id m.entries)) [
    | inl gone ↦ rw (gone, register_account) h
    | inr (e, found) ↦
        let p = password_for sip keychain e.account.password_ref m in
        let same = password_for-same e.account.password_ref m in
        rw (found, register_account)
          (ground (
            arith,
            with_password-IsTied e.account id p
                (ap (λ es. is_some (find_entry id es)) same.0 ∙ ap is_some found)
                (password_for-IsTied e.account.password_ref m h),
          ))
  ]

  pub unregister_account-IsTied :
      (id : ℤ) (m : AccountsManager B)
      → count id m.entries ≤ 1
      → IsTied k m
      → IsTied k (unregister_account sip keychain id m)
  unfolding unregister_account
  unregister_account-IsTied id m single h = ground (
    arith,
    z_eq_iff id k,
    count-mark_unregistered k id m.entries,
    has_registered-mark_unregistered k id m.entries single,
    lookup-erase k id m.backend_ids,
  )
