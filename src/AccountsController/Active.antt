-- ===== src/AccountsController/Active.antt =====
-- The account that is active: src/core/AccountsController.cpp, `activeAccountId`.
use compact_phone.Base.{
  ℤ, pos, ◌≡◌, refl, ap, ◌⊎◌, Bool, true, false, ◌&&◌, ◌||◌, Option, none, some, List, [], ◌∷◌,
  if◌then◌else◌, z_eq, z_eq_iff, ltb_ℤ, invalid_id, arith, inl, inr, Bool-cases,
}
use compact_phone.Account.{Account}
use compact_phone.Accounts.{AccountsManager}
use compact_phone.Accounts.Editing
use compact_phone.AccountsController.{AccountsController}
use compact_phone.AccountsController.Status.{is_up, first_up, first_of, active_account_id}

module _ {B : Type 0} (m : AccountsManager B) where
  -- Some account is enabled and registered; that of an id is.
  abbrev pub any_up : List Account → Bool
  any_up [] = false
  any_up (a ∷ rest) = is_up m a || any_up rest

  abbrev pub up_at : ℤ → List Account → Bool
  up_at id [] = false
  up_at id (a ∷ rest) = z_eq a.id id && is_up m a || up_at id rest

  first_up-up_at :
      (test : Account → Bool) (id : ℤ) (all : List Account)
      → first_up test m all ≡ some id
      → up_at id all ≡ true
  unfolding first_up
  first_up-up_at test id [] h = ground arith
  first_up-up_at test id (a ∷ rest) h =
      ground (arith, z_eq_iff a.id id, first_up-up_at test id rest)

  up_at-any_up : (id : ℤ) (all : List Account) → up_at id all ≡ true → any_up all ≡ true
  up_at-any_up id [] h = h
  up_at-any_up id (a ∷ rest) h = ground (arith, up_at-any_up id rest)

  any_up-first_up : (all : List Account) → first_up (λ a. true) m all ≡ none → any_up all ≡ false
  unfolding first_up
  any_up-first_up [] h = refl
  any_up-first_up (a ∷ rest) h = ground (arith, any_up-first_up rest)

  first_up-id :
      (id : ℤ) (all : List Account)
      → up_at id all ≡ true
      → first_up (λ a. z_eq a.id id) m all ≡ some id
  unfolding first_up
  first_up-id id [] h = ground arith
  first_up-id id (a ∷ rest) h = ground (arith, z_eq_iff a.id id, first_up-id id rest)

  abbrev IsUp : ℤ → List Account → Type 0
  IsUp id all = (any_up all ≡ false → id ≡ invalid_id) × (any_up all ≡ true → up_at id all ≡ true)

  found-IsUp :
      (test : Account → Bool) (id : ℤ) (all : List Account)
      → first_up test m all ≡ some id
      → IsUp id all
  found-IsUp test id all h =
      let up = first_up-up_at test id all h in
      ((λ gone. ground (arith, up_at-any_up id all up)), (λ there. up))

  first_of-IsUp :
      (all : List Account) (test : Account → Bool) (chosen default first : Option ℤ)
      → (chosen ≡ none) ⊎ (first_up test m all ≡ chosen)
      → first_up (λ a. a.is_default) m all ≡ default
      → first_up (λ a. true) m all ≡ first
      → IsUp (first_of chosen default first) all
  first_of-IsUp all test (some id) default first (inl impossible) e f = ground arith
  first_of-IsUp all test (some id) default first (inr c) e f = found-IsUp test id all c
  first_of-IsUp all test none (some id) first c e f = found-IsUp (λ a. a.is_default) id all e
  first_of-IsUp all test none none (some id) c e f = found-IsUp (λ a. true) id all f
  first_of-IsUp all test none none none c e f =
      ((λ gone. refl), (λ there. ground (arith, any_up-first_up all f)))

-- Either no account is both enabled and registered, and the active one is -1, or the active account is both.
-- And unless the chosen account (an id above 0) is not both, it is the active one.
pub active_account_id-outcome :
    {B K D : Type 0} (c : AccountsController B K D)
    → let m = c.book.manager in
      let accounts = Editing.accounts c.book in
      (((any_up m accounts ≡ false) × (active_account_id c ≡ invalid_id))
        ⊎ (up_at m (active_account_id c) accounts ≡ true))
      × (((ltb_ℤ (pos 0) c.active_id && up_at m c.active_id accounts) ≡ false)
          ⊎ (active_account_id c ≡ c.active_id))
unfolding active_account_id
active_account_id-outcome c =
    let m = c.book.manager in
    let all = Editing.accounts c.book in
    let test : Account → Bool = λ a. z_eq a.id c.active_id in
    let up =
      first_of-IsUp m all test (if ltb_ℤ (pos 0) c.active_id then first_up test m all else none)
        (first_up (λ a. a.is_default) m all) (first_up (λ a. true) m all)
        (chosen (ltb_ℤ (pos 0) c.active_id) (first_up test m all)) refl refl in
    (
      elim (Bool-cases (any_up m all)) [ inl e ↦ inr (up.1 e) | inr e ↦ inl (e, up.0 e) ],
      elim (Bool-cases (ltb_ℤ (pos 0) c.active_id)) [
        | inr e ↦ inl (ap (λ b. b && up_at m c.active_id all) e)
        | inl e ↦ elim (Bool-cases (up_at m c.active_id all)) [
          | inr f ↦ inl (rw (e, f) refl)
          | inl f ↦ inr (rw (e, first_up-id m c.active_id all f, active_account_id) refl)
        ]
      ],
    )
  where
    chosen :
        (b : Bool) (o : Option ℤ) → ((if b then o else none) ≡ none) ⊎ (o ≡ (if b then o else none))
    chosen true o = inr refl
    chosen false o = inl refl
