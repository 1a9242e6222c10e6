-- ===== src/Accounts/Rows.antt =====
-- What the writes of src/core/AccountsManager.cpp to a row are to the account that is read from it.
use compact_phone.Base.{
  ℤ, pos, ◌≡◌, refl, ap, ◌∙◌, Bool, true, false, Option, none, some, List, [], ◌∷◌, arith,
  if◌then◌else◌, z_eq, z_eq_iff, ◌&&◌, ◌⊎◌, inl, inr, Bool-cases,
}
use compact_phone.Base.Dict.{map_option}
use compact_phone.Account.{Account}
use compact_phone.Accounts.Table.{
  Row, row_of, account_of, row_at, Table, IsTable, write_default, overwritten, cleared, marked,
  is_set, flag, commit_fails,
}
use compact_phone.Accounts.RoundTrip.{account_of-row_of, is_set-flag}
use compact_phone.Accounts.Editing.{edited}
use compact_phone.Accounts.Kept.{read, shown, is_flag, has_flag, account_of_row}

-- A row of the database and the account of the manager: the same id, or none of both.
module _ (s : Bool) (f : Row → Row) (g : Account → Account) where
  -- A write that agrees on a row and its account agrees on what is there.
  pub written_row :
      (o : Option Row) (at : Option Account) (same : Bool)
      → account_of_row s o ≡ map_option (shown s) at
      → has_flag o ≡ true
      → ((r : Row) (a : Account)
          → read s r ≡ shown s a
          → is_flag r.is_default ≡ true
          → (read s (f r) ≡ shown s (g a)) × (is_flag (f r).is_default ≡ true))
      → (account_of_row s (if same then map_option f o else o)
          ≡ map_option (shown s) (if same then map_option g at else at))
        × (has_flag (if same then map_option f o else o) ≡ true)
  written_row o at false h flagged agrees = (h, flagged)
  written_row none none true h flagged agrees = (refl, refl)
  written_row none (some a) true h flagged agrees = ground arith
  written_row (some r) none true h flagged agrees = ground arith
  written_row (some r) (some a) true h flagged agrees =
      let both = agrees r a (some_inj h) flagged in (ap some both.0, both.1)
    where
      some_inj : {x y : Account} → some x ≡ some y → x ≡ y
      some_inj e = ground arith

pub overwritten_row :
    (s : Bool) (acc : Account) (r : Row) (a : Account)
    → read s r ≡ shown s a
    → is_flag r.is_default ≡ true
    → (read s (overwritten (row_of acc) r) ≡ shown s (edited acc a))
      × (is_flag (overwritten (row_of acc) r).is_default ≡ true)
unfolding account_of
overwritten_row s acc r a h flagged = (
  λ i. record (account_of-row_of acc i) {
    is_default = (h i).is_default;
    password_ref = (h i).password_ref;
  },
  flagged,
)

redefaulted-is_set :
    (n : ℤ) (chosen : Bool)
    → is_flag n ≡ true
    → (is_set (if chosen then pos 1 else if z_eq n (pos 1) then pos 0 else n) ≡ chosen)
      × (is_flag (if chosen then pos 1 else if z_eq n (pos 1) then pos 0 else n) ≡ true)
unfolding z_eq
redefaulted-is_set n true h = (refl, refl)
redefaulted-is_set n false h = ground (arith, z_eq_iff n (pos 0), z_eq_iff n (pos 1))

-- What the transaction of `setDefault` makes of a row, the default's or another's.
abbrev pub redefaulted : ℤ → Row → Row
redefaulted id r = record r {
  is_default =
      if z_eq r.id id then pos 1 else if z_eq r.is_default (pos 1) then pos 0 else r.is_default;
}

pub redefaulted_row :
    (s : Bool) (id : ℤ) (r : Row) (a : Account)
    → read s r ≡ shown s a
    → is_flag r.is_default ≡ true
    → (read s (redefaulted id r) ≡ shown s (record a { is_default = z_eq a.id id }))
      × (is_flag (redefaulted id r).is_default ≡ true)
unfolding account_of
redefaulted_row s id r a h flagged =
    let both = redefaulted-is_set r.is_default (z_eq r.id id) flagged in
    (
      ap (λ b. record (account_of r) { is_default = s && b }) both.0
          ∙ (λ i. record (h i) { is_default = s && z_eq (h i).id id }),
      both.1,
    )

row_at-id : (k : ℤ) (r : Row) (rs : List Row) → row_at k rs ≡ some r → r.id ≡ k
unfolding row_at
row_at-id k r [] h = ground arith
row_at-id k r (x ∷ rs) h = ground (arith, z_eq_iff x.id k, row_at-id k r rs)

cleared-marked :
    (id k : ℤ) (o : Option Row)
    → ((r : Row) → o ≡ some r → r.id ≡ k)
    → (if z_eq id k then map_option marked (map_option cleared o) else map_option cleared o)
      ≡ map_option (redefaulted id) o
cleared-marked id k none at = ground arith
cleared-marked id k (some r) at = ground (arith, at r refl, z_eq_iff id k, z_eq_iff r.id id)

-- A row whose default flag is not looked at.
pub redefaulted-unseen :
    (id : ℤ) (o : Option Row)
    → has_flag o ≡ true
    → (account_of_row false (map_option (redefaulted id) o) ≡ account_of_row false o)
      × (has_flag (map_option (redefaulted id) o) ≡ true)
unfolding account_of
redefaulted-unseen id none h = (refl, refl)
redefaulted-unseen id (some r) h = (refl, (redefaulted-is_set r.is_default (z_eq r.id id) h).1)

-- A transaction that succeeds moves the default. One that fails leaves every row as it was, or, if it is
-- its `COMMIT` that fails, perhaps as it has written it.
module _ {D : Type 0} (t : Table D) (laws : IsTable t) (id : ℤ) (d : D) (k : ℤ) where
  abbrev before : Option Row
  before = row_at k (t.rows d)

  abbrev after : Option Row
  after = row_at k (t.rows (write_default t id d).1)

  pub write_default-rows :
      ((write_default t id d).0 ≡ true → after ≡ map_option (redefaulted id) before)
      × ((write_default t id d).0 ≡ false
          → (after ≡ before)
            ⊎ ((commit_fails t id d ≡ true) × (after ≡ map_option (redefaulted id) before)))
  unfolding write_default
  write_default-rows =
      let d1 = (t.begin d).1 in
      let d2 = (t.clear_default d1).1 in
      let d3 = (t.mark_default id d2).1 in
      elim (Bool-cases (t.begin d).0) [
        | inr e ↦ rw (e, write_default) ((λ n. ground arith), (λ n. inl (laws.begun d k)))
        | inl e ↦ elim (Bool-cases (t.clear_default d1).0) [
          | inr f ↦
              rw (e, f, write_default)
                ((λ n. ground arith), (λ n. inl (laws.rolled_back_unset d k e)))
          | inl f ↦ elim (Bool-cases (t.mark_default id d2).0) [
            | inr g ↦
                rw (e, f, g, write_default)
                  ((λ n. ground arith), (λ n. inl (laws.rolled_back_set id d k e)))
            | inl g ↦
                let unset = laws.unset d1 k f ∙ ap (map_option cleared) (laws.begun d k) in
                let written : row_at k (t.rows d3) ≡ map_option (redefaulted id) before =
                  laws.set id d2 k g
                  ∙ ap (λ o. if z_eq id k then map_option marked o else o) unset
                  ∙ cleared-marked id k before (λ r at. row_at-id k r (t.rows d) at) in
                rw (e, f, g, write_default)
                  (
                    (λ y. laws.committed d3 k y ∙ written),
                    (λ n.
                        uncommitted written (ground arith)
                          (laws.not_committed id d k (ground arith))),
                  )
          ]
        ]
      ]
    where
      uncommitted :
          {A : Type 0} {x y z w : A} {b : Bool}
          → y ≡ z
          → b ≡ true
          → (x ≡ y) ⊎ (x ≡ w)
          → (x ≡ w) ⊎ ((b ≡ true) × (x ≡ z))
      uncommitted p q (inl r) = inr (q, r ∙ p)
      uncommitted p q (inr r) = inl r

pub enabled_row :
    (s : Bool) (on : Bool) (r : Row) (a : Account)
    → read s r ≡ shown s a
    → is_flag r.is_default ≡ true
    → (read s (record r { enabled = flag on }) ≡ shown s (record a { enabled = on }))
      × (is_flag r.is_default ≡ true)
unfolding account_of
enabled_row s on r a h flagged = (λ i. record (h i) { enabled = is_set-flag on i }, flagged)
