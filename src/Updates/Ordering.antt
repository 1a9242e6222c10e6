-- ===== src/Updates/Ordering.antt =====
-- The order of versions: src/core/UpdateChecker.cpp.
use compact_phone.Base.{
  ℕ, zero, suc, ◌+◌, ◌≤◌, ◌≡◌, refl, ap, ◌∙◌, Bool, true, false, ◌&&◌, Option, none, some, inl, inr,
  Bool-cases, List, [], ◌∷◌, if◌then◌else◌, arith,
}
use compact_phone.Base.Dict.{is_some}
use compact_phone.Base.Lists.{length}
use compact_phone.Base.Text.{Text}
use compact_phone.Updates.{Numbers}
use compact_phone.Updates.Versions.{
  Sign, sign, or_next, or_run_on, or_same, compare_releases, digits, after_digits,
  natural_compare_on, natural_compare, parse_version, compare_prereleases, compare_versions,
}

abbrev pub flip : Sign → Sign
flip Sign.below = Sign.above
flip Sign.same = Sign.same
flip Sign.above = Sign.below

sign-flip : (x y : ℕ) → sign y x ≡ flip (sign x y)
sign-flip x y = ground arith

or_next-flip : (s next : Sign) → or_next (flip s) (flip next) ≡ flip (or_next s next)
or_next-flip Sign.same next = refl
or_next-flip Sign.below next = refl
or_next-flip Sign.above next = refl

compare_releases-flip : (xs ys : List ℕ) → compare_releases ys xs ≡ flip (compare_releases xs ys)
unfolding compare_releases
compare_releases-flip [] [] = refl
compare_releases-flip (x ∷ xs) [] = ground (arith, compare_releases-flip xs [])
compare_releases-flip [] (y ∷ ys) = ground (arith, compare_releases-flip [] ys)
compare_releases-flip (x ∷ xs) (y ∷ ys) = ground (arith, compare_releases-flip xs ys, sign-flip x y)

abbrev flip_result : Option Sign → Option Sign
flip_result none = none
flip_result (some s) = some (flip s)

or_run_on-flip :
    (s : Sign) (next : Option Sign)
    → or_run_on (flip s) (flip_result next) ≡ flip_result (or_run_on s next)
or_run_on-flip Sign.same next = refl
or_run_on-flip Sign.below next = refl
or_run_on-flip Sign.above next = refl

sign_next-flip :
    (x y : ℕ) (next back : Option Sign)
    → back ≡ flip_result next
    → or_run_on (sign y x) back ≡ flip_result (or_run_on (sign x y) next)
sign_next-flip x y next back h =
    ap (λ s. or_run_on s back) (sign-flip x y)
    ∙ ap (or_run_on (flip (sign x y))) h
    ∙ or_run_on-flip (sign x y) next

-- One turn of the loop: `x` and `y` are the numbers, `c` and `d` the characters.
turn :
    (p q : Bool) (x y c d : ℕ) (run run' next next' : Option Sign)
    → run' ≡ flip_result run
    → next' ≡ flip_result next
    → (if q && p then or_run_on (sign y x) run' else or_run_on (sign d c) next')
      ≡ flip_result (if p && q then or_run_on (sign x y) run else or_run_on (sign c d) next)
turn true true x y c d run run' next next' h k = sign_next-flip x y run run' h
turn true false x y c d run run' next next' h k = sign_next-flip c d next next' k
turn false true x y c d run run' next next' h k = sign_next-flip c d next next' k
turn false false x y c d run run' next next' h k = sign_next-flip c d next next' k

module _ (num : Numbers) where
  after_digits-length : (s : Text) → length (after_digits num s) ≤ length s
  unfolding after_digits
  after_digits-length [] = ground arith
  after_digits-length (c ∷ s) = ground (arith, after_digits-length s)

  after_digits-shorter :
      (c : ℕ) (s : Text) → num.is_digit c ≡ true → length (after_digits num (c ∷ s)) ≤ length s
  unfolding after_digits
  after_digits-shorter c s h = ground (arith, after_digits-length s)

  stable :
      (fuel more : ℕ) (a b : Text)
      → length a ≤ fuel
      → length a ≤ more
      → natural_compare_on num fuel a b ≡ natural_compare_on num more a b
  unfolding natural_compare_on
  stable fuel more [] [] h h' = refl
  stable fuel more (c ∷ s) [] h h' = refl
  stable fuel more [] (d ∷ t) h h' = refl
  stable zero more (c ∷ s) (d ∷ t) h h' = ground arith
  stable (suc fuel) zero (c ∷ s) (d ∷ t) h h' = ground arith
  stable (suc fuel) (suc more) (c ∷ s) (d ∷ t) h h' = ground (
    arith,
    after_digits-shorter c s,
    stable fuel more s t,
    stable fuel more (after_digits num (c ∷ s)) (after_digits num (d ∷ t)),
  )

  or_run_on-ends :
      (s : Sign) (next : Option Sign) → is_some next ≡ true → is_some (or_run_on s next) ≡ true
  or_run_on-ends Sign.same next h = h
  or_run_on-ends Sign.below next h = refl
  or_run_on-ends Sign.above next h = refl

  ends :
      (fuel : ℕ) (a b : Text) → length a ≤ fuel → is_some (natural_compare_on num fuel a b) ≡ true
  unfolding natural_compare_on
  ends fuel [] [] h = refl
  ends fuel (c ∷ s) [] h = refl
  ends fuel [] (d ∷ t) h = refl
  ends zero (c ∷ s) (d ∷ t) h = ground arith
  ends (suc fuel) (c ∷ s) (d ∷ t) h = elim (Bool-cases (num.is_digit c && num.is_digit d)) [
    | inl e ↦
        rw (e, natural_compare_on)
          (or_run_on-ends
            (sign (num.to_unsigned (digits num (c ∷ s))) (num.to_unsigned (digits num (d ∷ t))))
            (natural_compare_on num fuel (after_digits num (c ∷ s)) (after_digits num (d ∷ t)))
            (ends fuel (after_digits num (c ∷ s)) (after_digits num (d ∷ t))
              (ground (arith, after_digits-shorter c s))))
    | inr e ↦
        rw (e, natural_compare_on)
          (or_run_on-ends (sign c d) (natural_compare_on num fuel s t)
            (ends fuel s t (ground arith)))
  ]

  or_same-some : (o : Option Sign) → is_some o ≡ true → o ≡ some (or_same o)
  or_same-some none h = ground arith
  or_same-some (some s) h = refl

  -- The loop ends: with at least as many turns as the first text has characters it does not run out of
  -- fuel, and returns the result of the comparison.
  pub natural_compare_on-enough :
      (fuel : ℕ) (a b : Text)
      → length a ≤ fuel
      → natural_compare_on num fuel a b ≡ some (natural_compare num a b)
  unfolding natural_compare
  natural_compare_on-enough fuel a b h =
      stable fuel (length a + length b) a b h (omega arith)
      ∙ or_same-some (natural_compare_on num (length a + length b) a b)
          (ends (length a + length b) a b (omega arith))

  natural_compare_on-flip :
      (fuel : ℕ) (a b : Text)
      → natural_compare_on num fuel b a ≡ flip_result (natural_compare_on num fuel a b)
  unfolding natural_compare_on
  natural_compare_on-flip fuel [] [] = refl
  natural_compare_on-flip fuel (c ∷ s) [] = refl
  natural_compare_on-flip fuel [] (d ∷ t) = refl
  natural_compare_on-flip zero (c ∷ s) (d ∷ t) = refl
  natural_compare_on-flip (suc fuel) (c ∷ s) (d ∷ t) =
      turn (num.is_digit c) (num.is_digit d) (num.to_unsigned (digits num (c ∷ s)))
        (num.to_unsigned (digits num (d ∷ t))) c d
        (natural_compare_on num fuel (after_digits num (c ∷ s)) (after_digits num (d ∷ t)))
        (natural_compare_on num fuel (after_digits num (d ∷ t)) (after_digits num (c ∷ s)))
        (natural_compare_on num fuel s t) (natural_compare_on num fuel t s)
        (natural_compare_on-flip fuel (after_digits num (c ∷ s)) (after_digits num (d ∷ t)))
        (natural_compare_on-flip fuel s t)

  or_same-flip : (o : Option Sign) → or_same (flip_result o) ≡ flip (or_same o)
  or_same-flip none = refl
  or_same-flip (some s) = refl

  natural_compare-flip : (a b : Text) → natural_compare num b a ≡ flip (natural_compare num a b)
  unfolding natural_compare
  natural_compare-flip a b =
      ap or_same (
        stable (length b + length a) (length a + length b) b a (omega arith) (omega arith)
        ∙ natural_compare_on-flip (length a + length b) a b)
      ∙ or_same-flip (natural_compare_on num (length a + length b) a b)

  compare_prereleases-flip :
      (a b : Text) → compare_prereleases num b a ≡ flip (compare_prereleases num a b)
  compare_prereleases-flip a b = ground (arith, natural_compare-flip a b)

  -- Versions are compared the other way round with the opposite sign, and each with itself as the same.
  pub compare_versions-flip :
      (a b : Text)
      → (compare_versions num b a ≡ flip (compare_versions num a b))
        × (compare_versions num a a ≡ Sign.same)
  unfolding compare_versions
  compare_versions-flip a b = (opposite a b, unflipped (compare_versions num a a) (opposite a a))
    where
      opposite : (a b : Text) → compare_versions num b a ≡ flip (compare_versions num a b)
      opposite a b =
          let av = parse_version num a in
          let bv = parse_version num b in
          ap (λ s. or_next s (compare_prereleases num bv.prerelease av.prerelease))
            (compare_releases-flip av.release bv.release)
          ∙ ap (or_next (flip (compare_releases av.release bv.release)))
              (compare_prereleases-flip av.prerelease bv.prerelease)
          ∙ or_next-flip (compare_releases av.release bv.release)
              (compare_prereleases num av.prerelease bv.prerelease)

      unflipped : (s : Sign) → s ≡ flip s → s ≡ Sign.same
      unflipped Sign.same h = refl
      unflipped Sign.below h = ground arith
      unflipped Sign.above h = ground arith
