-- ===== src/Updates/Versions.antt =====
-- src/core/UpdateChecker.cpp: versions, and their order.
use compact_phone.Base.{
  ℕ, zero, suc, ◌+◌, ℤ, pos, negsuc, not, ◌&&◌, Option, none, some, List, [], ◌∷◌, map,
  if◌then◌else◌, ltb, ◌==◌,
}
use compact_phone.Base.Lists.{length}
use compact_phone.Base.Text.{Text, is_empty}
use compact_phone.Updates.{Numbers}

-- -1, 0 and 1.
pub data Sign : Type 0 where
  below : Sign
  same : Sign
  above : Sign

abbrev pub sign : ℕ → ℕ → Sign
sign x y = if ltb x y then Sign.below else if x == y then Sign.same else Sign.above

-- What precedes the first `c`, and what follows it.
unfoldable pub before : ℕ → Text → Text
before c [] = []
before c (d ∷ s) = let rest = before c s in if d == c then [] else d ∷ rest

unfoldable pub after : ℕ → Text → Text
after c [] = []
after c (d ∷ s) = let rest = after c s in if d == c then s else rest

abbrev push : ℕ → List Text → List Text
push c [] = (c ∷ []) ∷ []
push c (t ∷ ts) = (c ∷ t) ∷ ts

-- `split('.')`
unfoldable pub split_dots : Text → List Text
split_dots [] = [] ∷ []
split_dots (c ∷ s) = let rest = split_dots s in if c == b'.' then [] ∷ rest else push c rest

pub record ParsedVersion : Type 0 where
  pub release : List ℕ
  pub prerelease : Text

abbrev number_of : Option ℤ → ℕ
number_of none = 0
number_of (some (pos n)) = n
number_of (some (negsuc n)) = 0

-- The loop over the numbers of a release; one that is missing is 0.
unfoldable pub compare_releases : List ℕ → List ℕ → Sign
compare_releases [] [] = Sign.same
compare_releases (x ∷ xs) [] = if x == 0 then compare_releases xs [] else Sign.above
compare_releases [] (y ∷ ys) = if y == 0 then compare_releases [] ys else Sign.below
compare_releases (x ∷ xs) (y ∷ ys) = if x == y then compare_releases xs ys else sign x y

abbrev pub or_next : Sign → Sign → Sign
or_next Sign.same next = next
or_next Sign.below next = Sign.below
or_next Sign.above next = Sign.above

-- The loop returns at a difference, and else runs on.
abbrev pub or_run_on : Sign → Option Sign → Option Sign
or_run_on Sign.same next = next
or_run_on Sign.below next = some Sign.below
or_run_on Sign.above next = some Sign.above

abbrev pub or_same : Option Sign → Sign
or_same none = Sign.same
or_same (some s) = s

module _ (num : Numbers) where
  -- The run of digits at the start, and what follows it.
  unfoldable pub digits : Text → Text
  digits [] = []
  digits (c ∷ s) = let rest = digits s in if num.is_digit c then c ∷ rest else []

  unfoldable pub after_digits : Text → Text
  after_digits [] = []
  after_digits (c ∷ s) = let rest = after_digits s in if num.is_digit c then rest else c ∷ s

  -- The loop of `naturalCompare`, on fuel: `none` if it runs out.
  unfoldable pub natural_compare_on : ℕ → Text → Text → Option Sign
  unfolding digits after_digits
  natural_compare_on fuel [] [] = some Sign.same
  natural_compare_on fuel (c ∷ s) [] = some Sign.above
  natural_compare_on fuel [] (d ∷ t) = some Sign.below
  natural_compare_on zero (c ∷ s) (d ∷ t) = none
  natural_compare_on (suc fuel) (c ∷ s) (d ∷ t) =
      let next = natural_compare_on fuel s t in
      let next_run = natural_compare_on fuel (after_digits (c ∷ s)) (after_digits (d ∷ t)) in
      if num.is_digit c && num.is_digit d
      then or_run_on (sign (num.to_unsigned (digits (c ∷ s))) (num.to_unsigned (digits (d ∷ t))))
          next_run
      else or_run_on (sign c d) next

  -- Each turn of the loop takes a character of each text at least, so the fuel does not run out.
  unfoldable pub natural_compare : Text → Text → Sign
  unfolding natural_compare_on
  natural_compare a b = or_same (natural_compare_on (length a + length b) a b)

  unfoldable pub parse_version : Text → ParsedVersion
  unfolding before after split_dots
  parse_version v =
      let s = before b'+' v in
      record {
        release = map (λ p. number_of (num.to_int p)) (split_dots (before b'-' s));
        prerelease = after b'-' s;
      }

  abbrev pub compare_prereleases : Text → Text → Sign
  compare_prereleases a b =
      if is_empty a && not (is_empty b)
      then Sign.above
      else if not (is_empty a) && is_empty b
      then Sign.below
      else natural_compare a b

  unfoldable pub compare_versions : Text → Text → Sign
  unfolding parse_version compare_releases natural_compare
  compare_versions a b =
      let av = parse_version a in
      let bv = parse_version b in
      or_next (compare_releases av.release bv.release)
        (compare_prereleases av.prerelease bv.prerelease)
