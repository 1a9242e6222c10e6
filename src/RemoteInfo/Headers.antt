-- ===== src/RemoteInfo/Headers.antt =====
-- What is read of a header of the usual form: src/core/sipbackend/pjsip/RemoteInfo.cpp.
use compact_phone.Base.{
  ℕ, suc, ◌+◌, ◌-◌, ◌≡◌, refl, ap, ◌∙◌, sym, Bool, true, false, ◌||◌, some, [], ◌∷◌, ◌++◌, ltb,
  ◌==◌, arith,
}
use compact_phone.Base.Lists.{length, length-append}
use compact_phone.Base.Text.{Text, is_empty}
use compact_phone.RemoteInfo.{
  index_of, skip, first, substr, is_blank, strip_end, back_is, unquote, parse_remote_info,
}

abbrev pub has : ℕ → Text → Bool
has c [] = false
has c (d ∷ s) = d == c || has c s

index_of-append : (c : ℕ) (s t : Text) → has c s ≡ false → index_of c (s ++ c ∷ t) ≡ some (length s)
unfolding index_of
index_of-append c [] t h = ground arith
index_of-append c (d ∷ s) t h = ground (arith, index_of-append c s t)

first-append : (s t : Text) → first (length s) (s ++ t) ≡ s
unfolding first
first-append [] t = refl
first-append (c ∷ s) t = ground (arith, first-append s t)

skip-append : (s t : Text) → skip (length s) (s ++ t) ≡ t
unfolding skip
skip-append [] t = refl
skip-append (c ∷ s) t = ground (arith, skip-append s t)

append-is_empty : (s : Text) (c : ℕ) → is_empty (s ++ c ∷ []) ≡ false
append-is_empty [] c = refl
append-is_empty (d ∷ s) c = refl

skip-next : (s : Text) (c : ℕ) (t : Text) → skip (suc (length s)) (s ++ c ∷ t) ≡ t
unfolding skip
skip-next [] c t = refl
skip-next (d ∷ s) c t = skip-next s c t

skip-past : (s : Text) (c : ℕ) (t : Text) → skip (length s + 1) (s ++ c ∷ t) ≡ t
skip-past s c t =
    let next : length s + 1 ≡ suc (length s) = omega arith in
    ap (λ n. skip n (s ++ c ∷ t)) next ∙ skip-next s c t

append_assoc : (xs ys zs : Text) → (xs ++ ys) ++ zs ≡ xs ++ (ys ++ zs)
append_assoc [] ys zs = refl
append_assoc (x ∷ xs) ys zs = ap (λ t. x ∷ t) (append_assoc xs ys zs)

strip_end-append :
    (s : Text) (c : ℕ) → is_blank c ≡ false → strip_end (s ++ c ∷ b' ' ∷ []) ≡ s ++ c ∷ []
unfolding strip_end
strip_end-append [] c h = ground arith
strip_end-append (d ∷ s) c h = ground (arith, strip_end-append s c, append-is_empty s c)

back_is-append : (s : Text) (c d : ℕ) → back_is c (d ∷ (s ++ c ∷ [])) ≡ true
unfolding back_is
back_is-append [] c d = ground arith
back_is-append (x ∷ s) c d = back_is-append s c x

unquote-quoted : (d : Text) → unquote (b'"' ∷ (d ++ b'"' ∷ [])) ≡ d
unfolding unquote skip
unquote-quoted d =
    ground
      (arith, back_is-append d b'"' b'"', length-append d (b'"' ∷ []), first-append d (b'"' ∷ []))

has-append : (c : ℕ) (s t : Text) → has c (s ++ t) ≡ (has c s || has c t)
has-append c [] t = refl
has-append c (d ∷ s) t = ground (arith, has-append c s t)

-- The display name in quotes and a space, before the URI in brackets.
abbrev pub quoted : Text → Text
quoted d = b'"' ∷ (d ++ b'"' ∷ b' ' ∷ [])

-- From a header with a quoted display name without an angle bracket, a space, and in brackets a URI without a
-- closing one, the display name and the URI are read, whatever follows.
pub parse_remote_info-quoted :
    (d u rest : Text)
    → has b'<' d ≡ false
    → has b'>' d ≡ false
    → has b'>' u ≡ false
    → parse_remote_info (quoted d ++ b'<' ∷ (u ++ b'>' ∷ rest))
      ≡ record { uri = u; display_name = d }
unfolding parse_remote_info
parse_remote_info-quoted d u rest no_open no_close closed =
    let p = quoted d in
    let raw = p ++ b'<' ∷ (u ++ b'>' ∷ rest) in
    let lt =
      index_of-append b'<' p (u ++ b'>' ∷ rest)
        (ground (arith, has-append b'<' d (b'"' ∷ b' ' ∷ []))) in
    let gt : index_of b'>' raw ≡ some (length p + suc (length u)) =
      ap (index_of b'>') (sym (append_assoc p (b'<' ∷ u) (b'>' ∷ rest)))
      ∙ index_of-append b'>' (p ++ b'<' ∷ u) rest
          (ground (arith, has-append b'>' d (b'"' ∷ b' ' ∷ []), has-append b'>' p (b'<' ∷ u)))
      ∙ ap some (length-append p (b'<' ∷ u)) in
    let after : ltb (length p) (length p + suc (length u)) ≡ true = ground arith in
    let count : length p + suc (length u) - length p - 1 ≡ length u = omega arith in
    let uri : substr (length p + 1) (length p + suc (length u) - length p - 1) raw ≡ u =
      ap (λ n. first n (skip (length p + 1) raw)) count
      ∙ ap (first (length u)) (skip-past p b'<' (u ++ b'>' ∷ rest))
      ∙ first-append u (b'>' ∷ rest) in
    let name : unquote (strip_end (first (length p) raw)) ≡ d =
      ap (λ t. unquote (strip_end t)) (first-append p (b'<' ∷ (u ++ b'>' ∷ rest)))
      ∙ ap unquote (strip_end-append (b'"' ∷ d) b'"' refl)
      ∙ unquote-quoted d in
    rw (lt, gt, after, parse_remote_info) (λ i. record { uri = uri i; display_name = name i })
