-- ===== src/SipUri/Params.antt =====
-- The parameters of a dial target, as the pieces between its semicolons.
use compact_phone.Base.{
  ℕ, ◌≡◌, refl, sym, ap, ◌∙◌, Bool, true, false, not, ◌&&◌, none, some, List, [], ◌∷◌, ◌++◌, arith,
  ◌==◌, if◌then◌else◌, Option-cases, Bool-cases, inl, inr,
}
use compact_phone.Base.Text.{Text}
use compact_phone.SipUri.{
  before, after, contains, pieces, is_allowed, append_allowed, keep_allowed, push,
}
use mathlib.Core.List.{append_assoc, append-nil}

-- The pieces, glued together again.
join_rest : List Text → Text
join_rest [] = []
join_rest (p ∷ ps) = b';' ∷ (p ++ join_rest ps)

pub join : List Text → Text
unfolding join_rest
join [] = []
join (p ∷ ps) = p ++ join_rest ps

-- The parameters that the allowlist names.
unfoldable pub keep : List Text → List Text
keep [] = []
keep (p ∷ ps) = let rest = keep ps in if is_allowed p then p ∷ rest else rest

unfoldable pub parameters : Text → List Text
parameters s = elim (after b';' s) [ none ↦ [] | some params ↦ pieces params ]

pub pieces-before : (s : Text) → pieces s ≡ before b';' s ∷ parameters s
unfolding pieces before after parameters
pieces-before [] = refl
pieces-before (c ∷ s) = ground (arith, pieces-before s)

-- No piece holds a semicolon.
abbrev no_semicolons : List Text → Bool
no_semicolons [] = true
no_semicolons (p ∷ ps) = not (contains b';' p) && no_semicolons ps

no_semicolons-pieces : (s : Text) → no_semicolons (pieces s) ≡ true
unfolding pieces contains
no_semicolons-pieces [] = refl
no_semicolons-pieces (c ∷ s) = pushed c (pieces s) (no_semicolons-pieces s)
  where
    pushed :
        (d : ℕ) (ps : List Text)
        → no_semicolons ps ≡ true
        → no_semicolons (if d == b';' then [] ∷ ps else push d ps) ≡ true
    pushed d [] h = ground arith
    pushed d (p ∷ ps) h = ground arith

pieces-plain : (p : Text) → contains b';' p ≡ false → pieces p ≡ p ∷ []
unfolding pieces contains
pieces-plain [] h = refl
pieces-plain (c ∷ p) h = ground (arith, pieces-plain p)

pieces-append :
    (out p : Text) → contains b';' p ≡ false → pieces (out ++ b';' ∷ p) ≡ pieces out ++ p ∷ []
unfolding pieces
pieces-append [] p h = ground (arith, pieces-plain p h)
pieces-append (c ∷ out) p h = ground (arith, pieces-append out p h, pieces-before out)

pieces-append_allowed :
    (out : Text) (ps : List Text)
    → no_semicolons ps ≡ true
    → pieces (append_allowed out ps) ≡ pieces out ++ keep ps
unfolding append_allowed keep
pieces-append_allowed out [] h = sym (append-nil (pieces out))
pieces-append_allowed out (p ∷ ps) h = elim (Bool-cases (is_allowed p)) [
  | inl allowed ↦ rw allowed (
      pieces-append_allowed (out ++ b';' ∷ p) ps (ground arith)
      ∙ rw (pieces-append out p (ground arith)) (append_assoc (pieces out) (p ∷ []) (keep ps)))
  | inr other ↦ rw other (pieces-append_allowed out ps (ground arith))
]

no_semicolons-parameters : (s : Text) → no_semicolons (parameters s) ≡ true
unfolding parameters
no_semicolons-parameters s = elim (Option-cases (after b';' s)) [
  | inl e ↦ rw (e, parameters)
  | inr (params, e) ↦ rw (e, parameters) (no_semicolons-pieces params)
]

before-plain : (s : Text) → contains b';' (before b';' s) ≡ false
unfolding before contains
before-plain [] = refl
before-plain (c ∷ s) = ground (arith, before-plain s)

-- What is kept of a text: its first piece, and of the others those that the allowlist names.
pub pieces-keep_allowed : (s : Text) → pieces (keep_allowed s) ≡ before b';' s ∷ keep (parameters s)
unfolding keep_allowed parameters keep
pieces-keep_allowed s = elim (Option-cases (after b';' s)) [
  | inl e ↦ rw (e, keep_allowed) (pieces-before s ∙ rw (e, parameters, keep))
  | inr (params, e) ↦
      rw (e, keep_allowed)
        (pieces-append_allowed (before b';' s) (pieces params) (no_semicolons-pieces params)
          ∙ rw (pieces-plain (before b';' s) (before-plain s), e, parameters))
]

join-pieces : (s : Text) → join (pieces s) ≡ s
unfolding join pieces
join-pieces [] = refl
join-pieces (c ∷ s) = ground (arith, join-pieces s, pieces-before s)

-- A text is told by its pieces.
pub pieces-injective : (s t : Text) → pieces s ≡ pieces t → s ≡ t
pieces-injective s t e = sym (join-pieces s) ∙ ap join e ∙ join-pieces t

pub keep_idem : (ps : List Text) → keep (keep ps) ≡ keep ps
unfolding keep
keep_idem [] = refl
keep_idem (p ∷ ps) = ground (arith, keep_idem ps)
