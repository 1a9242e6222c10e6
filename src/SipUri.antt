-- ===== src/SipUri.antt =====
-- src/core/SipUri.cpp: from what the user dialed to a SIP URI. Characters are the bytes of the string,
-- classified as in the C locale.
pub mod Params
pub mod Target
use compact_phone.Base.{
  ℕ, ◌+◌, Bool, true, false, not, ◌&&◌, ◌||◌, Option, none, some, List, [], ◌∷◌, ◌++◌, ltb, leb,
  ◌==◌, if◌then◌else◌,
}
use compact_phone.Base.Text.{Text, codes, is_empty, text_eq}
use compact_phone.Account.{Transport}

unfoldable pub is_space : ℕ → Bool
is_space c = c == 0x20 || leb 0x09 c && leb c 0x0d

unfoldable pub skip_spaces : Text → Text
skip_spaces [] = []
skip_spaces (c ∷ s) = let rest = skip_spaces s in if is_space c then rest else c ∷ s

-- The text without the spaces at its end.
unfoldable pub cut_spaces : Text → Text
cut_spaces [] = []
cut_spaces (c ∷ s) = let rest = cut_spaces s in if is_empty rest && is_space c then [] else c ∷ rest

unfoldable pub trim : Text → Text
unfolding skip_spaces cut_spaces is_space
trim s = cut_spaces (skip_spaces s)

unfoldable pub to_lower_char : ℕ → ℕ
to_lower_char c = if leb b'A' c && leb c b'Z' then c + 32 else c

unfoldable pub to_lower : Text → Text
unfolding to_lower_char
to_lower [] = []
to_lower (c ∷ s) = to_lower_char c ∷ to_lower s

-- `ieq(s, 0, needle)`
unfoldable pub ieq : Text → Text → Bool
unfolding to_lower_char
ieq s [] = true
ieq [] (n ∷ needle) = false
ieq (c ∷ s) (n ∷ needle) = to_lower_char c == n && ieq s needle

unfoldable pub starts_with_scheme : Text → Bool
unfolding ieq
starts_with_scheme s = ieq s (codes "sip:") || ieq s (codes "sips:")

unfoldable pub scheme_for : Transport → Text
scheme_for Transport.tls = codes "sips:"
scheme_for _ = codes "sip:"

-- A character that `sanitizeTarget` keeps.
abbrev pub is_plain : ℕ → Bool
is_plain c = not (ltb c 0x20 || c == 0x7f)

unfoldable pub remove_controls : Text → Text
remove_controls [] = []
remove_controls (c ∷ s) = let rest = remove_controls s in if is_plain c then c ∷ rest else rest

-- Up to the first `sep`, or all.
unfoldable pub before : ℕ → Text → Text
before sep [] = []
before sep (c ∷ s) = let rest = before sep s in if c == sep then [] else c ∷ rest

-- What follows the first `sep`, if there is one.
unfoldable pub after : ℕ → Text → Option Text
after sep [] = none
after sep (c ∷ s) = let rest = after sep s in if c == sep then some s else rest

-- `s.find(c) != npos`
unfoldable pub contains : ℕ → Text → Bool
contains c [] = false
contains c (d ∷ s) = d == c || contains c s

abbrev push : ℕ → List Text → List Text
push c [] = (c ∷ []) ∷ []
push c (p ∷ ps) = (c ∷ p) ∷ ps

-- The pieces between the semicolons, which the loop over the parameters visits in turn.
unfoldable pub pieces : Text → List Text
pieces [] = [] ∷ []
pieces (c ∷ s) = let rest = pieces s in if c == b';' then [] ∷ rest else push c rest

-- The test in the loop: not empty, and named `transport` or `user` up to case.
unfoldable pub is_allowed : Text → Bool
unfolding before to_lower
is_allowed param =
    let name = to_lower (before b'=' param) in
    not (is_empty param) && (text_eq name (codes "transport") || text_eq name (codes "user"))

unfoldable pub append_allowed : Text → List Text → Text
append_allowed out [] = out
append_allowed out (p ∷ ps) = append_allowed (if is_allowed p then out ++ b';' ∷ p else out) ps

unfoldable pub keep_allowed : Text → Text
unfolding after before pieces append_allowed is_allowed
keep_allowed s = elim (after b';' s) [
  | none ↦ s
  | some params ↦ append_allowed (before b';' s) (pieces params)
]

unfoldable pub sanitize_target : Text → Text
sanitize_target s = keep_allowed (before b'?' (remove_controls s))

-- The `@domain` that an extension gets.
unfoldable pub host_part : Text → Text → Text
host_part domain clean =
    if not (contains b'@' clean) && not (is_empty domain) then b'@' ∷ domain else []

-- `normalizeSipTarget` after `cleanTarget` has been computed.
unfoldable pub with_scheme : Text → Transport → Text → Text
with_scheme domain transport clean =
    if is_empty clean
    then []
    else if starts_with_scheme clean
    then clean
    else scheme_for transport ++ (clean ++ host_part domain clean)

unfoldable pub normalize_sip_target : Text → Text → Transport → Text
normalize_sip_target target domain transport =
    with_scheme domain transport (sanitize_target (trim target))
