-- ===== src/SipUri/Target.antt =====
-- The dial target after sanitizing and normalizing: src/core/SipUri.cpp, `sanitizeTarget` and
-- `normalizeSipTarget`.
use compact_phone.Base.{
  ℕ, ◌≡◌, refl, ◌∙◌, Bool, true, false, not, ◌&&◌, ◌||◌, some, List, [], ◌∷◌, ◌++◌, arith, ◌==◌,
  if◌then◌else◌, Option-cases, Bool-cases, inl, inr,
}
use compact_phone.Base.Text.{Text, is_empty}
use compact_phone.Account.{Transport}
use compact_phone.SipUri.{
  before, after, contains, pieces, is_allowed, append_allowed, keep_allowed, is_plain,
  remove_controls, sanitize_target, host_part, with_scheme, normalize_sip_target, trim,
  starts_with_scheme, scheme_for,
}
use compact_phone.SipUri.Params.{
  keep, parameters, pieces-keep_allowed, pieces-injective, keep_idem, pieces-before,
}

abbrev pub all_chars : (ℕ → Bool) → Text → Bool
all_chars ok [] = true
all_chars ok (c ∷ s) = ok c && all_chars ok s

-- Neither a control character nor the start of URI headers.
abbrev pub is_safe : ℕ → Bool
is_safe c = is_plain c && not (c == b'?')

module _ (ok : ℕ → Bool) where
  all_chars-append :
      (s t : Text) → all_chars ok s ≡ true → all_chars ok t ≡ true → all_chars ok (s ++ t) ≡ true
  all_chars-append [] t h k = k
  all_chars-append (c ∷ s) t h k = ground (arith, all_chars-append s t)

  all_chars-before :
      (sep : ℕ) (s : Text) → all_chars ok s ≡ true → all_chars ok (before sep s) ≡ true
  unfolding before
  all_chars-before sep [] h = refl
  all_chars-before sep (c ∷ s) h = ground (arith, all_chars-before sep s)

  abbrev all_pieces : List Text → Bool
  all_pieces [] = true
  all_pieces (p ∷ ps) = all_chars ok p && all_pieces ps

  all_pieces-pieces : (s : Text) → all_chars ok s ≡ true → all_pieces (pieces s) ≡ true
  unfolding pieces
  all_pieces-pieces [] h = refl
  all_pieces-pieces (c ∷ s) h = ground (arith, all_pieces-pieces s, pieces-before s)

  all_chars-after :
      (sep : ℕ) (s t : Text) → all_chars ok s ≡ true → after sep s ≡ some t → all_chars ok t ≡ true
  unfolding after
  all_chars-after sep [] t h e = cc
  all_chars-after sep (c ∷ s) t h e = ground (arith, all_chars-after sep s t)

  all_chars-append_allowed :
      (out : Text) (ps : List Text)
      → ok b';' ≡ true
      → all_chars ok out ≡ true
      → all_pieces ps ≡ true
      → all_chars ok (append_allowed out ps) ≡ true
  unfolding append_allowed
  all_chars-append_allowed out [] semi h k = h
  all_chars-append_allowed out (p ∷ ps) semi h k =
      all_chars-append_allowed (if is_allowed p then out ++ b';' ∷ p else out) ps semi
        (ground (arith, all_chars-append out (b';' ∷ p))) (ground arith)

  all_chars-keep_allowed :
      (s : Text) → ok b';' ≡ true → all_chars ok s ≡ true → all_chars ok (keep_allowed s) ≡ true
  unfolding keep_allowed
  all_chars-keep_allowed s semi h = elim (Option-cases (after b';' s)) [
    | inl e ↦ rw (e, keep_allowed) h
    | inr (params, e) ↦
        rw (e, keep_allowed)
          (all_chars-append_allowed (before b';' s) (pieces params) semi (all_chars-before b';' s h)
            (all_pieces-pieces params (all_chars-after b';' s params h e)))
  ]

all_plain-remove_controls : (s : Text) → all_chars is_plain (remove_controls s) ≡ true
unfolding remove_controls
all_plain-remove_controls [] = refl
all_plain-remove_controls (c ∷ s) = ground (arith, all_plain-remove_controls s)

all_safe-before :
    (s : Text) → all_chars is_plain s ≡ true → all_chars is_safe (before b'?' s) ≡ true
unfolding before
all_safe-before [] h = refl
all_safe-before (c ∷ s) h = ground (arith, all_safe-before s)

-- What is left of a target once control characters and URI headers are cut off.
abbrev pub without_headers : Text → Text
without_headers s = before b'?' (remove_controls s)

all_safe-sanitize_target : (s : Text) → all_chars is_safe (sanitize_target s) ≡ true
unfolding sanitize_target
all_safe-sanitize_target s =
    all_chars-keep_allowed is_safe (without_headers s) refl
      (all_safe-before (remove_controls s) (all_plain-remove_controls s))

remove_controls-safe : (s : Text) → all_chars is_safe s ≡ true → remove_controls s ≡ s
unfolding remove_controls
remove_controls-safe [] h = refl
remove_controls-safe (c ∷ s) h = ground (arith, remove_controls-safe s)

before-safe : (s : Text) → all_chars is_safe s ≡ true → before b'?' s ≡ s
unfolding before
before-safe [] h = refl
before-safe (c ∷ s) h = ground (arith, before-safe s)

sanitized_pieces :
    (s : Text)
    → pieces (sanitize_target s)
      ≡ before b';' (without_headers s) ∷ keep (parameters (without_headers s))
unfolding sanitize_target
sanitized_pieces s = pieces-keep_allowed (without_headers s)

-- A safe text loses only parameters.
sanitize_target-safe :
    (s : Text)
    → all_chars is_safe s ≡ true
    → pieces (sanitize_target s) ≡ before b';' s ∷ keep (parameters s)
sanitize_target-safe s h = sanitized_pieces s ∙ rw (remove_controls-safe s h, before-safe s h)

resanitized :
    (s : Text) (p : Text) (ps : List Text)
    → pieces s ≡ p ∷ keep ps
    → all_chars is_safe s ≡ true
    → sanitize_target s ≡ s
resanitized s p ps e h =
    pieces-injective (sanitize_target s) s
      (ground (arith, sanitize_target-safe s h, pieces-before s, keep_idem ps))

-- Of the text without its control characters and headers, sanitizing keeps what stands before the
-- first parameter, and of the parameters exactly those named `transport` or `user`, in their order;
-- to sanitize the result again changes nothing.
pub sanitize_target_outcome :
    (s : Text)
    → (pieces (sanitize_target s)
        ≡ before b';' (without_headers s) ∷ keep (parameters (without_headers s)))
      × (sanitize_target (sanitize_target s) ≡ sanitize_target s)
sanitize_target_outcome s = (
  sanitized_pieces s,
  resanitized (sanitize_target s) _ _ (sanitized_pieces s) (all_safe-sanitize_target s),
)

scheme_safe : (transport : Transport) → all_chars is_safe (scheme_for transport) ≡ true
unfolding scheme_for
scheme_safe Transport.tls = refl
scheme_safe _ = refl

host_part_safe :
    (clean domain : Text)
    → all_chars is_safe domain ≡ true
    → all_chars is_safe (host_part domain clean) ≡ true
unfolding host_part
host_part_safe clean domain h =
    elim (Bool-cases (not (contains b'@' clean) && not (is_empty domain))) [
      | inl e ↦ rw e h
      | inr e ↦ rw e
    ]

with_scheme_safe :
    (clean domain : Text) (transport : Transport)
    → all_chars is_safe clean ≡ true
    → all_chars is_safe domain ≡ true
    → all_chars is_safe (with_scheme domain transport clean) ≡ true
unfolding with_scheme
with_scheme_safe clean domain transport h k = ground (
  arith,
  host_part_safe clean domain k,
  all_chars-append is_safe clean (host_part domain clean) h,
  all_chars-append is_safe (scheme_for transport) (clean ++ host_part domain clean)
      (scheme_safe transport),
)

-- No control character and no `?` reaches the URI, if the account's domain has none.
pub normalize_sip_target_safe :
    (target domain : Text) (transport : Transport)
    → all_chars is_safe domain ≡ true
    → all_chars is_safe (normalize_sip_target target domain transport) ≡ true
unfolding normalize_sip_target
normalize_sip_target_safe target domain transport h =
    with_scheme_safe (sanitize_target (trim target)) domain transport
      (all_safe-sanitize_target (trim target)) h

scheme_full : (transport : Transport) (s : Text) → is_empty (scheme_for transport ++ s) ≡ false
unfolding scheme_for
scheme_full Transport.tls s = refl
scheme_full _ s = refl

scheme_leads :
    (transport : Transport) (s : Text) → starts_with_scheme (scheme_for transport ++ s) ≡ true
unfolding starts_with_scheme scheme_for
scheme_leads Transport.tls s = refl
scheme_leads _ s = refl

with_scheme_scheme :
    (clean domain : Text) (transport : Transport)
    → let uri = with_scheme domain transport clean in
      (is_empty uri ≡ is_empty clean) × (is_empty uri || starts_with_scheme uri ≡ true)
unfolding with_scheme
with_scheme_scheme clean domain transport = ground (
  arith,
  scheme_leads transport (clean ++ host_part domain clean),
  scheme_full transport (clean ++ host_part domain clean),
)

-- The result is empty exactly if nothing is left of the trimmed target, and else has a SIP scheme.
pub normalize_sip_target_scheme :
    (target domain : Text) (transport : Transport)
    → let uri = normalize_sip_target target domain transport in
      (is_empty uri ≡ is_empty (sanitize_target (trim target)))
      × (is_empty uri || starts_with_scheme uri ≡ true)
unfolding normalize_sip_target
normalize_sip_target_scheme target domain transport =
    with_scheme_scheme (sanitize_target (trim target)) domain transport
