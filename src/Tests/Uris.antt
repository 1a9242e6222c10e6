-- ===== src/Tests/Uris.antt =====
-- The theorems about SIP targets at dialed strings.
use compact_phone.Base.{◌≡◌, refl, true, ◌||◌, [], ◌∷◌}
use compact_phone.Base.Text.{Text, codes, is_empty, text_eq}
use compact_phone.Account.{Transport}
use compact_phone.SipUri.{
  normalize_sip_target, sanitize_target, pieces, before, after, contains, remove_controls,
  keep_allowed, is_allowed, with_scheme, starts_with_scheme, trim, host_part, scheme_for,
}
use compact_phone.SipUri.Params.{keep, parameters}
use compact_phone.SipUri.Target

-- An extension with parameters and headers.
abbrev dialed : Text
dialed = codes "600;transport=tcp;lr;User=phone?Subject=x"

abbrev pbx : Text
pbx = codes "pbx"

sanitize_target_outcome_example :
    (pieces (sanitize_target dialed)
      ≡ codes "600" ∷ codes "transport=tcp" ∷ codes "User=phone" ∷ [])
    × (sanitize_target (sanitize_target dialed) ≡ sanitize_target dialed)
unfolding before keep remove_controls parameters after pieces is_allowed text_eq
sanitize_target_outcome_example = Target.sanitize_target_outcome dialed

normalize_sip_target_safe_example :
    Target.all_chars Target.is_safe (normalize_sip_target dialed pbx Transport.udp) ≡ true
normalize_sip_target_safe_example = Target.normalize_sip_target_safe dialed pbx Transport.udp refl

normalize_sip_target_scheme_example :
    let uri = normalize_sip_target dialed pbx Transport.udp in
    (is_empty uri ≡ is_empty (sanitize_target (trim dialed)))
    × (is_empty uri || starts_with_scheme uri ≡ true)
normalize_sip_target_scheme_example = Target.normalize_sip_target_scheme dialed pbx Transport.udp

-- The domain is put after the parameters, so they read as part of the user.
domain_after_parameters :
    normalize_sip_target (codes "600;transport=tcp") pbx Transport.udp
    ≡ codes "sip:600;transport=tcp@pbx"
unfolding normalize_sip_target with_scheme sanitize_target keep_allowed remove_controls trim text_eq
    starts_with_scheme scheme_for host_part contains
domain_after_parameters = refl
