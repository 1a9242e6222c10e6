-- ===== src/Tests/Dialing.antt =====
-- The theorem about repeated dials at one target.
use compact_phone.Base.{pos, ◌≡◌, refl, none, some, [], z_eq}
use compact_phone.Base.Text.{codes}
use compact_phone.Backend.Fake.Calls.{fake_backend, make_call}
use compact_phone.Sessions.{has_live_outbound_to}
use compact_phone.SipUri.{
  with_scheme, sanitize_target, keep_allowed, remove_controls, trim, starts_with_scheme, scheme_for,
}
use compact_phone.Base.Dict.{lookup}
use compact_phone.Sessions.Dialed.{note_all}
use compact_phone.Controller.Actions.{dial, target_for}
use compact_phone.Controller.Dialing
use compact_phone.Tests.{accounts, host, controller}

dial_again_example :
    let once = dial fake_backend host (some accounts) none 1000 (pos 1) (codes "600") controller in
    dial fake_backend host (some accounts) none 1100 (pos 1) (codes "600") once ≡ once
unfolding target_for z_eq with_scheme sanitize_target keep_allowed remove_controls trim
    starts_with_scheme scheme_for has_live_outbound_to dial make_call lookup note_all
dial_again_example =
    Dialing.dial_again fake_backend host (some accounts) none none 1000 1100 (pos 1) (codes "600")
      [] controller
      (dial fake_backend host (some accounts) none 1000 (pos 1) (codes "600") controller) refl refl
      refl refl refl refl
