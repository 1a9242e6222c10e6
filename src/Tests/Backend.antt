-- ===== src/Tests/Backend.antt =====
-- The theorems about the event queue and the fake backend at short histories.
use compact_phone.Base.{
  ℕ, pos, ◌≡◌, ◌≢◌, refl, true, false, not, ◌&&◌, none, List, [], ◌∷◌, arith, z_eq, invalid_id,
  if◌then◌else◌, ◌⊎◌,
}
use compact_phone.Base.Dict.{lookup, insert, modify}
use compact_phone.Base.Text.{codes}
use compact_phone.Account.{
  Transport, SrtpMode, DtmfMethod, transport_to_string, transport_from_string, srtp_mode_to_string,
  srtp_mode_from_string, dtmf_method_to_string, dtmf_method_from_string, enum_strings_roundtrip,
}
use compact_phone.Backend.{is_confirmed, is_calling}
use compact_phone.Backend.Dispatch.{Op, drain, run, empty, drain_replays}
use compact_phone.Backend.Fake.Actions.{Action, init}
use compact_phone.Backend.Fake.Actions
use compact_phone.Backend.Fake.Calls
use compact_phone.Backend.Fake.Engine
use compact_phone.Backend.Fake.Invariant
use compact_phone.Tests.{settings}

enum_strings_roundtrip_example :
    (transport_from_string (transport_to_string Transport.tls) ≡ Transport.tls)
    × (srtp_mode_from_string (srtp_mode_to_string SrtpMode.required) ≡ SrtpMode.required)
    × (dtmf_method_from_string (dtmf_method_to_string DtmfMethod.info) ≡ DtmfMethod.info)
enum_strings_roundtrip_example =
    enum_strings_roundtrip Transport.tls SrtpMode.required DtmfMethod.info

-- Of the events 1, 2 and 3 the first is posted before the queue is invalidated.
drain_replays_example :
    (drain (run (Op.posts 1 ∷ Op.invalidates ∷ Op.posts 2 ∷ Op.posts 3 ∷ []) (empty {E = ℕ}))).0
    ≡ 2 ∷ 3 ∷ []
unfolding empty drain
drain_replays_example =
    drain_replays (Op.posts 1 ∷ Op.invalidates ∷ Op.posts 2 ∷ Op.posts 3 ∷ []) empty tt
      (omega arith)

abbrev ringing_out : List Action
ringing_out =
    Action.start ∷ Action.add_account settings ∷ Action.make_call (pos 1) (codes "sip:600@pbx") ∷ []

abbrev talking : List Action
talking =
    Action.start
    ∷ Action.add_account settings
    ∷ Action.make_call (pos 1) (codes "sip:600@pbx")
    ∷ Action.remote_answer (pos 1)
    ∷ []

capture_needs_talk_example :
    Calls.ready
      (λ c. is_confirmed c.state && not c.held && not c.muted)
      (pos 1)
      (Actions.run talking (init true))
    ≡ true
unfolding Actions.run Actions.step init Calls.is_capture_transmitting lookup
    Calls.simulate_remote_answer Calls.make_call Engine.add_account Engine.start insert z_eq modify
capture_needs_talk_example = Invariant.capture_needs_talk (pos 1) true talking refl

make_call_fresh_example :
    let b = Actions.run ringing_out (init true) in
    let (id, b') = Calls.make_call (pos 1) (codes "sip:601@pbx") b in
    let granted = b.running && Engine.has_account (pos 1) b in
    ((granted ≡ false) × (id ≡ invalid_id) × (b' ≡ b))
    ⊎ ((granted ≡ true)
        × (id ≢ invalid_id)
        × (lookup id b.calls ≡ none)
        × (Calls.ready (λ c. is_calling c.state && not c.inbound) id b' ≡ true)
        × (lookup (pos 1) b'.calls
            ≡ (if z_eq id (pos 1) then lookup id b'.calls else lookup (pos 1) b.calls)))
make_call_fresh_example =
    Invariant.make_call_fresh (pos 1) (pos 1) (codes "sip:601@pbx") true ringing_out
