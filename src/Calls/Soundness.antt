-- ===== src/Calls/Soundness.antt =====
-- Every event, single shot and history keeps the invariant of src/core/CallManager.cpp that
-- Calls/Invariant.antt states.
use compact_phone.Base.{
  ℤ, ◌≡◌, refl, sym, Bool, true, false, Option, none, some, List, [], ◌∷◌, arith, z_eq_iff,
  invalid_id, inl, inr, Bool-cases, Option-cases,
}
use compact_phone.Base.Dict.{lookup, is_some, modify, lookup-modify}
use compact_phone.Base.Text.{Text}
use compact_phone.Account.{AccountsView}
use compact_phone.Backend.{SipBackend, CallState, Event, is_disconnected}
use compact_phone.Calls.{CallRecord, CallManager, Timer, Signal}
use compact_phone.Calls.Active.{is_live, set_state, unhold}
use compact_phone.Calls.Commands.{decline, forward_call, hangup, send_dtmf}
use compact_phone.Calls.Events.{
  on_incoming_call, on_call_state, hangup_transfer_legs, handle_transfer_status, on_event, on_timer,
}
use compact_phone.Calls.Transfers.{take_legs_to_hangup, take_legs_outcome}
use compact_phone.Calls.Invariant.{
  IsSound, hold-IsSound, request_unhold-IsSound, wire_bridge-IsSound, merge_calls-IsSound,
  erase_lingering-IsSound, handle_disconnected-IsSound,
}
use compact_phone.Calls.Run.{Input, init, step, run}
use compact_phone.Calls.Upkeep.{
  added-IsSound, make_call-IsSound, make_default_call-IsSound, accept-IsSound,
  start_recording-IsSound, stop_recording-IsSound, play_audio_file-IsSound, stop_audio_file-IsSound,
  set_muted-IsSound, blind_transfer-IsSound, attended_transfer-IsSound,
}

module _ {B : Type 0} (sip : SipBackend B) (k : ℤ) where
  on_incoming_call-IsSound :
      (am : Option AccountsView) (acc id : ℤ) (uri name : Text) (m : CallManager B)
      → IsSound k m
      → IsSound k (on_incoming_call sip am acc id uri name m)
  unfolding on_incoming_call
  on_incoming_call-IsSound none acc id uri name m h =
      ground (arith, added-IsSound sip k id invalid_id uri name true m.backend m h)
  on_incoming_call-IsSound (some am) acc id uri name m h =
      ground
        (arith, added-IsSound sip k id (am.account_id_for_backend acc) uri name true m.backend m h)

  -- A write to one record leaves what is known at another id, and a state other than disconnected
  -- keeps the invariant at its own.
  moved-IsSound :
      (id : ℤ) (f : CallRecord → CallRecord) (signals : List Signal) (m : CallManager B)
      → (id ≡ k → (r : CallRecord) → is_disconnected (f r).state ≡ false)
      → IsSound k m
      → IsSound k (record m { records = modify id f m.records; signals = signals })
  moved-IsSound id f signals m up h = elim (Option-cases (lookup k m.records)) [
    | inl gone ↦ ground (arith, lookup-modify k id f m.records)
    | inr (r, e) ↦
        ground (arith, z_eq_iff id k, lookup-modify k id f m.records, λ (e : id ≡ k). up e r)
  ]

  on_call_state-IsSound :
      (id : ℤ) (s : CallState) (code : ℤ) (m : CallManager B)
      → IsSound k m
      → IsSound k (on_call_state sip id s code m)
  unfolding on_call_state
  on_call_state-IsSound id s code m h = elim (Bool-cases (is_live id m)) [
    | inr gone ↦ rw (gone, on_call_state) h
    | inl live ↦ elim (Bool-cases (is_disconnected s)) [
      | inr up ↦ rw (live, up, on_call_state) (moved-IsSound id (set_state s) _ m (λ _ _. up) h)
      | inl down ↦
          rw (live, down, on_call_state)
            (handle_disconnected-IsSound sip k id _ (kept_live live) (λ ne.
              moved-IsSound id (λ r. record r { last_status_code = code; state = s }) _ m
                (λ e _. absurd (ne e)) h))
    ]
  ]
    where
      kept_live :
          is_live id m ≡ true
          → is_some (
              lookup id (
                modify id
                  (λ (r : CallRecord). record r { last_status_code = code; state = s })
                  m.records))
            ≡ true
      kept_live live = ground (
        arith,
        lookup-modify id id (λ (r : CallRecord). record r { last_status_code = code; state = s })
            m.records,
      )

  hangup_transfer_legs-IsSound :
      (ids : List ℤ) (m : CallManager B) → IsSound k m → IsSound k (hangup_transfer_legs sip ids m)
  unfolding hangup_transfer_legs
  hangup_transfer_legs-IsSound [] m h = h
  hangup_transfer_legs-IsSound (id ∷ ids) m h = hangup_transfer_legs-IsSound ids _ (ground arith)

  handle_transfer_status-IsSound :
      (id code : ℤ) (final : Bool) (m : CallManager B)
      → IsSound k m
      → IsSound k (handle_transfer_status sip id code final m)
  unfolding handle_transfer_status
  handle_transfer_status-IsSound id code final m h =
      let (legs, pending) = take_legs_to_hangup id code final m.transfers in
      hangup_transfer_legs-IsSound legs (record m { transfers = pending })
        (ground (arith, take_legs_outcome id code final m.transfers k))

  on_event-IsSound :
      (am : Option AccountsView) (e : Event) (m : CallManager B)
      → IsSound k m
      → IsSound k (on_event sip am e m)
  unfolding on_event
  on_event-IsSound am (Event.incoming_call acc id uri name) m h =
      on_incoming_call-IsSound am acc id uri name m h
  on_event-IsSound am (Event.call_state id s code) m h = on_call_state-IsSound id s code m h
  on_event-IsSound am (Event.transfer_status id code final reason) m h =
      handle_transfer_status-IsSound id code final m h
  on_event-IsSound am _ m h = h

  on_timer-IsSound : (t : Timer) (m : CallManager B) → IsSound k m → IsSound k (on_timer sip t m)
  unfolding on_timer
  on_timer-IsSound (Timer.erase_lingering id) m h = erase_lingering-IsSound sip k id m h
  on_timer-IsSound (Timer.retry_unhold id n) m h = request_unhold-IsSound sip k id n m h
  on_timer-IsSound (Timer.retry_bridge a b n) m h = wire_bridge-IsSound sip k a b n m h

  fresh : (b : B) → IsSound k (init b)
  unfolding init lookup
  fresh b = record {
    active_is_live = λ e n. absurd (n (sym e));
    pending_is_live = λ e. cc;
    live_is_up = refl;
    lingering_is_down = λ e. cc;
  }

  step-IsSound :
      (i : Option AccountsView × Input B) (m : CallManager B)
      → IsSound k m
      → IsSound k (step sip i m)
  unfolding step decline forward_call hangup send_dtmf unhold
  step-IsSound (am, Input.make_call acc uri) m h = make_call-IsSound sip k am acc uri m h
  step-IsSound (am, Input.make_default_call uri) m h = make_default_call-IsSound sip k am uri m h
  step-IsSound (am, Input.accept id) m h = accept-IsSound sip k id m h
  step-IsSound (am, Input.decline id) m h = ground arith
  step-IsSound (am, Input.hold id) m h = hold-IsSound sip k id m h
  step-IsSound (am, Input.unhold id) m h = request_unhold-IsSound sip k id 5 m h
  step-IsSound (am, Input.stop_recording id) m h = stop_recording-IsSound sip k id m h
  step-IsSound (am, Input.stop_audio_file id) m h = stop_audio_file-IsSound sip k id m h
  step-IsSound (am, Input.hangup id) m h = ground arith
  step-IsSound (am, Input.forward_call id target) m h = ground arith
  step-IsSound (am, Input.start_recording id path) m h = start_recording-IsSound sip k id path m h
  step-IsSound (am, Input.blind_transfer id target) m h = blind_transfer-IsSound sip k id target m h
  step-IsSound (am, Input.send_dtmf id digits) m h = ground arith
  step-IsSound (am, Input.merge_calls a b) m h = merge_calls-IsSound sip k a b m h
  step-IsSound (am, Input.attended_transfer a d) m h = attended_transfer-IsSound sip k a d m h
  step-IsSound (am, Input.play_audio_file id path loop) m h =
      play_audio_file-IsSound sip k id path loop m h
  step-IsSound (am, Input.set_muted id muted) m h = set_muted-IsSound sip k id muted m h
  step-IsSound (am, Input.event e) m h = on_event-IsSound am e m h
  step-IsSound (am, Input.timer t) m h = on_timer-IsSound t m h
  step-IsSound (am, Input.backend_moves f) m h = ground arith

  run-IsSound :
      (is : List (Option AccountsView × Input B)) (m : CallManager B)
      → IsSound k m
      → IsSound k (run sip is m)
  unfolding run
  run-IsSound [] m h = h
  run-IsSound (i ∷ is) m h = run-IsSound is (step sip i m) (step-IsSound i m h)

  -- After any history of commands, backend events, single shots and moves of the backend, from the
  -- manager's start: the active call, if its id is a valid one, is live; a transfer that waits for its
  -- outcome belongs to a live call; no live call is disconnected, and every lingering one is.
  pub run-init-IsSound :
      (b : B) (is : List (Option AccountsView × Input B)) → IsSound k (run sip is (init b))
  run-init-IsSound b is = run-IsSound is (init b) (fresh b)
