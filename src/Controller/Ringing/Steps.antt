-- ===== src/Controller/Ringing/Steps.antt =====
-- What the listeners are told of the ringing state over the histories of the controller:
-- src/core/CallsController.cpp, its commands, single shots and queued handlers.
use compact_phone.Base.{
  ℕ, ℤ, refl, Bool, true, false, Option, none, some, List, [], ◌∷◌, arith, negsuc,
}
use compact_phone.Base.Text.{Text}
use compact_phone.Account.{AccountsView}
use compact_phone.Backend.{SipBackend}
use compact_phone.Calls.Commands
use compact_phone.Calls.Active
use compact_phone.Calls.Events
use compact_phone.Controller.{CallsController, CallSettings, Host, Notice, Deferred, notify}
use compact_phone.Controller.Incoming
use compact_phone.Controller.Actions
use compact_phone.Controller.Loop.{Input, step, run, init, on_deferred, on_queued}
use compact_phone.Controller.Ringing.{
  IsTold, publish_ringing-IsTold, with_calls-IsTold, with_result-IsTold, start_recording_of-IsTold,
  on_call_event-IsTold,
}

module _ {B : Type 0} (sip : SipBackend B) (host : Host) where
  place-IsTold :
      (am : Option AccountsView) (s : Option CallSettings) (now : ℕ) (aid : ℤ) (target : Text)
      (c : CallsController B)
      → IsTold c
      → IsTold (Actions.place sip host am s now aid target c)
  unfolding Actions.place
  place-IsTold none s now aid target c h =
      ground (arith, with_result-IsTold sip host s now (Commands.make_call sip none aid target) c h)
  place-IsTold (some a) s now aid target c h = ground (
    arith,
    with_result-IsTold sip host s now (Commands.make_call sip (some a) aid target) c h,
    with_result-IsTold sip host s now (Commands.make_default_call sip (some a) target) c h,
  )

  note_dialed-IsTold :
      (now : ℕ) (account : ℤ) (target : Text) (c : CallsController B)
      → IsTold c
      → IsTold (Actions.note_dialed sip host now account target c)
  unfolding Actions.note_dialed
  note_dialed-IsTold now account target c h = ground arith

  dial-IsTold :
      (am : Option AccountsView) (s : Option CallSettings) (now : ℕ) (aid : ℤ) (uri : Text)
      (c : CallsController B)
      → IsTold c
      → IsTold (Actions.dial sip host am s now aid uri c)
  unfolding Actions.dial
  dial-IsTold am s now aid uri c h =
      let account = Actions.resolved_id am aid in
      let target = Actions.target_for am account (host.trimmed uri) in
      ground (
        arith,
        note_dialed-IsTold now account target (Actions.place sip host am s now aid target c)
            (place-IsTold am s now aid target c h),
      )

  settle_incoming-IsTold :
      (x : Bool × CallsController B) → IsTold x.1 → IsTold (Actions.settle_incoming sip host x).1
  unfolding Actions.settle_incoming
  settle_incoming-IsTold (true, c) h =
      publish_ringing-IsTold
        (notify Notice.incoming_call_changed
          (record c { incoming_call_id = negsuc 0; incoming_call_from = [] }))
        h
  settle_incoming-IsTold (false, c) h = h

  accept_incoming-IsTold :
      (s : Option CallSettings) (now : ℕ) (c : CallsController B)
      → IsTold c
      → IsTold (Actions.accept_incoming sip host s now c).1
  unfolding Actions.accept_incoming
  accept_incoming-IsTold s now c h = ground (
    arith,
    settle_incoming-IsTold
        (Actions.with_result sip host s now (Commands.accept sip c.incoming_call_id) c)
        (with_result-IsTold sip host s now (Commands.accept sip c.incoming_call_id) c h),
  )

  decline_incoming-IsTold :
      (s : Option CallSettings) (now : ℕ) (c : CallsController B)
      → IsTold c
      → IsTold (Actions.decline_incoming sip host s now c).1
  unfolding Actions.decline_incoming
  decline_incoming-IsTold s now c h = ground (
    arith,
    settle_incoming-IsTold
        (Actions.with_result sip host s now (Commands.decline sip c.incoming_call_id) c)
        (with_result-IsTold sip host s now (Commands.decline sip c.incoming_call_id) c h),
  )

  on_deferred-IsTold :
      (s : Option CallSettings) (now : ℕ) (d : Deferred) (c : CallsController B)
      → IsTold c
      → IsTold (on_deferred sip host s now d c)
  unfolding on_deferred
  on_deferred-IsTold s now (Deferred.answer_later id) c h =
      ground (arith, with_calls-IsTold sip host s now (λ m. (Commands.accept sip id m).1) c h)
  on_deferred-IsTold s now (Deferred.forward_later id target) c h =
      ground (
        arith,
        with_calls-IsTold sip host s now (λ m. (Commands.forward_call sip id target m).1) c h,
      )
  on_deferred-IsTold s now (Deferred.record_later id) c h =
      start_recording_of-IsTold sip host s id c h

  on_queued-IsTold :
      (s : Option CallSettings) (now : ℕ) (c : CallsController B)
      → IsTold c
      → IsTold (on_queued sip host s now c)
  unfolding on_queued
  on_queued-IsTold s now c h =
      elim c.queued
        as (λ q. IsTold (elim q [
          | [] ↦ c
          | (id, state) ∷ rest ↦
              Incoming.on_call_event sip host s now id state (record c { queued = rest })
        ])) [
          | [] ↦ h
          | (id, state) ∷ rest ↦
              on_call_event-IsTold sip host s now id state (record c { queued = rest }) h
        ]

  step-IsTold :
      (am : Option AccountsView) (s : Option CallSettings) (now : ℕ) (i : Input)
      (c : CallsController B)
      → IsTold c
      → IsTold (step sip host am s now i c)
  unfolding step Actions.hangup Actions.hold Actions.unhold Actions.stop_recording Actions.set_muted
      Actions.send_dtmf Actions.blind_transfer Actions.attended_transfer Actions.merge_calls
  step-IsTold am s now (Input.dial aid uri) c h = dial-IsTold am s now aid uri c h
  step-IsTold am s now (Input.hangup id) c h =
      ground (arith, with_calls-IsTold sip host s now (Commands.hangup sip id) c h)
  step-IsTold am s now (Input.hold id) c h =
      with_result-IsTold sip host s now (Active.hold sip id) c h
  step-IsTold am s now (Input.unhold id) c h =
      with_result-IsTold sip host s now (Active.unhold sip id) c h
  step-IsTold am s now (Input.stop_recording id) c h =
      ground (arith, with_result-IsTold sip host s now (Commands.stop_recording sip id) c h)
  step-IsTold am s now (Input.start_recording id) c h = start_recording_of-IsTold sip host s id c h
  step-IsTold am s now (Input.set_muted id muted) c h =
      with_result-IsTold sip host s now (Commands.set_muted sip id muted) c h
  step-IsTold am s now (Input.send_dtmf id digits) c h =
      with_result-IsTold sip host s now (Commands.send_dtmf sip am id digits) c h
  step-IsTold am s now (Input.blind_transfer id uri) c h =
      with_result-IsTold sip host s now
        (Commands.blind_transfer sip id
          (Actions.transfer_target am (Actions.account_of sip host id c) uri))
        c h
  step-IsTold am s now (Input.attended_transfer a d) c h =
      with_result-IsTold sip host s now (Commands.attended_transfer sip a d) c h
  step-IsTold am s now (Input.merge_calls a d) c h =
      with_result-IsTold sip host s now (Active.merge_calls sip a d) c h
  step-IsTold am s now Input.accept_incoming c h = accept_incoming-IsTold s now c h
  step-IsTold am s now Input.decline_incoming c h = decline_incoming-IsTold s now c h
  step-IsTold am s now (Input.event e) c h =
      with_calls-IsTold sip host s now (Events.on_event sip am e) c h
  step-IsTold am s now (Input.timer t) c h =
      with_calls-IsTold sip host s now (Events.on_timer sip t) c h
  step-IsTold am s now (Input.deferred d) c h = on_deferred-IsTold s now d c h
  step-IsTold am s now Input.queued c h = on_queued-IsTold s now c h

  run-IsTold :
      (is : List (Option AccountsView × Option CallSettings × ℕ × Input)) (c : CallsController B)
      → IsTold c
      → IsTold (run sip host is c)
  unfolding run
  run-IsTold [] c h = h
  run-IsTold ((am, s, now, i) ∷ is) c h =
      run-IsTold is (step sip host am s now i c) (step-IsTold am s now i c h)

  -- After any history of the controller from its start, with whatever settings, accounts and clock at
  -- each step: its listeners were told of each change of the ringing state and of nothing else, so the
  -- notices turn in turn on and off, and the last one is the state as it stands.
  pub run-init-IsTold :
      (b : B) (is : List (Option AccountsView × Option CallSettings × ℕ × Input))
      → IsTold (run sip host is (init b))
  unfolding init
  run-init-IsTold b is = run-IsTold is (init b) (refl, refl)
