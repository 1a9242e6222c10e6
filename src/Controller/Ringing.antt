-- ===== src/Controller/Ringing.antt =====
-- The ringing state of the controller and what its listeners are told of it: `publishRingingState` in
-- src/core/CallsController.cpp, over every history of the controller.
pub mod Steps
use compact_phone.Base.{
  ℕ, ℤ, ◌≡◌, refl, Bool, true, false, not, ◌&&◌, Option, none, some, List, [], ◌∷◌, arith,
  if◌then◌else◌, z_eq, leb_ℤ, ltb_ℤ, pos, negsuc, Bool-cases, Option-cases, inl, inr,
}
use compact_phone.Base.Text.{Text}
use compact_phone.Account.{AccountsView}
use compact_phone.Backend.{SipBackend, CallState, is_disconnected}
use compact_phone.Calls.{CallManager, Signal}
use compact_phone.Calls.Commands
use compact_phone.Controller.{
  CallsController, CallSettings, Host, Notice, Deferred, notify, publish_ringing_state,
  snapshot_is_ringing, aggregate_call_state,
}
use compact_phone.Controller.Incoming
use compact_phone.Controller.Actions
use compact_phone.Controller.Loop.{Input, step, run, init, on_deferred, on_queued}

-- What the listeners were told last.
abbrev pub told : List Notice → Bool
told [] = false
told (Notice.ringing_changed b ∷ ns) = b
told (_ ∷ ns) = told ns

-- Whether each notice tells of a change.
abbrev pub alternates : List Notice → Bool
alternates [] = true
alternates (Notice.ringing_changed true ∷ ns) = not (told ns) && alternates ns
alternates (Notice.ringing_changed false ∷ ns) = told ns && alternates ns
alternates (_ ∷ ns) = alternates ns

abbrev pub IsTold : {B : Type 0} → CallsController B → Type 0
IsTold c = (told c.notices ≡ c.ringing) × (alternates c.notices ≡ true)

publish_ringing_state-IsTold :
    {B : Type 0} (now : Bool) (c : CallsController B)
    → IsTold c
    → IsTold (publish_ringing_state now c)
unfolding publish_ringing_state
publish_ringing_state-IsTold true c h = ground arith
publish_ringing_state-IsTold false c h = ground arith

pub publish_ringing-IsTold :
    {B : Type 0} (c : CallsController B) → IsTold c → IsTold (Incoming.publish_ringing c)
unfolding Incoming.publish_ringing
publish_ringing-IsTold c h = publish_ringing_state-IsTold _ c h

on_calls_changed-IsTold :
    {B : Type 0} (c : CallsController B) → IsTold c → IsTold (Incoming.on_calls_changed c)
unfolding Incoming.on_calls_changed
on_calls_changed-IsTold c h = publish_ringing-IsTold _ (ground arith)

note_ringing-IsTold :
    {B : Type 0} (id : ℤ) (now : ℕ) (c : CallsController B)
    → IsTold c
    → IsTold (Incoming.note_ringing id now c)
unfolding Incoming.note_ringing
note_ringing-IsTold id now c h = ground arith

module _ {B : Type 0} (sip : SipBackend B) (host : Host) where
  arm_later-IsTold :
      (s : CallSettings) (id : ℤ) (c : CallsController B)
      → IsTold c
      → IsTold (Incoming.arm_later sip host s id c)
  unfolding Incoming.arm_later
  arm_later-IsTold s id c h = ground arith

  answer_or_forward_later-IsTold :
      (s : CallSettings) (id : ℤ) (c : CallsController B)
      → IsTold c
      → IsTold (Incoming.answer_or_forward_later sip host s id c)
  unfolding Incoming.answer_or_forward_later
  answer_or_forward_later-IsTold s id c h =
      publish_ringing-IsTold (Incoming.arm_later sip host s id c) (arm_later-IsTold s id c h)

  forward_if_busy-IsTold :
      (s : CallSettings) (id : ℤ) (c : CallsController B)
      → IsTold c
      → IsTold (Incoming.forward_if_busy sip host s id c)
  unfolding Incoming.forward_if_busy
  forward_if_busy-IsTold s id c h = ground (arith, answer_or_forward_later-IsTold s id c h)

  decide_incoming-IsTold :
      (s : CallSettings) (id : ℤ) (c : CallsController B)
      → IsTold c
      → IsTold (Incoming.decide_incoming sip host s id c)
  unfolding Incoming.decide_incoming
  decide_incoming-IsTold s id c h = ground (arith, forward_if_busy-IsTold s id c h)

  on_signal-IsTold :
      (s : Option CallSettings) (now : ℕ) (x : Signal) (c : CallsController B)
      → IsTold c
      → IsTold (Incoming.on_signal sip host s now x c)
  unfolding Incoming.on_signal Incoming.on_incoming_call
  on_signal-IsTold s now Signal.calls_changed c h = on_calls_changed-IsTold c h
  on_signal-IsTold none now (Signal.incoming_call id) c h =
      publish_ringing-IsTold (Incoming.note_ringing id now c) (note_ringing-IsTold id now c h)
  on_signal-IsTold (some s) now (Signal.incoming_call id) c h =
      decide_incoming-IsTold s id _ (note_ringing-IsTold id now c h)
  on_signal-IsTold s now (Signal.call_state_changed state) c h = h
  on_signal-IsTold s now (Signal.call_event id state) c h = h

  on_signals-IsTold :
      (s : Option CallSettings) (now : ℕ) (xs : List Signal) (c : CallsController B)
      → IsTold c
      → IsTold (Incoming.on_signals sip host s now xs c)
  unfolding Incoming.on_signals
  on_signals-IsTold s now [] c h = h
  on_signals-IsTold s now (x ∷ xs) c h = on_signal-IsTold s now x _ (on_signals-IsTold s now xs c h)

  pub with_calls-IsTold :
      (s : Option CallSettings) (now : ℕ) (f : CallManager B → CallManager B)
      (c : CallsController B)
      → IsTold c
      → IsTold (Incoming.with_calls sip host s now f c)
  unfolding Incoming.with_calls
  with_calls-IsTold s now f c h =
      let m = f (record c.calls { signals = [] }) in
      on_signals-IsTold s now m.signals (record c { calls = m }) h

  pub with_result-IsTold :
      {A : Type 0} (s : Option CallSettings) (now : ℕ) (f : CallManager B → A × CallManager B)
      (c : CallsController B)
      → IsTold c
      → IsTold (Actions.with_result sip host s now f c).1
  unfolding Actions.with_result
  with_result-IsTold s now f c h =
      let m = (f (record c.calls { signals = [] })).1 in
      on_signals-IsTold s now m.signals (record c { calls = m }) h

  pub start_recording_of-IsTold :
      (s : Option CallSettings) (id : ℤ) (c : CallsController B)
      → IsTold c
      → IsTold (Incoming.start_recording_of sip host s id c).1
  unfolding Incoming.start_recording_of
  start_recording_of-IsTold none id c h = h
  start_recording_of-IsTold (some s) id c h = ground arith

  note_event-IsTold :
      (now : ℕ) (id : ℤ) (s : CallState) (c : CallsController B)
      → IsTold c
      → IsTold (Incoming.note_event sip host now id s c)
  unfolding Incoming.note_event
  note_event-IsTold now id s c h = ground arith

  end_ringing-IsTold :
      (id : ℤ) (s : CallState) (c : CallsController B)
      → IsTold c
      → IsTold (Incoming.end_ringing sip host id s c)
  unfolding Incoming.end_ringing
  end_ringing-IsTold id s c h = ground arith

  auto_record-IsTold :
      (settings : Option CallSettings) (id : ℤ) (s : CallState) (c : CallsController B)
      → IsTold c
      → IsTold (Incoming.auto_record sip host settings id s c)
  unfolding Incoming.auto_record
  auto_record-IsTold settings id s c h = ground (arith, start_recording_of-IsTold settings id c h)

  pub on_call_event-IsTold :
      (settings : Option CallSettings) (now : ℕ) (id : ℤ) (s : CallState) (c : CallsController B)
      → IsTold c
      → IsTold (Incoming.on_call_event sip host settings now id s c)
  unfolding Incoming.on_call_event
  on_call_event-IsTold settings now id s c h =
      let noted = Incoming.note_event sip host now id s c in
      let current =
        if is_disconnected s && z_eq id c.current_call_id then negsuc 0 else c.current_call_id in
      let snap = Commands.snapshot c.calls in
      let next = record noted {
        current_call_id = current;
        call_state = aggregate_call_state snap s;
      } in
      auto_record-IsTold settings id s _ (
        end_ringing-IsTold id s _ (
          publish_ringing_state-IsTold (snapshot_is_ringing snap) next
            (note_event-IsTold now id s c h)))
