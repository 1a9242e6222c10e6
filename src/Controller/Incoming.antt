-- ===== src/Controller/Incoming.antt =====
-- src/core/CallsController.cpp: what the controller does on the signals of the call manager, with the
-- policy for an incoming call. The controller's slots run inside the emission; they are modelled after
-- the manager's method, since what the manager does after an emission (arming a single shot) reads and
-- writes nothing that a slot does.
use compact_phone.Base.{
  ℕ, ℤ, pos, negsuc, Bool, false, ◌&&◌, not, Option, none, some, List, [], ◌∷◌, ◌++◌, if◌then◌else◌,
  z_eq, ltb, leb_ℤ, ◌==◌,
}
use compact_phone.Base.Text.{Text, is_empty, codes}
use compact_phone.Backend.{SipBackend, CallState, is_confirmed, is_disconnected}
use compact_phone.Calls.{CallManager, Signal}
use compact_phone.Calls.Commands.{
  CallEntry, CallDirection, snapshot, call_count, decline, forward_call, start_recording,
}
use compact_phone.Sessions.{note_incoming, note_state}
use compact_phone.Controller.{
  CallsController, CallSettings, Host, Notice, Deferred, notify, find_call_entry,
  aggregate_call_state, snapshot_is_ringing, publish_ringing_state,
}

-- `publishRingingState()`
unfoldable pub publish_ringing : {B : Type 0} → CallsController B → CallsController B
unfolding publish_ringing_state snapshot_is_ringing snapshot
publish_ringing c = publish_ringing_state (snapshot_is_ringing (snapshot c.calls)) c

-- The slot of `callsChanged`.
unfoldable pub on_calls_changed : {B : Type 0} → CallsController B → CallsController B
unfolding call_count
on_calls_changed c = publish_ringing (
    if call_count c.calls == 0 && leb_ℤ (pos 0) c.current_call_id
    then record c { current_call_id = negsuc 0 }
    else c)

abbrev pub defer : {B : Type 0} → ℕ → Deferred → CallsController B → CallsController B
defer delay d c = record c { deferred = (delay, d) ∷ c.deferred }

-- The first lines of the slot of `incomingCall`: the call is remembered and its session noted.
unfoldable pub note_ringing : {B : Type 0} → ℤ → ℕ → CallsController B → CallsController B
unfolding find_call_entry snapshot note_incoming
note_ringing id now c =
    notify Notice.incoming_call_changed (elim (find_call_entry (snapshot c.calls) id) [
      | none ↦ record c { incoming_call_id = id }
      | some e ↦ record c {
        incoming_call_id = id;
        sessions = note_incoming e now c.sessions;
        incoming_call_from = e.remote_uri;
      }
    ])

module _ {B : Type 0} (sip : SipBackend B) (host : Host) where
  abbrev pub forward_now : ℤ → Text → CallsController B → CallsController B
  forward_now id target c = record c { calls = (forward_call sip id target c.calls).1 }

  -- Auto-answer, else forward on no answer.
  unfoldable pub arm_later : CallSettings → ℤ → CallsController B → CallsController B
  arm_later s id c =
      let target = host.trimmed s.cfwd_no_answer_target in
      if s.auto_answer_enabled
      then defer s.auto_answer_delay_ms (Deferred.answer_later id) c
      else if s.cfwd_no_answer_enabled && not (is_empty target)
      then defer s.cfwd_no_answer_timeout_ms (Deferred.forward_later id target) c
      else c

  -- The end of the slot, which publishes the ringing state.
  unfoldable pub answer_or_forward_later : CallSettings → ℤ → CallsController B → CallsController B
  unfolding publish_ringing arm_later
  answer_or_forward_later s id c = publish_ringing (arm_later s id c)

  unfoldable pub forward_if_busy : CallSettings → ℤ → CallsController B → CallsController B
  unfolding answer_or_forward_later call_count
  forward_if_busy s id c =
      let target = host.trimmed s.cfwd_busy_target in
      if s.cfwd_busy_enabled && ltb 1 (call_count c.calls) && not (is_empty target)
      then forward_now id target c
      else answer_or_forward_later s id c

  unfoldable pub decide_incoming : CallSettings → ℤ → CallsController B → CallsController B
  unfolding forward_if_busy
  decide_incoming s id c =
      let target = host.trimmed s.cfwd_always_target in
      if s.dnd_enabled
      then record c { calls = (decline sip id c.calls).1 }
      else if s.cfwd_always_enabled && not (is_empty target)
      then forward_now id target c
      else forward_if_busy s id c

  -- The slot of `incomingCall`.
  unfoldable pub on_incoming_call :
      Option CallSettings → ℕ → ℤ → CallsController B → CallsController B
  unfolding note_ringing decide_incoming
  on_incoming_call none now id c = publish_ringing (note_ringing id now c)
  on_incoming_call (some s) now id c = decide_incoming s id (note_ringing id now c)

  -- The slots in turn, on what a method of the manager emitted, oldest first. `callEvent` is connected
  -- to a lambda that queues its work; `callStateChanged` has no slot here.
  unfoldable pub on_signal :
      Option CallSettings → ℕ → Signal → CallsController B → CallsController B
  unfolding on_incoming_call
  on_signal s now Signal.calls_changed c = on_calls_changed c
  on_signal s now (Signal.incoming_call id) c = on_incoming_call s now id c
  on_signal s now (Signal.call_state_changed state) c = c
  on_signal s now (Signal.call_event id state) c = record c {
    queued = c.queued ++ (id, state) ∷ [];
  }

  -- The manager's log holds the latest first.
  unfoldable pub on_signals :
      Option CallSettings → ℕ → List Signal → CallsController B → CallsController B
  unfolding on_signal
  on_signals s now [] c = c
  on_signals s now (x ∷ xs) c = on_signal s now x (on_signals s now xs c)

  -- A step of the manager, and then the slots on what it emitted.
  unfoldable pub with_calls :
      Option CallSettings
      → ℕ
      → (CallManager B → CallManager B)
      → CallsController B
      → CallsController B
  unfolding on_signals
  with_calls s now f c =
      let m = f (record c.calls { signals = [] }) in
      on_signals s now m.signals (record c { calls = m })

  unfoldable pub start_recording_of :
      Option CallSettings → ℤ → CallsController B → Bool × CallsController B
  start_recording_of none id c = (false, c)
  start_recording_of (some s) id c =
      if is_empty s.recordings_path
      then (false, c)
      else let path = s.recordings_path ++ codes "/" ++ host.recording_name id in
        let (ok, m) = start_recording sip id path c.calls in
        let c' = record c { calls = m } in
        (ok, if ok then notify (Notice.message (codes "Recording started")) c' else c')

  abbrev wants_recording : Option CallSettings → Bool
  wants_recording none = false
  wants_recording (some s) = s.auto_record_enabled

  abbrev blank_entry : ℤ → CallEntry
  blank_entry id = record {
    id = id;
    account_id = negsuc 0;
    remote_uri = [];
    remote_display_name = [];
    state = CallState.idle;
    held = false;
    muted = false;
    recording = false;
    direction = CallDirection.outbound;
  }

  abbrev or_blank : ℤ → Option CallEntry → CallEntry
  or_blank id none = blank_entry id
  or_blank id (some e) = e

  -- The history part of the queued handler of `callEvent`.
  unfoldable pub note_event : ℕ → ℤ → CallState → CallsController B → CallsController B
  unfolding find_call_entry snapshot
  note_event now id s c =
      let entry = or_blank id (find_call_entry (snapshot c.calls) id) in
      let (h, t) = note_state entry s now c.sessions in
      elim h [
        | none ↦ record c { sessions = t }
        | some x ↦ record c { sessions = t; history = x ∷ c.history }
      ]

  -- Its tail: a call that was ringing and is over is forgotten, and a confirmed one may be recorded.
  unfoldable pub end_ringing : ℤ → CallState → CallsController B → CallsController B
  end_ringing id s c =
      if is_disconnected s && z_eq c.incoming_call_id id
      then notify Notice.incoming_call_changed
          (record c { incoming_call_id = negsuc 0; incoming_call_from = [] })
      else c

  unfoldable pub auto_record :
      Option CallSettings → ℤ → CallState → CallsController B → CallsController B
  unfolding start_recording_of
  auto_record settings id s c =
      let (ok, c') = start_recording_of settings id c in
      if is_confirmed s && wants_recording settings
      then if ok then c' else defer 500 (Deferred.record_later id) c'
      else c

  -- The queued handler of `callEvent`.
  unfoldable pub on_call_event :
      Option CallSettings → ℕ → ℤ → CallState → CallsController B → CallsController B
  unfolding note_event end_ringing auto_record aggregate_call_state snapshot
  on_call_event settings now id s c =
      let noted = note_event now id s c in
      let current =
        if is_disconnected s && z_eq id c.current_call_id then negsuc 0 else c.current_call_id in
      let snap = snapshot c.calls in
      let shown =
        publish_ringing_state (snapshot_is_ringing snap)
          (record noted { current_call_id = current; call_state = aggregate_call_state snap s }) in
      notify Notice.call_state_changed (auto_record settings id s (end_ringing id s shown))
