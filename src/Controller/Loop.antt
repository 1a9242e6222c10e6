-- ===== src/Controller/Loop.antt =====
-- Histories of the controller: commands of the user, events of the backend, single shots of the manager
-- and of the controller, and queued handlers, in any order.
use compact_phone.Base.{ℕ, ℤ, Bool, false, Option, List, [], ◌∷◌, if◌then◌else◌, z_eq, negsuc}
use compact_phone.Base.Text.{Text, codes}
use compact_phone.Account.{AccountsView}
use compact_phone.Backend.{SipBackend, Event}
use compact_phone.Calls.{Timer}
use compact_phone.Calls.Commands
use compact_phone.Calls.Events
use compact_phone.Calls.Run
use compact_phone.Controller.{CallsController, CallSettings, Host, Deferred}
use compact_phone.Controller.Incoming.{with_calls, start_recording_of, on_call_event}
use compact_phone.Controller.Actions

pub data Input : Type 0 where
  dial : ℤ → Text → Input
  hangup hold unhold stop_recording start_recording : ℤ → Input
  set_muted : ℤ → Bool → Input
  send_dtmf blind_transfer : ℤ → Text → Input
  attended_transfer merge_calls : ℤ → ℤ → Input
  accept_incoming decline_incoming : Input
  event : Event → Input
  timer : Timer → Input
  deferred : Deferred → Input
  queued : Input

-- A controller as it is built, over a manager as it is built.
unfoldable pub init : {B : Type 0} → B → CallsController B
unfolding Run.init
init b = record {
  calls = Run.init b;
  sessions = [];
  history = [];
  incoming_call_id = negsuc 0;
  incoming_call_from = [];
  current_call_id = negsuc 0;
  call_state = codes "idle";
  ringing = false;
  notices = [];
  deferred = [];
  queued = [];
}

module _ {B : Type 0} (sip : SipBackend B) (host : Host) where
  -- A single shot of the controller fires: it acts only while its call is still the incoming one.
  unfoldable pub on_deferred :
      Option CallSettings → ℕ → Deferred → CallsController B → CallsController B
  unfolding with_calls start_recording_of
  on_deferred s now (Deferred.answer_later id) c =
      if z_eq c.incoming_call_id id
      then with_calls sip host s now (λ m. (Commands.accept sip id m).1) c
      else c
  on_deferred s now (Deferred.forward_later id target) c =
      if z_eq c.incoming_call_id id
      then with_calls sip host s now (λ m. (Commands.forward_call sip id target m).1) c
      else c
  on_deferred s now (Deferred.record_later id) c = (start_recording_of sip host s id c).1

  -- The oldest queued handler runs.
  unfoldable pub on_queued : Option CallSettings → ℕ → CallsController B → CallsController B
  unfolding on_call_event
  on_queued s now c = elim c.queued [
    | [] ↦ c
    | (id, state) ∷ rest ↦ on_call_event sip host s now id state (record c { queued = rest })
  ]

  -- What the accounts, the settings and the clock say at a step.
  unfoldable pub step :
      Option AccountsView → Option CallSettings → ℕ → Input → CallsController B → CallsController B
  step am s now (Input.dial aid uri) c = Actions.dial sip host am s now aid uri c
  step am s now (Input.hangup id) c = Actions.hangup sip host s now id c
  step am s now (Input.hold id) c = (Actions.hold sip host s now id c).1
  step am s now (Input.unhold id) c = (Actions.unhold sip host s now id c).1
  step am s now (Input.stop_recording id) c = (Actions.stop_recording sip host s now id c).1
  step am s now (Input.start_recording id) c = (start_recording_of sip host s id c).1
  step am s now (Input.set_muted id muted) c = (Actions.set_muted sip host s now id muted c).1
  step am s now (Input.send_dtmf id digits) c = (Actions.send_dtmf sip host am s now id digits c).1
  step am s now (Input.blind_transfer id uri) c =
      (Actions.blind_transfer sip host am s now id uri c).1
  step am s now (Input.attended_transfer a d) c = (Actions.attended_transfer sip host s now a d c).1
  step am s now (Input.merge_calls a h) c = (Actions.merge_calls sip host s now a h c).1
  step am s now Input.accept_incoming c = (Actions.accept_incoming sip host s now c).1
  step am s now Input.decline_incoming c = (Actions.decline_incoming sip host s now c).1
  step am s now (Input.event e) c = with_calls sip host s now (Events.on_event sip am e) c
  step am s now (Input.timer t) c = with_calls sip host s now (Events.on_timer sip t) c
  step am s now (Input.deferred d) c = on_deferred s now d c
  step am s now Input.queued c = on_queued s now c

  unfoldable pub run :
      List (Option AccountsView × Option CallSettings × ℕ × Input)
      → CallsController B
      → CallsController B
  run [] c = c
  run ((am, s, now, i) ∷ is) c = run is (step am s now i c)
