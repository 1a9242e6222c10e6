-- ===== src/Calls/Run.antt =====
-- Histories of the call manager: user commands, backend events, single shots that fire, and moves of
-- the backend itself, in any order.
use compact_phone.Base.{ℤ, negsuc, Bool, Option, List, [], ◌∷◌}
use compact_phone.Base.Text.{Text}
use compact_phone.Account.{AccountsView}
use compact_phone.Backend.{SipBackend, Event}
use compact_phone.Calls.{CallManager, Timer}
use compact_phone.Calls.Active
use compact_phone.Calls.Commands
use compact_phone.Calls.Events

pub data Input (B : Type 0) : Type 0 where
  make_call : ℤ → Text → Input B
  make_default_call : Text → Input B
  accept decline hold unhold stop_recording stop_audio_file hangup : ℤ → Input B
  forward_call start_recording blind_transfer send_dtmf : ℤ → Text → Input B
  merge_calls attended_transfer : ℤ → ℤ → Input B
  play_audio_file : ℤ → Text → Bool → Input B
  set_muted : ℤ → Bool → Input B
  event : Event → Input B
  timer : Timer → Input B
  backend_moves : (B → B) → Input B

-- The constructor `CallManager(backend, am)`.
unfoldable pub init : {B : Type 0} → B → CallManager B
init b = record {
  backend = b;
  records = [];
  lingering = [];
  transfers = [];
  active = negsuc 0;
  linger_ms = 2200;
  signals = [];
  timers = [];
}

module _ {B : Type 0} (sip : SipBackend B) where
  -- What the accounts answer may change between the steps, so each step has its own.
  unfoldable pub step : Option AccountsView × Input B → CallManager B → CallManager B
  step (am, Input.make_call acc uri) m = (Commands.make_call sip am acc uri m).1
  step (am, Input.make_default_call uri) m = (Commands.make_default_call sip am uri m).1
  step (am, Input.accept id) m = (Commands.accept sip id m).1
  step (am, Input.decline id) m = (Commands.decline sip id m).1
  step (am, Input.hold id) m = (Active.hold sip id m).1
  step (am, Input.unhold id) m = (Active.unhold sip id m).1
  step (am, Input.stop_recording id) m = (Commands.stop_recording sip id m).1
  step (am, Input.stop_audio_file id) m = (Commands.stop_audio_file sip id m).1
  step (am, Input.hangup id) m = Commands.hangup sip id m
  step (am, Input.forward_call id target) m = (Commands.forward_call sip id target m).1
  step (am, Input.start_recording id path) m = (Commands.start_recording sip id path m).1
  step (am, Input.blind_transfer id target) m = (Commands.blind_transfer sip id target m).1
  step (am, Input.send_dtmf id digits) m = (Commands.send_dtmf sip am id digits m).1
  step (am, Input.merge_calls a h) m = (Active.merge_calls sip a h m).1
  step (am, Input.attended_transfer a d) m = (Commands.attended_transfer sip a d m).1
  step (am, Input.play_audio_file id path loop) m = (Commands.play_audio_file sip id path loop m).1
  step (am, Input.set_muted id muted) m = (Commands.set_muted sip id muted m).1
  step (am, Input.event e) m = Events.on_event sip am e m
  step (am, Input.timer t) m = Events.on_timer sip t m
  step (am, Input.backend_moves f) m = record m { backend = f m.backend }

  unfoldable pub run : List (Option AccountsView × Input B) → CallManager B → CallManager B
  run [] m = m
  run (i ∷ is) m = run is (step i m)
