-- ===== src/Backend/Fake/Actions.antt =====
-- Histories of the fake backend: every operation of src/core/sipbackend/fake/FakeSipBackend.cpp and
-- FakeSipBackend.h that is modelled and returns a state, the simulated events included, in any order.
use compact_phone.Base.{ℤ, pos, Bool, false, List, [], ◌∷◌, invalid_id}
use compact_phone.Base.Text.{Text}
use compact_phone.Account.{DtmfMethod}
use compact_phone.Backend.{AccountSettings, PresenceState}
use compact_phone.Backend.Dispatch
use compact_phone.Backend.Fake.{FakeSipBackend}
use compact_phone.Backend.Fake.Engine
use compact_phone.Backend.Fake.Calls

pub data Action : Type 0 where
  add_account : AccountSettings → Action
  make_call redirect start_recording blind_transfer watch : ℤ → Text → Action
  send_dtmf : ℤ → Text → DtmfMethod → Action
  play_file : ℤ → Text → Bool → Action
  send_message simulate_instant_message : ℤ → Text → Text → Action
  incoming_call : ℤ → Text → Text → Action
  decline remote_hangup attended_transfer bridge : ℤ → ℤ → Action
  set_muted : ℤ → Bool → Action
  set_listener : Bool → Action
  set_capture_device set_playback_device unwatch : ℤ → Action
  set_stun_servers set_codec_priority : List Text → Action
  play_ringtone : Text → Action
  simulate_reg_state : ℤ → Bool → ℤ → Text → Action
  simulate_mwi : ℤ → ℤ → ℤ → Bool → Action
  simulate_presence : ℤ → PresenceState → Action
  simulate_transfer_status : ℤ → ℤ → Bool → Text → Action
  remove_account answer remote_answer hangup hold unhold stop_recording stop_file release_call :
      ℤ → Action
  start stop pump stop_ringtone : Action

unfoldable pub step : Action → FakeSipBackend → FakeSipBackend
step (Action.add_account s) b = (Engine.add_account s b).1
step (Action.make_call acc uri) b = (Calls.make_call acc uri b).1
step (Action.send_dtmf id digits how) b = (Calls.send_dtmf id digits how b).1
step (Action.redirect id contact) b = (Calls.redirect id contact b).1
step (Action.start_recording id path) b = (Calls.start_recording id path b).1
step (Action.play_file id path loops) b = (Calls.play_file id path loops b).1
step (Action.incoming_call acc uri name) b = (Calls.simulate_incoming_call acc uri name b).1
step (Action.decline id code) b = (Calls.decline id code b).1
step (Action.remote_hangup id code) b = Calls.simulate_remote_hangup id code b
step (Action.set_muted id muted) b = (Calls.set_muted id muted b).1
step (Action.set_listener listening) b = Engine.set_listener listening b
step (Action.remove_account id) b = (Engine.remove_account id b).1
step (Action.answer id) b = (Calls.answer id b).1
step (Action.remote_answer id) b = Calls.simulate_remote_answer id b
step (Action.hangup id) b = Calls.hangup id b
step (Action.hold id) b = (Calls.hold id b).1
step (Action.unhold id) b = (Calls.unhold id b).1
step (Action.stop_recording id) b = (Calls.stop_recording id b).1
step (Action.stop_file id) b = (Calls.stop_file id b).1
step (Action.release_call id) b = Calls.release_call id b
step (Action.blind_transfer id target) b = (Calls.blind_transfer id target b).1
step (Action.attended_transfer id other) b = (Calls.attended_transfer id other b).1
step (Action.bridge id other) b = (Calls.bridge id other b).1
step (Action.send_message id to body) b = (Engine.send_message id to body b).1
step (Action.watch acc uri) b = (Engine.watch acc uri b).1
step (Action.unwatch id) b = (Engine.unwatch id b).1
step (Action.set_capture_device id) b = (Engine.set_capture_device id b).1
step (Action.set_playback_device id) b = (Engine.set_playback_device id b).1
step (Action.set_stun_servers servers) b = Engine.set_stun_servers servers b
step (Action.set_codec_priority priority_order) b = Engine.set_codec_priority priority_order b
step (Action.play_ringtone path) b = (Engine.play_ringtone path b).1
step Action.stop_ringtone b = Engine.stop_ringtone b
step (Action.simulate_reg_state id active code reason) b =
    Engine.simulate_reg_state id active code reason b
step (Action.simulate_mwi id new_messages old_messages active) b =
    Engine.simulate_mwi id new_messages old_messages active b
step (Action.simulate_instant_message id from body) b =
    Engine.simulate_instant_message id from body b
step (Action.simulate_presence id state) b = Engine.simulate_presence id state b
step (Action.simulate_transfer_status id code final reason) b =
    Calls.simulate_transfer_status id code final reason b
step Action.start b = (Engine.start b).1
step Action.stop b = Engine.stop b
step Action.pump b = (Engine.pump b).1

unfoldable pub run : List Action → FakeSipBackend → FakeSipBackend
run [] b = b
run (a ∷ as') b = run as' (step a b)

-- A backend as it is built, with or without a listener.
unfoldable pub init : Bool → FakeSipBackend
init listening = record {
  running = false;
  listening = listening;
  stun_servers = [];
  codec_priority = [];
  capture_device = pos 0;
  playback_device = pos 0;
  ringtone_path = [];
  next_account_id = 1;
  last_added_id = invalid_id;
  next_call_id = 1;
  next_watch_id = 1;
  accounts = [];
  calls = [];
  watches = [];
  log = [];
  events = Dispatch.empty;
}
