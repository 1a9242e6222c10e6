-- ===== src/Backend/Fake/Calls.antt =====
-- src/core/sipbackend/fake/FakeSipBackend.cpp: calls, and the remote side's part in them.
use compact_phone.Base.{
  ◌+◌, ℤ, pos, Bool, true, false, not, ◌&&◌, ◌||◌, none, some, List, [], ◌∷◌, ◌++◌, if◌then◌else◌,
  invalid_id,
}
use compact_phone.Base.Dict.{lookup, insert, erase, modify, is_some}
use compact_phone.Base.Text.{Text}
use compact_phone.Account.{DtmfMethod}
use compact_phone.Backend.{
  CallState, Event, SipBackend, is_confirmed, is_disconnected, is_calling, is_early_media,
}
use compact_phone.Backend.Fake.{FakeSipBackend, FakeCall, Command}
use compact_phone.Backend.Fake.Engine.{
  log_cmd, post, has_account, add_account, remove_account, send_message, watch, unwatch,
}

-- `liveCall(id)` with the caller's test of the call.
abbrev pub ready : (FakeCall → Bool) → ℤ → FakeSipBackend → Bool
ready test id b = elim (lookup id b.calls) [ none ↦ false | some c ↦ test c ]

abbrev pub write : ℤ → (FakeCall → FakeCall) → FakeSipBackend → FakeSipBackend
write id f b = record b { calls = modify id f b.calls }

abbrev pub new_call : ℤ → Text → CallState → Bool → FakeCall
new_call account_id uri state is_inbound = record {
  account_id = account_id;
  remote_uri = uri;
  state = state;
  inbound = is_inbound;
  held = false;
  muted = false;
  media_active = false;
  recording = false;
  playing_file = false;
  dtmf_sent = [];
}

abbrev pub rings_here : FakeCall → Bool
rings_here c = c.inbound && is_early_media c.state

abbrev pub rings_there : FakeCall → Bool
rings_there c = not c.inbound && is_calling c.state

abbrev pub is_talking : FakeCall → Bool
is_talking c = is_confirmed c.state

abbrev pub is_up : FakeCall → Bool
is_up c = not (is_disconnected c.state)

abbrev pub confirm : FakeCall → FakeCall
confirm c = record c { state = CallState.confirmed; media_active = true }

abbrev pub disconnect : FakeCall → FakeCall
disconnect c = record c { state = CallState.disconnected; media_active = false }

unfoldable pub make_call : ℤ → Text → FakeSipBackend → ℤ × FakeSipBackend
make_call account_id uri b =
    if not b.running || not (has_account account_id b)
    then (invalid_id, b)
    else let id = pos b.next_call_id in
      (
        id,
        post (Event.call_state id CallState.calling (pos 0) ∷ []) (
            log_cmd (Command.make_call id uri) (record b {
              next_call_id = b.next_call_id + 1;
              calls = insert id (new_call account_id uri CallState.calling false) b.calls;
            })),
      )

unfoldable pub simulate_incoming_call : ℤ → Text → Text → FakeSipBackend → ℤ × FakeSipBackend
simulate_incoming_call account_id uri name b =
    if not b.running || not (has_account account_id b)
    then (invalid_id, b)
    else let id = pos b.next_call_id in
      (
        id,
        post (Event.incoming_call account_id id uri name ∷ []) (record b {
          next_call_id = b.next_call_id + 1;
          calls = insert id (new_call account_id uri CallState.early_media true) b.calls;
        }),
      )

abbrev pub answered : ℤ → List Event
answered id =
    Event.call_state id CallState.confirmed (pos 200) ∷ Event.media_state id true false ∷ []

unfoldable pub answer : ℤ → FakeSipBackend → Bool × FakeSipBackend
answer id b =
    if not (ready rings_here id b)
    then (false, b)
    else (true, post (answered id) (write id confirm (log_cmd (Command.answer id) b)))

unfoldable pub simulate_remote_answer : ℤ → FakeSipBackend → FakeSipBackend
simulate_remote_answer id b =
    if not (ready rings_there id b) then b else post (answered id) (write id confirm b)

abbrev pub ends : ℤ → ℤ → List Event
ends id code = Event.call_state id CallState.disconnected code ∷ []

abbrev pub set_disconnected : FakeCall → FakeCall
set_disconnected c = record c { state = CallState.disconnected }

unfoldable pub decline : ℤ → ℤ → FakeSipBackend → Bool × FakeSipBackend
decline id code b = if not (ready rings_here id b) then (false, b) else (
  true,
  post (ends id code) (write id set_disconnected (log_cmd (Command.decline id code) b)),
)

unfoldable pub redirect : ℤ → Text → FakeSipBackend → Bool × FakeSipBackend
redirect id contact b = if not (ready rings_here id b) then (false, b) else (
  true,
  post (ends id (pos 302)) (write id set_disconnected (log_cmd (Command.redirect id contact) b)),
)

unfoldable pub hangup : ℤ → FakeSipBackend → FakeSipBackend
hangup id b =
    if not (ready is_up id b)
    then b
    else let code = if ready is_talking id b then pos 200 else pos 487 in
      post (ends id code) (write id disconnect (log_cmd (Command.hangup id) b))

unfoldable pub simulate_remote_hangup : ℤ → ℤ → FakeSipBackend → FakeSipBackend
simulate_remote_hangup id code b =
    if not (ready is_up id b) then b else post (ends id code) (write id disconnect b)

unfoldable pub hold : ℤ → FakeSipBackend → Bool × FakeSipBackend
hold id b = if not (ready (λ c. is_talking c && not c.held) id b) then (false, b) else (
  true,
  post (Event.media_state id false true ∷ []) (
      write id (λ c. record c { held = true; media_active = false }) (log_cmd (Command.hold id) b)),
)

unfoldable pub unhold : ℤ → FakeSipBackend → Bool × FakeSipBackend
unhold id b = if not (ready (λ c. is_talking c && c.held) id b) then (false, b) else (
  true,
  post (Event.media_state id true false ∷ []) (
      write id (λ c. record c { held = false; media_active = true })
        (log_cmd (Command.unhold id) b)),
)

unfoldable pub set_muted : ℤ → Bool → FakeSipBackend → Bool × FakeSipBackend
set_muted id muted b =
    if not (ready is_talking id b)
    then (false, b)
    else (true, write id (λ c. record c { muted = muted }) (log_cmd (Command.set_muted id muted) b))

unfoldable pub send_dtmf : ℤ → Text → DtmfMethod → FakeSipBackend → Bool × FakeSipBackend
send_dtmf id digits method b = if not (ready is_talking id b) then (false, b) else (
  true,
  write id (λ c. record c { dtmf_sent = c.dtmf_sent ++ digits })
      (log_cmd (Command.send_dtmf id digits) b),
)

unfoldable pub blind_transfer : ℤ → Text → FakeSipBackend → Bool × FakeSipBackend
blind_transfer id target b =
    if not (ready is_talking id b)
    then (false, b)
    else (true, log_cmd (Command.blind_transfer id target) b)

unfoldable pub attended_transfer : ℤ → ℤ → FakeSipBackend → Bool × FakeSipBackend
attended_transfer id other b =
    if not (ready is_talking id b) || not (ready is_talking other b)
    then (false, b)
    else (true, log_cmd (Command.attended_transfer id other) b)

unfoldable pub bridge : ℤ → ℤ → FakeSipBackend → Bool × FakeSipBackend
bridge id other b =
    if not (ready is_talking id b) || not (ready is_talking other b)
    then (false, b)
    else (true, log_cmd (Command.bridge id other) b)

unfoldable pub start_recording : ℤ → Text → FakeSipBackend → Bool × FakeSipBackend
start_recording id path b =
    if not (ready (λ c. is_talking c && not c.recording) id b) then (false, b) else (
      true,
      write id (λ c. record c { recording = true }) (log_cmd (Command.start_recording id path) b),
    )

unfoldable pub stop_recording : ℤ → FakeSipBackend → Bool × FakeSipBackend
stop_recording id b = if not (ready (λ c. c.recording) id b) then (false, b) else (
  true,
  write id (λ c. record c { recording = false }) (log_cmd (Command.stop_recording id) b),
)

unfoldable pub play_file : ℤ → Text → Bool → FakeSipBackend → Bool × FakeSipBackend
play_file id path loop b = if not (ready (λ c. c.media_active) id b) then (false, b) else (
  true,
  write id (λ c. record c { playing_file = true }) (log_cmd (Command.play_file id path) b),
)

unfoldable pub stop_file : ℤ → FakeSipBackend → Bool × FakeSipBackend
stop_file id b = if not (ready (λ c. c.playing_file) id b) then (false, b) else (
  true,
  write id (λ c. record c { playing_file = false }) (log_cmd (Command.stop_file id) b),
)

unfoldable pub is_media_active : ℤ → FakeSipBackend → Bool
is_media_active id b = ready (λ c. c.media_active) id b

unfoldable pub is_capture_transmitting : ℤ → FakeSipBackend → Bool
is_capture_transmitting id b = ready (λ c. c.media_active && not c.muted) id b

unfoldable pub release_call : ℤ → FakeSipBackend → FakeSipBackend
release_call id b =
    if is_some (lookup id b.calls)
    then log_cmd (Command.release_call id) (record b { calls = erase id b.calls })
    else b

unfoldable pub simulate_transfer_status : ℤ → ℤ → Bool → Text → FakeSipBackend → FakeSipBackend
simulate_transfer_status id code final reason b =
    if not (is_some (lookup id b.calls))
    then b
    else post (Event.transfer_status id code final reason ∷ []) b

-- `class FakeSipBackend : public ISipBackend`
abbrev pub fake_backend : SipBackend FakeSipBackend
fake_backend = record {
  is_running = λ b. b.running;
  add_account = add_account;
  remove_account = remove_account;
  send_message = send_message;
  watch = watch;
  unwatch = unwatch;
  make_call = make_call;
  answer = answer;
  decline = decline;
  redirect = redirect;
  hangup = hangup;
  hold = hold;
  unhold = unhold;
  set_muted = set_muted;
  send_dtmf = send_dtmf;
  blind_transfer = blind_transfer;
  attended_transfer = attended_transfer;
  bridge = bridge;
  start_recording = start_recording;
  stop_recording = stop_recording;
  play_file = play_file;
  stop_file = stop_file;
  is_media_active = is_media_active;
  is_capture_transmitting = is_capture_transmitting;
  release_call = release_call;
}
