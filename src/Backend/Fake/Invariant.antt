-- ===== src/Backend/Fake/Invariant.antt =====
-- What every operation of the fake backend keeps about the call of each id.
use compact_phone.Base.{
  ℤ, pos, ◌≡◌, refl, ◌≢◌, Bool, true, false, not, ◌&&◌, ◌||◌, Option, none, some, List, [], ◌∷◌,
  ◌++◌, arith, z_eq, z_eq_iff, z_eq_refl, if◌then◌else◌, leb_ℤ, invalid_id, Option-cases,
  Bool-cases, ◌⊎◌, inl, inr,
}
use compact_phone.Base.Dict.{lookup, lookup-insert, lookup-erase, lookup-modify, modify}
use compact_phone.Base.Text.{Text}
use compact_phone.Backend.{CallState, is_confirmed, is_disconnected, is_calling}
use compact_phone.Backend.Fake.{FakeSipBackend, FakeCall, Command}
use compact_phone.Backend.Fake.Engine
use compact_phone.Backend.Fake.Calls
use compact_phone.Backend.Fake.Actions.{Action, init, step, run}

-- Media flows only in a confirmed call that is not on hold, and no call is held before it is
-- confirmed.
abbrev pub media_fits : Option FakeCall → Bool
media_fits none = true
media_fits (some c) =
    (not c.media_active || is_confirmed c.state && not c.held)
    && (not c.held || is_confirmed c.state || is_disconnected c.state)

-- The id is one that the backend has still to give out.
abbrev pub is_unused : ℤ → FakeSipBackend → Bool
is_unused k b = leb_ℤ (pos b.next_call_id) k

-- An id that is still to be given out has no call, and the call of an id that was has sane media.
pub record IsSane (k : ℤ) (b : FakeSipBackend) : Type 0 where
  pub unused : is_unused k b ≡ true → lookup k b.calls ≡ none
  pub media : media_fits (lookup k b.calls) ≡ true

module _ (k : ℤ) (b : FakeSipBackend) (h : IsSane k b) where
  make_call-IsSane : (acc : ℤ) (uri : Text) → IsSane k (Calls.make_call acc uri b).1
  unfolding Calls.make_call
  make_call-IsSane acc uri = ground (
    arith,
    z_eq_iff (pos b.next_call_id) k,
    lookup-insert k (pos b.next_call_id) (Calls.new_call acc uri CallState.calling false) b.calls,
  )

  incoming_call-IsSane :
      (acc : ℤ) (uri name : Text) → IsSane k (Calls.simulate_incoming_call acc uri name b).1
  unfolding Calls.simulate_incoming_call
  incoming_call-IsSane acc uri name = ground (
    arith,
    z_eq_iff (pos b.next_call_id) k,
    lookup-insert k (pos b.next_call_id) (Calls.new_call acc uri CallState.early_media true)
        b.calls,
  )

  answer-IsSane : (id : ℤ) → IsSane k (Calls.answer id b).1
  unfolding Calls.answer
  answer-IsSane id = ground (arith, z_eq_iff id k, lookup-modify k id Calls.confirm b.calls)

  remote_answer-IsSane : (id : ℤ) → IsSane k (Calls.simulate_remote_answer id b)
  unfolding Calls.simulate_remote_answer
  remote_answer-IsSane id = ground (arith, z_eq_iff id k, lookup-modify k id Calls.confirm b.calls)

  decline-IsSane : (id code : ℤ) → IsSane k (Calls.decline id code b).1
  unfolding Calls.decline
  decline-IsSane id code =
      ground (arith, z_eq_iff id k, lookup-modify k id Calls.set_disconnected b.calls)

  redirect-IsSane : (id : ℤ) (contact : Text) → IsSane k (Calls.redirect id contact b).1
  unfolding Calls.redirect
  redirect-IsSane id contact =
      ground (arith, z_eq_iff id k, lookup-modify k id Calls.set_disconnected b.calls)

  hangup-IsSane : (id : ℤ) → IsSane k (Calls.hangup id b)
  unfolding Calls.hangup
  hangup-IsSane id = ground (arith, z_eq_iff id k, lookup-modify k id Calls.disconnect b.calls)

  remote_hangup-IsSane : (id code : ℤ) → IsSane k (Calls.simulate_remote_hangup id code b)
  unfolding Calls.simulate_remote_hangup
  remote_hangup-IsSane id code =
      ground (arith, z_eq_iff id k, lookup-modify k id Calls.disconnect b.calls)

  hold-IsSane : (id : ℤ) → IsSane k (Calls.hold id b).1
  unfolding Calls.hold
  hold-IsSane id = ground (
    arith,
    z_eq_iff id k,
    lookup-modify k id (λ (c : FakeCall). record c { held = true; media_active = false }) b.calls,
  )

  unhold-IsSane : (id : ℤ) → IsSane k (Calls.unhold id b).1
  unfolding Calls.unhold
  unhold-IsSane id = ground (
    arith,
    z_eq_iff id k,
    lookup-modify k id (λ (c : FakeCall). record c { held = false; media_active = true }) b.calls,
  )

  -- A write that leaves state, hold and media alone.
  flag-IsSane :
      (id : ℤ) (f : FakeCall → FakeCall) (log : List Command)
      → ((c : FakeCall) → media_fits (some (f c)) ≡ media_fits (some c))
      → IsSane k (record b { calls = modify id f b.calls; log = log })
  flag-IsSane id f log keeps = elim (Option-cases (lookup k b.calls)) [
    | inl gone ↦ ground (arith, lookup-modify k id f b.calls)
    | inr (c, e) ↦ ground (arith, lookup-modify k id f b.calls, keeps c)
  ]

  release_call-IsSane : (id : ℤ) → IsSane k (Calls.release_call id b)
  unfolding Calls.release_call
  release_call-IsSane id = ground (arith, lookup-erase k id b.calls)

step-IsSane : (k : ℤ) (a : Action) (b : FakeSipBackend) → IsSane k b → IsSane k (step a b)
unfolding step Calls.send_dtmf Calls.set_muted Calls.start_recording Calls.stop_recording
    Calls.play_file Calls.stop_file Engine.add_account Engine.remove_account Engine.set_listener
    Engine.start Engine.stop Engine.pump Calls.blind_transfer Calls.attended_transfer Calls.bridge
    Engine.send_message Engine.watch Engine.unwatch Engine.set_capture_device
    Engine.set_playback_device Engine.set_stun_servers Engine.set_codec_priority
    Engine.play_ringtone Engine.stop_ringtone Engine.simulate_reg_state Engine.simulate_mwi
    Engine.simulate_instant_message Engine.simulate_presence Calls.simulate_transfer_status lookup
step-IsSane k (Action.add_account s) b h = ground arith
step-IsSane k (Action.make_call acc uri) b h = make_call-IsSane k b h acc uri
step-IsSane k (Action.send_dtmf id digits how) b h = ground (
  arith,
  flag-IsSane k b h id (λ c. record c { dtmf_sent = c.dtmf_sent ++ digits })
      (Command.send_dtmf id digits ∷ b.log) (λ c. refl),
)
step-IsSane k (Action.redirect id contact) b h = redirect-IsSane k b h id contact
step-IsSane k (Action.start_recording id path) b h = ground (
  arith,
  flag-IsSane k b h id (λ c. record c { recording = true })
      (Command.start_recording id path ∷ b.log) (λ c. refl),
)
step-IsSane k (Action.play_file id path loops) b h = ground (
  arith,
  flag-IsSane k b h id (λ c. record c { playing_file = true }) (Command.play_file id path ∷ b.log)
      (λ c. refl),
)
step-IsSane k (Action.incoming_call acc uri name) b h = incoming_call-IsSane k b h acc uri name
step-IsSane k (Action.decline id code) b h = decline-IsSane k b h id code
step-IsSane k (Action.remote_hangup id code) b h = remote_hangup-IsSane k b h id code
step-IsSane k (Action.set_muted id muted) b h = ground (
  arith,
  flag-IsSane k b h id (λ c. record c { muted = muted }) (Command.set_muted id muted ∷ b.log)
      (λ c. refl),
)
step-IsSane k (Action.set_listener listening) b h = ground arith
step-IsSane k (Action.remove_account id) b h = ground arith
step-IsSane k (Action.answer id) b h = answer-IsSane k b h id
step-IsSane k (Action.remote_answer id) b h = remote_answer-IsSane k b h id
step-IsSane k (Action.hangup id) b h = hangup-IsSane k b h id
step-IsSane k (Action.hold id) b h = hold-IsSane k b h id
step-IsSane k (Action.unhold id) b h = unhold-IsSane k b h id
step-IsSane k (Action.stop_recording id) b h = ground (
  arith,
  flag-IsSane k b h id (λ c. record c { recording = false }) (Command.stop_recording id ∷ b.log)
      (λ c. refl),
)
step-IsSane k (Action.stop_file id) b h = ground (
  arith,
  flag-IsSane k b h id (λ c. record c { playing_file = false }) (Command.stop_file id ∷ b.log)
      (λ c. refl),
)
step-IsSane k (Action.release_call id) b h = release_call-IsSane k b h id
step-IsSane k (Action.blind_transfer id target) b h = ground arith
step-IsSane k (Action.attended_transfer id other) b h = ground arith
step-IsSane k (Action.bridge id other) b h = ground arith
step-IsSane k (Action.send_message id to body) b h = ground arith
step-IsSane k (Action.watch acc uri) b h = ground arith
step-IsSane k (Action.unwatch id) b h = ground arith
step-IsSane k (Action.set_capture_device id) b h = ground arith
step-IsSane k (Action.set_playback_device id) b h = ground arith
step-IsSane k (Action.set_stun_servers servers) b h = ground arith
step-IsSane k (Action.set_codec_priority priority_order) b h = ground arith
step-IsSane k (Action.play_ringtone path) b h = ground arith
step-IsSane k Action.stop_ringtone b h = ground arith
step-IsSane k (Action.simulate_reg_state id active code reason) b h = ground arith
step-IsSane k (Action.simulate_mwi id new_messages old_messages active) b h = ground arith
step-IsSane k (Action.simulate_instant_message id from body) b h = ground arith
step-IsSane k (Action.simulate_presence id state) b h = ground arith
step-IsSane k (Action.simulate_transfer_status id code final reason) b h = ground arith
step-IsSane k Action.start b h = ground arith
step-IsSane k Action.stop b h = ground arith
step-IsSane k Action.pump b h = ground arith

run-IsSane : (k : ℤ) (acts : List Action) (b : FakeSipBackend) → IsSane k b → IsSane k (run acts b)
unfolding run
run-IsSane k [] b h = h
run-IsSane k (a ∷ acts) b h = run-IsSane k acts (step a b) (step-IsSane k a b h)

init-IsSane : (k : ℤ) (listening : Bool) → IsSane k (init listening)
unfolding init lookup
init-IsSane k listening = record { unused = λ _. refl; media = refl }

made :
    (acc j : ℤ) (uri : Text) (b : FakeSipBackend)
    → IsSane (pos b.next_call_id) b
    → let (id, b') = Calls.make_call acc uri b in
      let granted = b.running && Engine.has_account acc b in
      ((granted ≡ false) × (id ≡ invalid_id) × (b' ≡ b))
      ⊎ ((granted ≡ true)
          × (id ≢ invalid_id)
          × (lookup id b.calls ≡ none)
          × (Calls.ready (λ c. is_calling c.state && not c.inbound) id b' ≡ true)
          × (lookup j b'.calls ≡ (if z_eq id j then lookup id b'.calls else lookup j b.calls)))
unfolding Calls.make_call
made acc j uri b h = elim (Bool-cases (b.running && Engine.has_account acc b)) [
  | inl granted ↦ inr (
      ground (
        arith,
        z_eq_refl (pos b.next_call_id),
        z_eq_iff (pos b.next_call_id) j,
        lookup-insert j (pos b.next_call_id) (Calls.new_call acc uri CallState.calling false)
            b.calls,
        lookup-insert (pos b.next_call_id) (pos b.next_call_id)
            (Calls.new_call acc uri CallState.calling false) b.calls,
      ))
  | inr refused ↦ inl (ground arith)
]

-- After any history of a fake backend from its construction, made of all its modelled operations and
-- simulated events, the microphone transmits into a call only if that call is confirmed, not on hold and
-- not muted.
pub capture_needs_talk :
    (k : ℤ) (listening : Bool) (acts : List Action)
    → Calls.is_capture_transmitting k (run acts (init listening)) ≡ true
    → Calls.ready
        (λ c. is_confirmed c.state && not c.held && not c.muted)
        k
        (run acts (init listening))
      ≡ true
unfolding Calls.is_capture_transmitting
capture_needs_talk k listening acts live =
    let sane : IsSane k (run acts (init listening)) =
      run-IsSane k acts (init listening) (init-IsSane k listening) in
    ground arith

-- After any history of a fake backend from its construction, made of all its modelled operations and
-- simulated events: a call is refused with -1 and no change exactly if the backend does not run or
-- has no such account; else it gets a valid id that no call has, under which it is then found in the
-- calling state, and every other call is as it was.
pub make_call_fresh :
    (acc j : ℤ) (uri : Text) (listening : Bool) (acts : List Action)
    → let b = run acts (init listening) in
      let (id, b') = Calls.make_call acc uri b in
      let granted = b.running && Engine.has_account acc b in
      ((granted ≡ false) × (id ≡ invalid_id) × (b' ≡ b))
      ⊎ ((granted ≡ true)
          × (id ≢ invalid_id)
          × (lookup id b.calls ≡ none)
          × (Calls.ready (λ c. is_calling c.state && not c.inbound) id b' ≡ true)
          × (lookup j b'.calls ≡ (if z_eq id j then lookup id b'.calls else lookup j b.calls)))
make_call_fresh acc j uri listening acts =
    made acc j uri (run acts (init listening))
      (run-IsSane _ acts (init listening) (init-IsSane _ listening))
