-- ===== src/Controller/Slots.antt =====
-- The slot of `incomingCall` in src/core/CallsController.cpp, after that of `callsChanged`: which policy
-- it carries out.
use compact_phone.Base.{
  ℕ, ℤ, ◌≡◌, ap, ◌∙◌, Bool, true, false, not, ◌&&◌, List, [], ◌∷◌, ◌++◌, arith, if◌then◌else◌, pos,
  ltb, negsuc,
}
use compact_phone.Base.Text.{Text, is_empty}
use compact_phone.Backend.{SipBackend}
use compact_phone.Calls.{CallManager}
use compact_phone.Calls.Active.{is_live}
use compact_phone.Calls.Commands.{snapshot, call_count, decline, forward_call}
use compact_phone.Controller.{
  CallsController, CallSettings, Host, Deferred, snapshot_is_ringing, publish_ringing_state,
}
use compact_phone.Controller.Incoming

-- What becomes of an incoming call at once.
pub data Verdict : Type 0 where
  rejected kept : Verdict
  forwarded : Text → Verdict

abbrev pub applies : Bool → Text → Bool
applies enabled target = enabled && not (is_empty target)

-- Do-not-disturb comes before forwarding always, and that before forwarding if busy.
abbrev pub verdict : Host → CallSettings → Bool → Verdict
verdict host s busy =
    if s.dnd_enabled
    then Verdict.rejected
    else if applies s.cfwd_always_enabled (host.trimmed s.cfwd_always_target)
    then Verdict.forwarded (host.trimmed s.cfwd_always_target)
    else if busy && applies s.cfwd_busy_enabled (host.trimmed s.cfwd_busy_target)
    then Verdict.forwarded (host.trimmed s.cfwd_busy_target)
    else Verdict.kept

abbrev pub carried_out : {B : Type 0} → SipBackend B → Verdict → ℤ → B → B
carried_out sip Verdict.rejected id b = (sip.decline id (pos 486) b).1
carried_out sip (Verdict.forwarded target) id b = (sip.redirect id target b).1
carried_out sip Verdict.kept id b = b

-- The single shots that are armed for a call with that verdict.
abbrev pub armed_for : Host → CallSettings → Verdict → ℤ → List (ℕ × Deferred)
armed_for host s Verdict.rejected id = []
armed_for host s (Verdict.forwarded target) id = []
armed_for host s Verdict.kept id =
    let target = host.trimmed s.cfwd_no_answer_target in
    if s.auto_answer_enabled
    then (s.auto_answer_delay_ms, Deferred.answer_later id) ∷ []
    else if applies s.cfwd_no_answer_enabled target
    then (s.cfwd_no_answer_timeout_ms, Deferred.forward_later id target) ∷ []
    else []

abbrev verdict_in : {B : Type 0} → Host → CallSettings → CallManager B → Verdict
verdict_in host s m = verdict host s (ltb 1 (call_count m))

-- What publishing the ringing state leaves as it is, and what it makes of the ringing state.
publish_ringing_state-keeps :
    {B : Type 0} (now : Bool) (c : CallsController B)
    → let c' = publish_ringing_state now c in
      (c'.calls ≡ c.calls) × (c'.deferred ≡ c.deferred) × (c'.ringing ≡ now)
unfolding publish_ringing_state
publish_ringing_state-keeps true c = ground arith
publish_ringing_state-keeps false c = ground arith

publish_ringing-keeps :
    {B : Type 0} (c : CallsController B)
    → let c' = Incoming.publish_ringing c in
      (c'.calls ≡ c.calls)
      × (c'.deferred ≡ c.deferred)
      × (c'.ringing ≡ snapshot_is_ringing (snapshot c.calls))
unfolding Incoming.publish_ringing
publish_ringing-keeps c = publish_ringing_state-keeps (snapshot_is_ringing (snapshot c.calls)) c

module _ {B : Type 0} (sip : SipBackend B) (host : Host) where
  arm_later-keeps :
      (s : CallSettings) (id : ℤ) (c : CallsController B)
      → let c' = Incoming.arm_later sip host s id c in
        (c'.calls ≡ c.calls) × (c'.deferred ≡ armed_for host s Verdict.kept id ++ c.deferred)
  unfolding Incoming.arm_later
  arm_later-keeps s id c = ground arith

  later_outcome :
      (s : CallSettings) (id : ℤ) (c : CallsController B)
      → let c' = Incoming.answer_or_forward_later sip host s id c in
        (c'.calls ≡ c.calls)
        × (c'.deferred ≡ armed_for host s Verdict.kept id ++ c.deferred)
        × (c'.ringing ≡ snapshot_is_ringing (snapshot c.calls))
  unfolding Incoming.answer_or_forward_later
  later_outcome s id c =
      let armed = arm_later-keeps s id c in
      let told = publish_ringing-keeps (Incoming.arm_later sip host s id c) in
      (
        told.0 ∙ armed.0,
        told.1 ∙ armed.1,
        told.2 ∙ ap (λ m. snapshot_is_ringing (snapshot m)) armed.0,
      )

  decide_outcome :
      (s : CallSettings) (id : ℤ) (c : CallsController B)
      → is_live id c.calls ≡ true
      → c.ringing ≡ true
      → snapshot_is_ringing (snapshot c.calls) ≡ true
      → let v = verdict host s (ltb 1 (call_count c.calls)) in
        let c' = Incoming.decide_incoming sip host s id c in
        (c'.calls.backend ≡ carried_out sip v id c.calls.backend)
        × (c'.deferred ≡ armed_for host s v id ++ c.deferred)
        × (c'.ringing ≡ true)
  unfolding Incoming.decide_incoming Incoming.forward_if_busy decline forward_call
  decide_outcome s id c live on rings = ground (arith, later_outcome s id c)

  note_ringing-keeps :
      (id : ℤ) (now : ℕ) (c : CallsController B)
      → let c' = Incoming.note_ringing id now c in
        (c'.calls ≡ c.calls) × (c'.deferred ≡ c.deferred) × (c'.ringing ≡ c.ringing)
  unfolding Incoming.note_ringing
  note_ringing-keeps id now c = ground arith

  on_calls_changed-keeps :
      (c : CallsController B)
      → let c' = Incoming.on_calls_changed c in
        (c'.calls ≡ c.calls)
        × (c'.deferred ≡ c.deferred)
        × (c'.ringing ≡ snapshot_is_ringing (snapshot c.calls))
  unfolding Incoming.on_calls_changed
  on_calls_changed-keeps c = ground (
    arith,
    publish_ringing-keeps c,
    publish_ringing-keeps (record c { current_call_id = negsuc 0 }),
  )

  -- The slots of `callsChanged` and of `incomingCall`, one after the other.
  pub slots_outcome :
      (s : CallSettings) (now : ℕ) (id : ℤ) (c : CallsController B)
      → is_live id c.calls ≡ true
      → snapshot_is_ringing (snapshot c.calls) ≡ true
      → let v = verdict host s (ltb 1 (call_count c.calls)) in
        let c' =
          Incoming.decide_incoming sip host s id
            (Incoming.note_ringing id now (Incoming.on_calls_changed c)) in
        (c'.calls.backend ≡ carried_out sip v id c.calls.backend)
        × (c'.deferred ≡ armed_for host s v id ++ c.deferred)
        × (c'.ringing ≡ true)
  slots_outcome s now id c live rings =
      let shown = on_calls_changed-keeps c in
      let noted = note_ringing-keeps id now (Incoming.on_calls_changed c) in
      let same = noted.0 ∙ shown.0 in
      let done =
        decide_outcome s id (Incoming.note_ringing id now (Incoming.on_calls_changed c))
          (ap (is_live id) same ∙ live) (noted.2 ∙ (shown.2 ∙ rings))
          (ap (λ m. snapshot_is_ringing (snapshot m)) same ∙ rings) in
      (
        done.0 ∙ ap (λ m. carried_out sip (verdict_in host s m) id m.backend) same,
        done.1
            ∙ (ap
                  (λ m.
                    armed_for host s (verdict_in host s m) id
                    ++ (Incoming.note_ringing id now (Incoming.on_calls_changed c)).deferred)
                  same
                ∙ ap (λ l. armed_for host s (verdict_in host s c.calls) id ++ l)
                    (noted.1 ∙ shown.1)),
        done.2,
      )
