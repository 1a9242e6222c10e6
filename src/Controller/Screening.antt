-- ===== src/Controller/Screening.antt =====
-- The policy for an incoming call, from the event of the backend through the call manager to the slots
-- of the controller: src/core/CallManager.cpp, `onIncomingCall`, and src/core/CallsController.cpp.
use compact_phone.Base.{
  ℕ, ℤ, ◌≡◌, refl, ap, ◌∙◌, true, false, Option, none, some, List, [], ◌∷◌, ◌++◌, map, arith, z_eq,
  z_eq_refl, invalid_id, ltb,
}
use compact_phone.Base.Dict.{Dict, lookup, emplace, lookup-emplace}
use compact_phone.Base.Lists.{length, length-append}
use compact_phone.Base.Text.{Text}
use compact_phone.Account.{AccountsView}
use compact_phone.Backend.{SipBackend, CallState, Event}
use compact_phone.Calls.{CallManager, CallRecord, Signal}
use compact_phone.Calls.Active.{is_live}
use compact_phone.Calls.Commands.{CallEntry, new_record, entry_of, snapshot, call_count}
use compact_phone.Calls.Events.{on_event, on_incoming_call, notify_state_change, domain_account}
use compact_phone.Controller.{CallsController, CallSettings, Host, snapshot_is_ringing}
use compact_phone.Controller.Incoming
use compact_phone.Controller.Loop.{Input, step}
use compact_phone.Controller.Slots.{verdict, carried_out, armed_for, slots_outcome}

snoc_rings :
    (id acc : ℤ) (uri name : Text) (d : Dict CallRecord) (l : List CallEntry)
    → snapshot_is_ringing (map entry_of (d ++ (id, new_record acc uri name true) ∷ []) ++ l) ≡ true
unfolding snapshot_is_ringing
snoc_rings id acc uri name [] l = refl
snoc_rings id acc uri name (x ∷ d) l = ground (arith, snoc_rings id acc uri name d l)

emplace-new :
    {V : Type 0} (id : ℤ) (v : V) (d : Dict V)
    → lookup id d ≡ none
    → emplace id v d ≡ d ++ (id, v) ∷ []
unfolding emplace
emplace-new id v d fresh = rw fresh refl

module _ {B : Type 0} (sip : SipBackend B) (host : Host) where
  -- The manager with the new call, once it has emitted.
  abbrev rung : Option AccountsView → ℤ → ℤ → Text → Text → CallManager B → CallManager B
  rung am acc id uri name m = record m {
    records = emplace id (new_record (domain_account am acc) uri name true) m.records;
    signals =
        Signal.incoming_call id
        ∷ Signal.calls_changed
        ∷ Signal.call_event id CallState.calling
        ∷ Signal.call_state_changed CallState.calling
        ∷ [];
  }

  rung-live :
      (am : Option AccountsView) (acc id : ℤ) (uri name : Text) (m : CallManager B)
      → is_live id (rung am acc id uri name m) ≡ true
  rung-live am acc id uri name m =
      let r = new_record (domain_account am acc) uri name true in
      ground (arith, z_eq_refl id, lookup-emplace id id r m.records)

  rung-rings :
      (am : Option AccountsView) (acc id : ℤ) (uri name : Text) (m : CallManager B)
      → lookup id m.records ≡ none
      → snapshot_is_ringing (snapshot (rung am acc id uri name m)) ≡ true
  unfolding snapshot
  rung-rings am acc id uri name m fresh =
      let r = new_record (domain_account am acc) uri name true in
      ap (λ d. snapshot_is_ringing (map entry_of d ++ map entry_of m.lingering))
        (emplace-new id r m.records fresh)
      ∙ snoc_rings id (domain_account am acc) uri name m.records (map entry_of m.lingering)

  rung-busy :
      (am : Option AccountsView) (acc id : ℤ) (uri name : Text) (m : CallManager B)
      → lookup id m.records ≡ none
      → ltb 1 (call_count (rung am acc id uri name m)) ≡ ltb 0 (call_count m)
  unfolding call_count
  rung-busy am acc id uri name m fresh =
      let r = new_record (domain_account am acc) uri name true in
      ap (λ d. ltb 1 (length d)) (emplace-new id r m.records fresh)
      ∙ (ap (ltb 1) (length-append m.records ((id, r) ∷ [])) ∙ ground arith)

  -- The event of an incoming call for a known account, under an id that no call has: whatever the
  -- settings, the controller is ringing after it, do-not-disturb included. The call is declined with
  -- 486 if do-not-disturb is on, else redirected to the first that applies of the targets of forwarding
  -- always and, if another call is live, of forwarding if busy; if none does, the backend is left alone.
  -- Only then a single shot is armed, for auto-answer or else for forwarding on no answer, if that
  -- is set.
  pub incoming_outcome :
      (am : Option AccountsView) (s : CallSettings) (now : ℕ) (acc id : ℤ) (uri name : Text)
      (c : CallsController B)
      → z_eq (domain_account am acc) invalid_id ≡ false
      → lookup id c.calls.records ≡ none
      → let v = verdict host s (ltb 0 (call_count c.calls)) in
        let c' =
          step sip host am (some s) now (Input.event (Event.incoming_call acc id uri name)) c in
        (c'.calls.backend ≡ carried_out sip v id c.calls.backend)
        × (c'.deferred ≡ armed_for host s v id ++ c.deferred)
        × (c'.ringing ≡ true)
  unfolding step Incoming.with_calls Incoming.on_signals Incoming.on_signal
      Incoming.on_incoming_call on_event on_incoming_call notify_state_change
  incoming_outcome am s now acc id uri name c known fresh =
      let m = rung am acc id uri name (record c.calls { signals = [] }) in
      let c' = record c { calls = m; queued = c.queued ++ (id, CallState.calling) ∷ [] } in
      let before = record c.calls { signals = [] } in
      let done =
        slots_outcome sip host s now id c' (rung-live am acc id uri name before)
          (rung-rings am acc id uri name before fresh) in
      let busy = rung-busy am acc id uri name before fresh in
      rw known (
        done.0 ∙ ap (λ b. carried_out sip (verdict host s b) id c.calls.backend) busy,
        done.1 ∙ ap (λ b. armed_for host s (verdict host s b) id ++ c.deferred) busy,
        done.2,
      )
