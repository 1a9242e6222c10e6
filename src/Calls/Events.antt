-- ===== src/Calls/Events.antt =====
-- src/core/CallManager.cpp: the events of the backend, the single shots, and the destructor.
use compact_phone.Base.{
  ℤ, pos, Bool, true, Option, none, some, List, [], ◌∷◌, if◌then◌else◌, z_eq, invalid_id,
}
use compact_phone.Base.Dict.{Dict, emplace, modify}
use compact_phone.Base.Text.{Text}
use compact_phone.Account.{AccountsView}
use compact_phone.Backend.{SipBackend, CallState, Event, is_disconnected}
use compact_phone.Calls.{CallRecord, Signal, Timer, CallManager}
use compact_phone.Calls.Active.{
  set_state, emit, is_live, handle_disconnected, erase_lingering, request_unhold, wire_bridge,
}
use compact_phone.Calls.Commands.{new_record}
use compact_phone.Calls.Transfers.{take_legs_to_hangup}

unfoldable pub notify_state_change : {B : Type 0} → ℤ → CallState → CallManager B → CallManager B
notify_state_change id s m = emit (Signal.call_event id s) (emit (Signal.call_state_changed s) m)

abbrev pub domain_account : Option AccountsView → ℤ → ℤ
domain_account none backend_acc = invalid_id
domain_account (some am) backend_acc = am.account_id_for_backend backend_acc

module _ {B : Type 0} (sip : SipBackend B) where
  unfoldable pub on_incoming_call :
      Option AccountsView → ℤ → ℤ → Text → Text → CallManager B → CallManager B
  unfolding notify_state_change
  on_incoming_call am backend_acc id remote_uri display_name m =
      let account_id = domain_account am backend_acc in
      if z_eq account_id invalid_id
      then record m { backend = sip.release_call id (sip.decline id (pos 480) m.backend).1 }
      else let added = record m {
        records = emplace id (new_record account_id remote_uri display_name true) m.records;
      } in
        emit (Signal.incoming_call id)
          (emit Signal.calls_changed (notify_state_change id CallState.calling added))

  unfoldable pub on_call_state : ℤ → CallState → ℤ → CallManager B → CallManager B
  unfolding notify_state_change
  on_call_state id s sip_code m =
      if is_live id m
      then if is_disconnected s
        then handle_disconnected sip id (
            notify_state_change id s (record m {
              records =
                  modify id (λ r. record r { last_status_code = sip_code; state = s }) m.records;
            }))
        else notify_state_change id s (record m { records = modify id (set_state s) m.records })
      else m

  unfoldable pub hangup_transfer_legs : List ℤ → CallManager B → CallManager B
  hangup_transfer_legs [] m = m
  hangup_transfer_legs (id ∷ ids) m =
      hangup_transfer_legs ids
        (if is_live id m then record m { backend = sip.hangup id m.backend } else m)

  unfoldable pub handle_transfer_status : ℤ → ℤ → Bool → CallManager B → CallManager B
  unfolding hangup_transfer_legs
  handle_transfer_status id status_code final_notify m =
      let (legs, pending) = take_legs_to_hangup id status_code final_notify m.transfers in
      hangup_transfer_legs legs (record m { transfers = pending })

  -- The listener's calls. Those that the manager does not override do nothing.
  unfoldable pub on_event : Option AccountsView → Event → CallManager B → CallManager B
  unfolding on_incoming_call on_call_state handle_transfer_status
  on_event am (Event.incoming_call acc id uri name) m = on_incoming_call am acc id uri name m
  on_event am (Event.call_state id s code) m = on_call_state id s code m
  on_event am (Event.transfer_status id code final reason) m =
      handle_transfer_status id code final m
  on_event am _ m = m

  -- A single shot that fires runs its lambda; the removal from `timers` is the event loop's.
  unfoldable pub on_timer : Timer → CallManager B → CallManager B
  on_timer (Timer.erase_lingering id) m = erase_lingering id m
  on_timer (Timer.retry_unhold id n) m = (request_unhold sip id n m).1
  on_timer (Timer.retry_bridge a h n) m = (wire_bridge sip a h n m).1

  release_all : Dict CallRecord → B → B
  release_all [] b = b
  release_all ((id, r) ∷ d) b = release_all d (sip.release_call id b)

  -- `~CallManager`
  unfoldable pub destroy : CallManager B → CallManager B
  unfolding release_all
  destroy m = record m { backend = release_all m.records m.backend; records = []; lingering = [] }
