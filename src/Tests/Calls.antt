-- ===== src/Tests/Calls.antt =====
-- The theorems about the call manager at two calls over the fake backend.
use compact_phone.Base.{
  pos, ◌≡◌, refl, true, false, Option, none, some, List, [], ◌∷◌, z_eq, ne_of_z_eq, invalid_id,
}
use compact_phone.Base.Dict.{lookup, is_some, erase, modify}
use compact_phone.Base.Text.{codes}
use compact_phone.Account.{AccountsView}
use compact_phone.Backend.{CallState, Event}
use compact_phone.Backend.Fake.{FakeSipBackend}
use compact_phone.Backend.Fake.Calls.{fake_backend}
use compact_phone.Backend.Fake.Calls
use compact_phone.Calls.{Timer}
use compact_phone.Calls.Active.{
  is_held, is_live, is_confirmed_state, unhold, merge_calls, request_unhold, first_held,
}
use compact_phone.Calls.Commands.{accept, last_status_code, blind_transfer, attended_transfer}
use compact_phone.Calls.Events.{on_call_state, handle_transfer_status}
use compact_phone.Calls.Invariant.{IsSound}
use compact_phone.Calls.Run.{Input, init, run}
use compact_phone.Calls.Transfers.{take_legs_to_hangup}
use compact_phone.Calls.Transfers
use compact_phone.Calls.Soundness
use compact_phone.Calls.Policy
use compact_phone.Calls.Retries
use compact_phone.Calls.Endings
use compact_phone.Calls.Referrals
use compact_phone.Tests.{accounts, call, ready_backend, two_calls, transferring, stubborn}

-- A call is made, answered, sent to voicemail by a blind transfer, and over.
abbrev history : List (Option AccountsView × Input FakeSipBackend)
history =
    (some accounts, Input.make_call (pos 1) (codes "sip:600@pbx"))
    ∷ (some accounts, Input.event (Event.call_state (pos 1) CallState.confirmed (pos 200)))
    ∷ (some accounts, Input.blind_transfer (pos 1) (codes "sip:vm@pbx"))
    ∷ (none, Input.event (Event.transfer_status (pos 1) (pos 200) true []))
    ∷ (none, Input.event (Event.call_state (pos 1) CallState.disconnected (pos 200)))
    ∷ (none, Input.timer (Timer.erase_lingering (pos 1)))
    ∷ []

run-init-IsSound_example : IsSound (pos 1) (run fake_backend history (init ready_backend))
run-init-IsSound_example = Soundness.run-init-IsSound fake_backend (pos 1) ready_backend history

take_legs_outcome_example :
    let (legs, rest) = take_legs_to_hangup (pos 1) (pos 200) true transferring.transfers in
    (legs ≡ pos 1 ∷ pos 2 ∷ []) × (lookup (pos 1) rest ≡ none)
unfolding lookup z_eq
take_legs_outcome_example =
    Transfers.take_legs_outcome (pos 1) (pos 200) true transferring.transfers (pos 1)

accept_moves_focus_example :
    let m' = (accept fake_backend (pos 2) two_calls).1 in
    (m'.active ≡ pos 2) × (is_held (pos 1) m' ≡ true)
unfolding lookup z_eq is_held is_confirmed_state
accept_moves_focus_example =
    Policy.accept_moves_focus fake_backend (pos 2) (pos 1) two_calls refl
      (ne_of_z_eq (pos 2) invalid_id refl)

request_unhold_granted_example :
    let (ok, m') = request_unhold fake_backend (pos 2) 5 two_calls in
    (ok ≡ true) × (m'.active ≡ pos 2) × (m'.timers ≡ []) × (is_held (pos 1) m' ≡ true)
unfolding lookup z_eq is_held is_confirmed_state Calls.unhold
request_unhold_granted_example =
    Retries.request_unhold_granted fake_backend (pos 2) (pos 1) 5 two_calls refl refl

merge_holds_active_example :
    let (ok, m') = merge_calls fake_backend (pos 1) (pos 2) two_calls in
    (ok ≡ true)
    × (is_held (pos 1) m' ≡ true)
    × (is_held (pos 2) m' ≡ false)
    × (m'.active ≡ pos 2)
    × (m'.timers ≡ (600, Timer.retry_bridge (pos 1) (pos 2) 5) ∷ [])
unfolding lookup z_eq is_held is_confirmed_state Calls.unhold
merge_holds_active_example =
    Retries.merge_holds_active fake_backend (pos 1) (pos 2) two_calls refl
      (ne_of_z_eq (pos 1) (pos 2) refl) (ne_of_z_eq (pos 1) invalid_id refl) refl refl refl refl
      refl

unhold_never_granted_example :
    let (ok, tried) = unhold stubborn (pos 2) two_calls in
    let m' = run stubborn (Retries.countdown (some accounts) (pos 2) 4) tried in
    (ok ≡ true) × (is_held (pos 2) m' ≡ false) × (is_live (pos 2) m' ≡ true) × (m'.active ≡ pos 1)
unfolding lookup z_eq
unhold_never_granted_example =
    Retries.unhold_never_granted stubborn (some accounts) (pos 2) two_calls refl (λ b. refl)

disconnect_outcome_example :
    let m' = on_call_state fake_backend (pos 1) CallState.disconnected (pos 486) two_calls in
    (is_live (pos 1) m' ≡ false)
    × (is_live (pos 2) m' ≡ true)
    × (lookup (pos 1) m'.lingering
        ≡ some (record (call false) { state = CallState.disconnected; last_status_code = pos 486 }))
    × (last_status_code (pos 1) m' ≡ pos 486)
    × (is_some (lookup (pos 1) m'.transfers) ≡ false)
    × (Endings.latest m'.timers ≡ some (2200, Timer.erase_lingering (pos 1)))
    × (m'.active ≡ pos 2)
unfolding lookup erase modify z_eq first_held
disconnect_outcome_example =
    Endings.disconnect_outcome fake_backend (pos 1) (pos 2) (pos 486) (call false) two_calls refl
      (ne_of_z_eq (pos 1) (pos 2) refl)

blind_transfer_settles_example :
    let (ok, asked) = blind_transfer fake_backend (pos 1) (codes "sip:vm@pbx") two_calls in
    let m' = handle_transfer_status fake_backend (pos 1) (pos 200) true asked in
    (ok ≡ true)
    × (m'.backend ≡ fake_backend.hangup (pos 1) asked.backend)
    × (is_some (lookup (pos 1) m'.transfers) ≡ false)
    × (m'.records ≡ two_calls.records)
unfolding lookup z_eq Calls.blind_transfer
blind_transfer_settles_example =
    Referrals.blind_transfer_settles fake_backend (pos 1) (pos 200) (codes "sip:vm@pbx") true
      two_calls refl refl

attended_transfer_settles_example :
    let m' = handle_transfer_status fake_backend (pos 1) (pos 200) true transferring in
    (m'.backend ≡ fake_backend.hangup (pos 2) (fake_backend.hangup (pos 1) transferring.backend))
    × (is_some (lookup (pos 1) m'.transfers) ≡ false)
    × (m'.records ≡ transferring.records)
unfolding lookup z_eq
attended_transfer_settles_example =
    Referrals.attended_transfer_settles fake_backend (pos 1) (pos 2) (pos 200) true transferring
      refl refl

attended_transfer_recorded_example :
    let (ok, m') = attended_transfer fake_backend (pos 1) (pos 2) two_calls in
    (ok ≡ true)
    × (lookup (pos 1) m'.transfers ≡ some (pos 1 ∷ pos 2 ∷ []))
    × (m' ≡ record two_calls {
      backend = (Calls.attended_transfer (pos 1) (pos 2) two_calls.backend).1;
      transfers = m'.transfers;
    })
unfolding lookup z_eq Calls.attended_transfer
attended_transfer_recorded_example =
    Referrals.attended_transfer_recorded fake_backend (pos 1) (pos 2) (pos 1) two_calls
