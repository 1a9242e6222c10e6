-- ===== src/Calls/Referrals.antt =====
-- A transfer from its request to its final NOTIFY.
use compact_phone.Base.{
  ℤ, ◌≡◌, Bool, true, not, ◌&&◌, none, some, [], ◌∷◌, arith, z_eq, z_eq_refl, z_eq_iff,
  if◌then◌else◌,
}
use compact_phone.Base.Dict.{lookup, is_some, insert, lookup-insert, lookup-erase}
use compact_phone.Base.Text.{Text}
use compact_phone.Backend.{SipBackend}
use compact_phone.Calls.{CallManager}
use compact_phone.Calls.Active.{is_live}
use compact_phone.Calls.Commands.{blind_transfer, attended_transfer}
use compact_phone.Calls.Events.{hangup_transfer_legs, handle_transfer_status}
use compact_phone.Calls.Transfers.{take_legs_outcome, is_success}

module _ {B : Type 0} (sip : SipBackend B) where
  -- A blind transfer of a live call that the backend accepts, and then a NOTIFY for it: the call is
  -- hung up exactly if the NOTIFY is final with a 2xx, the transfer is pending exactly if it is not
  -- final, and the records stay.
  pub blind_transfer_settles :
      (id code : ℤ) (target : Text) (final : Bool) (m : CallManager B)
      → is_live id m ≡ true
      → (sip.blind_transfer id target m.backend).0 ≡ true
      → let (ok, asked) = blind_transfer sip id target m in
        let m' = handle_transfer_status sip id code final asked in
        (ok ≡ true)
        × (m'.backend
            ≡ (if final && is_success code then sip.hangup id asked.backend else asked.backend))
        × (is_some (lookup id m'.transfers) ≡ not final)
        × (m'.records ≡ m.records)
  unfolding blind_transfer handle_transfer_status hangup_transfer_legs
  blind_transfer_settles id code target final m live accepted = ground (
    arith,
    z_eq_refl id,
    lookup-insert id id (id ∷ []) m.transfers,
    take_legs_outcome id code final (insert id (id ∷ []) m.transfers) id,
  )

  -- A NOTIFY for an attended transfer of the live call `a` to `d`, whenever it comes: both are hung up
  -- exactly if it is final with a 2xx, `d` only if it is live still; the transfer is pending exactly
  -- if the NOTIFY is not final, and the records stay.
  pub attended_transfer_settles :
      (a d code : ℤ) (final : Bool) (m : CallManager B)
      → lookup a m.transfers ≡ some (a ∷ d ∷ [])
      → is_live a m ≡ true
      → let m' = handle_transfer_status sip a code final m in
        let first = sip.hangup a m.backend in
        (m'.backend ≡ (
          if final && is_success code
          then if is_live d m then sip.hangup d first else first
          else m.backend))
        × (is_some (lookup a m'.transfers) ≡ not final)
        × (m'.records ≡ m.records)
  unfolding handle_transfer_status hangup_transfer_legs
  attended_transfer_settles a d code final m pending live =
      ground (arith, z_eq_refl a, take_legs_outcome a code final m.transfers a)

  -- An attended transfer is asked of the backend exactly if it is from one live call to another; then it
  -- reports what the backend answers, both legs of the call are recorded if the backend accepts, and the
  -- call has no pending transfer if it refuses. The pending transfers of other calls stay, and so does
  -- all else. If it is not asked, it reports failure, and nothing changes, the backend included.
  pub attended_transfer_recorded :
      (a d j : ℤ) (m : CallManager B)
      → let (ok, m') = attended_transfer sip a d m in
        let asked = not (z_eq a d) && is_live a m && is_live d m in
        let (accepted, b) = sip.attended_transfer a d m.backend in
        (ok ≡ asked && accepted)
        × (lookup j m'.transfers ≡ (
            if asked && z_eq a j
            then if accepted then some (a ∷ d ∷ []) else none
            else lookup j m.transfers))
        × (m' ≡ (if asked then record m { backend = b; transfers = m'.transfers } else m))
  unfolding attended_transfer
  attended_transfer_recorded a d j m = ground (
    arith,
    z_eq_iff a j,
    lookup-insert j a (a ∷ d ∷ []) m.transfers,
    lookup-erase j a (insert a (a ∷ d ∷ []) m.transfers),
  )
