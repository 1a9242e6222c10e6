-- ===== src/Calls/Policy.antt =====
-- The policy of the call manager: who is active and who is held, how a call ends, what a refused
-- request leaves behind.
use compact_phone.Base.{
  ℤ, ◌≡◌, refl, ◌≢◌, Bool, true, false, not, ◌&&◌, ◌||◌, arith, z_eq, z_eq_iff, invalid_id, inl,
  inr, Bool-cases, if◌then◌else◌,
}
use compact_phone.Base.Dict.{lookup-modify}
use compact_phone.Backend.{SipBackend}
use compact_phone.Calls.{CallManager}
use compact_phone.Calls.Active.{
  is_live, is_held, is_confirmed_state, set_active_call, hold_previous, unhold_new, set_held,
}
use compact_phone.Calls.Commands.{accept}

module _ {B : Type 0} (sip : SipBackend B) where
  -- The call that setActiveCall puts on hold.
  abbrev auto_held : ℤ → CallManager B → Bool
  auto_held j m = z_eq m.active j && not (z_eq j invalid_id) && is_confirmed_state j m

  hold_previous-is_held :
      (j : ℤ) (m : CallManager B) → is_held j (hold_previous sip m) ≡ is_held j m || auto_held j m
  unfolding hold_previous is_held is_confirmed_state
  hold_previous-is_held j m =
      ground (arith, z_eq_iff m.active j, lookup-modify j m.active (set_held true) m.records)

  hold_previous-active : (m : CallManager B) → (hold_previous sip m).active ≡ m.active
  unfolding hold_previous
  hold_previous-active m = ground arith

  hold_previous-live : (j : ℤ) (m : CallManager B) → is_live j (hold_previous sip m) ≡ is_live j m
  unfolding hold_previous
  hold_previous-live j m = ground (arith, lookup-modify j m.active (set_held true) m.records)

  unhold_new-is_held :
      (id j : ℤ) (m : CallManager B)
      → is_held j (unhold_new sip id m)
        ≡ (if z_eq id j && not (z_eq id invalid_id) then false else is_held j m)
  unfolding unhold_new is_held
  unhold_new-is_held id j m =
      ground (arith, z_eq_iff id j, lookup-modify j id (set_held false) m.records)

  unhold_new-active : (id : ℤ) (m : CallManager B) → (unhold_new sip id m).active ≡ m.active
  unfolding unhold_new
  unhold_new-active id m = ground arith

  refocus-is_held :
      (id j : ℤ) (m : CallManager B) → is_held j (record m { active = id }) ≡ is_held j m
  unfolding is_held
  refocus-is_held id j m = refl

  rehost-is_held :
      (b : B) (j : ℤ) (m : CallManager B) → is_held j (record m { backend = b }) ≡ is_held j m
  unfolding is_held
  rehost-is_held b j m = refl

  set_active_call-is_held :
      (id j : ℤ) (m : CallManager B)
      → is_held j (set_active_call sip id m) ≡ (
          if z_eq m.active id
          then is_held j m
          else if z_eq id j && not (z_eq id invalid_id)
          then false
          else is_held j m || auto_held j m)
  unfolding set_active_call
  set_active_call-is_held id j m = elim (Bool-cases (z_eq m.active id)) [
    | inl same ↦ rw same
    | inr other ↦ rw other (
        rw (
          unhold_new-is_held id j (record (hold_previous sip m) { active = id }),
          refocus-is_held id j (hold_previous sip m),
          hold_previous-is_held j m,
        ))
  ]

  set_active_call-active : (id : ℤ) (m : CallManager B) → (set_active_call sip id m).active ≡ id
  unfolding set_active_call
  set_active_call-active id m = ground (
    arith,
    z_eq_iff m.active id,
    unhold_new-active id (record (hold_previous sip m) { active = id }),
  )

  -- Accepting a live call makes it the active one, whatever the backend answers. If it was not the
  -- active one before, the call that was is put on hold if it is confirmed, the accepted one is off
  -- hold, and no other call's hold flag changes; else no hold flag changes.
  pub accept_moves_focus :
      (id j : ℤ) (m : CallManager B)
      → is_live id m ≡ true
      → id ≢ invalid_id
      → let m' = (accept sip id m).1 in
        (m'.active ≡ id)
        × (is_held j m' ≡ (
            if z_eq m.active id
            then is_held j m
            else if z_eq id j
            then false
            else is_held j m || auto_held j m))
  unfolding accept
  accept_moves_focus id j m live valid = ground (
    arith,
    z_eq_iff id invalid_id,
    set_active_call-active id m,
    set_active_call-is_held id j m,
    rehost-is_held (sip.answer id (set_active_call sip id m).backend).1 j
        (set_active_call sip id m),
  )
