-- ===== src/Calls/Invariant.antt =====
-- The invariant of the call manager, at each call id.
use compact_phone.Base.{
  ℕ, zero, suc, ℤ, ◌≡◌, refl, sym, subst, ◌∙◌, ◌≢◌, Bool, true, false, Option, none, some, [], ◌∷◌,
  arith, z_eq, z_eq_iff, invalid_id, ne_of_z_eq, inl, inr, Bool-cases, Option-cases,
}
use compact_phone.Base.Dict.{
  Dict, lookup, is_some, lookup-insert, lookup-erase, lookup-modify, modify, insert, erase,
}
use compact_phone.Backend.{SipBackend, CallState, is_disconnected}
use compact_phone.Calls.{CallRecord, Signal, Timer, CallManager}
use compact_phone.Calls.Active.{
  is_live, set_held, set_state, first_held, hold_previous, unhold_new, set_active_call, hold,
  request_unhold, wire_bridge, merge_calls, promote_held, handle_disconnected, erase_lingering,
  emit, single_shot,
}
use compact_phone.Calls.Transfers.{drop}

-- A call that is not there has no state.
abbrev pub state_is_disconnected : Option CallRecord → Bool
state_is_disconnected none = false
state_is_disconnected (some r) = is_disconnected r.state

-- What the manager keeps about the id `k`: if it is the active call, it is live; a transfer that
-- waits for its outcome belongs to a live call; a live call is not disconnected, and a lingering one
-- is.
pub record IsSound {B : Type 0} (k : ℤ) (m : CallManager B) : Type 0 where
  pub active_is_live : m.active ≡ k → k ≢ invalid_id → is_live k m ≡ true
  pub pending_is_live : is_some (lookup k m.transfers) ≡ true → is_live k m ≡ true
  pub live_is_up : state_is_disconnected (lookup k m.records) ≡ false
  pub lingering_is_down :
      is_some (lookup k m.lingering) ≡ true → state_is_disconnected (lookup k m.lingering) ≡ true

module _ {B : Type 0} (sip : SipBackend B) (k : ℤ) where
  hold_previous-IsSound : (m : CallManager B) → IsSound k m → IsSound k (hold_previous sip m)
  unfolding hold_previous
  hold_previous-IsSound m h = ground (arith, lookup-modify k m.active (set_held true) m.records)

  hold_previous-live : (m : CallManager B) → is_live k (hold_previous sip m) ≡ is_live k m
  unfolding hold_previous
  hold_previous-live m = ground (arith, lookup-modify k m.active (set_held true) m.records)

  unhold_new-IsSound : (id : ℤ) (m : CallManager B) → IsSound k m → IsSound k (unhold_new sip id m)
  unfolding unhold_new
  unhold_new-IsSound id m h = ground (arith, lookup-modify k id (set_held false) m.records)

  focus-IsSound :
      (id : ℤ) (m : CallManager B)
      → (id ≡ k → is_live k m ≡ true)
      → IsSound k m
      → IsSound k (record m { active = id })
  focus-IsSound id m live h = record {
    active_is_live = λ e _. live e;
    pending_is_live = h.pending_is_live;
    live_is_up = h.live_is_up;
    lingering_is_down = h.lingering_is_down;
  }

  pub set_active_call-IsSound :
      (id : ℤ) (m : CallManager B)
      → (id ≡ k → is_live k m ≡ true)
      → IsSound k m
      → IsSound k (set_active_call sip id m)
  unfolding set_active_call
  set_active_call-IsSound id m live h = elim (Bool-cases (z_eq m.active id)) [
    | inl same ↦ rw same h
    | inr other ↦ rw other (
        unhold_new-IsSound id _ (
          focus-IsSound id (hold_previous sip m) (λ e. rw (hold_previous-live m) (live e))
            (hold_previous-IsSound m h)))
  ]

  pub hold-IsSound : (id : ℤ) (m : CallManager B) → IsSound k m → IsSound k (hold sip id m).1
  unfolding hold
  hold-IsSound id m h = ground (arith, lookup-modify k id (set_held true) m.records)

  resumed-IsSound :
      (id : ℤ) (b : B) (m : CallManager B)
      → IsSound k m
      → IsSound k (record m { backend = b; records = modify id (set_held false) m.records })
  resumed-IsSound id b m h = ground (arith, lookup-modify k id (set_held false) m.records)

  pub request_unhold-IsSound :
      (id : ℤ) (n : ℕ) (m : CallManager B) → IsSound k m → IsSound k (request_unhold sip id n m).1
  unfolding request_unhold
  request_unhold-IsSound id zero m h = ground (
    arith,
    z_eq_iff id k,
    lookup-modify k id (set_held false) m.records,
    lookup-modify k m.active (set_held true) (modify id (set_held false) m.records),
  )
  request_unhold-IsSound id (suc n) m h = ground (
    arith,
    z_eq_iff id k,
    lookup-modify k id (set_held false) m.records,
    lookup-modify k m.active (set_held true) (modify id (set_held false) m.records),
  )

  pub wire_bridge-IsSound :
      (a b : ℤ) (n : ℕ) (m : CallManager B) → IsSound k m → IsSound k (wire_bridge sip a b n m).1
  unfolding wire_bridge
  wire_bridge-IsSound a b zero m h = ground arith
  wire_bridge-IsSound a b (suc n) m h = ground arith

  pub merge_calls-IsSound :
      (a b : ℤ) (m : CallManager B) → IsSound k m → IsSound k (merge_calls sip a b m).1
  unfolding merge_calls
  merge_calls-IsSound a b m h =
      ground (arith, request_unhold-IsSound b 5 m h, wire_bridge-IsSound a b 5 m h)

  pub erase_lingering-IsSound :
      (id : ℤ) (m : CallManager B) → IsSound k m → IsSound k (erase_lingering id m)
  unfolding erase_lingering
  erase_lingering-IsSound id m h = ground (arith, lookup-erase k id m.lingering)

  -- The state of `handle_disconnected` after its writes to the maps.
  abbrev ended : ℤ → CallRecord → CallManager B → CallManager B
  ended id r m = record m {
    backend = sip.release_call id m.backend;
    records = erase id m.records;
    transfers = drop id m.transfers;
    lingering = insert id (set_state CallState.disconnected r) m.lingering;
  }

  ended-IsSound :
      (id active : ℤ) (r : CallRecord) (m : CallManager B)
      → (active ≡ k → k ≢ invalid_id → (id ≢ k) × (active ≡ m.active))
      → (id ≢ k → IsSound k m)
      → IsSound k (record (ended id r m) { active = active })
  unfolding drop
  ended-IsSound id active r m a h = elim (Bool-cases (z_eq id k)) [
    | inl same ↦ ground (
      arith,
      z_eq_iff id k,
      lookup-erase k id m.records,
      lookup-erase k id m.transfers,
      lookup-insert k id (set_state CallState.disconnected r) m.lingering,
    )
    | inr other ↦
        let sound : IsSound k m = h (ne_of_z_eq id k other) in
        ground (
          arith,
          z_eq_iff id k,
          lookup-erase k id m.records,
          lookup-erase k id m.transfers,
          lookup-insert k id (set_state CallState.disconnected r) m.lingering,
        )
  ]

  first_held-live :
      (d : Dict CallRecord) (j : ℤ) → first_held d ≡ some j → is_some (lookup j d) ≡ true
  unfolding first_held lookup
  first_held-live [] j e = cc
  first_held-live ((id, r) ∷ d) j e = ground (arith, z_eq_iff id j, first_held-live d j)

  promote_held-IsSound :
      (id : ℤ) (m : CallManager B)
      → IsSound k (record m { active = invalid_id })
      → (id ≢ m.active → IsSound k m)
      → IsSound k (promote_held sip id m)
  unfolding promote_held
  promote_held-IsSound id m idle h = elim (Bool-cases (z_eq id m.active)) [
    | inr other ↦ rw other (h (ne_of_z_eq id m.active other))
    | inl same ↦ elim (Option-cases (first_held m.records)) [
      | inl nobody ↦ rw (same, nobody) idle
      | inr (next, found) ↦
          rw (same, found)
            (request_unhold-IsSound next 3 _ (
              focus-IsSound next (record m { active = invalid_id })
                (λ e.
                  subst (λ (j : ℤ). is_live j m ≡ true) e (first_held-live m.records next found))
                idle))
    ]
  ]

  pub handle_disconnected-IsSound :
      (id : ℤ) (m : CallManager B)
      → is_live id m ≡ true
      → (id ≢ k → IsSound k m)
      → IsSound k (handle_disconnected sip id m)
  unfolding handle_disconnected
  handle_disconnected-IsSound id m live h = elim (Option-cases (lookup id m.records)) [
    | inl gone ↦ ground (arith)
    | inr (r, e) ↦
        rw (e, handle_disconnected)
          (armed _ (
            promote_held-IsSound id (ended id r m)
              (ended-IsSound id invalid_id r m (λ a n. absurd (n (sym a))) h)
              (λ ne. ended-IsSound id m.active r m (λ a _. (λ e'. ne (e' ∙ sym a), refl)) h)))
  ]
    where
      armed :
          (m' : CallManager B)
          → IsSound k m'
          → IsSound k
              (single_shot m'.linger_ms (Timer.erase_lingering id) (emit Signal.calls_changed m'))
      armed m' s = ground arith
