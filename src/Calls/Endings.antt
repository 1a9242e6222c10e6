-- ===== src/Calls/Endings.antt =====
-- How a call ends: the record is frozen for the linger window, the active call is replaced, and the
-- legs of a finished transfer are hung up.
use compact_phone.Base.{
  ℕ, zero, suc, ℤ, ◌≡◌, refl, ◌≢◌, true, false, Option, none, some, List, [], ◌∷◌, arith, z_eq,
  z_eq_iff, z_eq_refl, invalid_id, inl, inr, Bool-cases, Option-cases, if◌then◌else◌,
}
use compact_phone.Base.Dict.{
  Dict, lookup, is_some, modify, erase, insert, lookup-modify, lookup-insert, lookup-erase,
}
use compact_phone.Backend.{SipBackend, CallState}
use compact_phone.Calls.{CallRecord, CallManager, Timer}
use compact_phone.Calls.Active.{
  is_live, set_held, first_held, request_unhold, promote_held, handle_disconnected,
}
use compact_phone.Calls.Commands.{last_status_code}
use compact_phone.Calls.Events.{on_call_state, notify_state_change}
use compact_phone.Calls.Transfers.{drop}

-- An id, or -1 if there is none.
abbrev or_invalid : Option ℤ → ℤ
or_invalid none = invalid_id
or_invalid (some id) = id

-- The single shot that was armed last.
abbrev pub latest : List (ℕ × Timer) → Option (ℕ × Timer)
latest [] = none
latest (t ∷ ts) = some t

-- The live records after the final state has been written to the record of `id`.
abbrev stated : {B : Type 0} → ℤ → ℤ → CallManager B → Dict CallRecord
stated id code m =
    modify id (λ r. record r { last_status_code = code; state = CallState.disconnected }) m.records

module _ {B : Type 0} (sip : SipBackend B) where
  request_unhold-keeps :
      (id j : ℤ) (n : ℕ) (m : CallManager B)
      → let m' = (request_unhold sip id n m).1 in
        (is_live j m' ≡ is_live j m)
        × (m'.lingering ≡ m.lingering)
        × (m'.transfers ≡ m.transfers)
        × (m'.linger_ms ≡ m.linger_ms)
        × (m.active ≡ id → m'.active ≡ id)
  unfolding request_unhold
  request_unhold-keeps id j zero m = ground (
    arith,
    z_eq_iff m.active id,
    lookup-modify j id (set_held false) m.records,
    lookup-modify j m.active (set_held true) (modify id (set_held false) m.records),
  )
  request_unhold-keeps id j (suc n) m = ground (
    arith,
    z_eq_iff m.active id,
    lookup-modify j id (set_held false) m.records,
    lookup-modify j m.active (set_held true) (modify id (set_held false) m.records),
  )

  promote_held-keeps :
      (id j : ℤ) (m : CallManager B)
      → let m' = promote_held sip id m in
        (is_live j m' ≡ is_live j m)
        × (m'.lingering ≡ m.lingering)
        × (m'.transfers ≡ m.transfers)
        × (m'.linger_ms ≡ m.linger_ms)
        × (m'.active ≡ (if z_eq id m.active then or_invalid (first_held m.records) else m.active))
  unfolding promote_held
  promote_held-keeps id j m = elim (Bool-cases (z_eq id m.active)) [
    | inr other ↦ rw (other, promote_held) (refl, refl, refl, refl, refl)
    | inl same ↦ elim (Option-cases (first_held m.records)) [
      | inl nobody ↦ rw (same, nobody, promote_held) (refl, refl, refl, refl, refl)
      | inr (next, found) ↦
          rw (same, found, promote_held)
            (ground (arith, request_unhold-keeps next j 3 (record m { active = next })))
    ]
  ]

  -- The manager as it looks for the next active call.
  abbrev released : ℤ → ℤ → CallRecord → CallManager B → CallManager B
  released id code r m =
      let m' =
        notify_state_change id CallState.disconnected (record m { records = stated id code m }) in
      record m' {
        backend = sip.release_call id m'.backend;
        records = erase id m'.records;
        transfers = drop id m'.transfers;
        lingering =
            insert id (record r { last_status_code = code; state = CallState.disconnected })
              m'.lingering;
      }

  -- The live call `id` of record `r` is disconnected with a code: it is live no longer, its record
  -- lingers with that code and as it was in everything else, the code can be read from then on, its
  -- pending transfer is dropped, and the single shot that ends the linger window is armed. If it was
  -- the active call, the first held confirmed one of the rest takes its place, or none; else the
  -- active call stays. Another call `j` is live exactly if it was.
  pub disconnect_outcome :
      (id j code : ℤ) (r : CallRecord) (m : CallManager B)
      → lookup id m.records ≡ some r
      → id ≢ j
      → let m' = on_call_state sip id CallState.disconnected code m in
        (is_live id m' ≡ false)
        × (is_live j m' ≡ is_live j m)
        × (lookup id m'.lingering
            ≡ some (record r { state = CallState.disconnected; last_status_code = code }))
        × (last_status_code id m' ≡ code)
        × (is_some (lookup id m'.transfers) ≡ false)
        × (latest m'.timers ≡ some (m.linger_ms, Timer.erase_lingering id))
        × (m'.active ≡ (
            if z_eq id m.active
            then or_invalid (first_held (erase id (stated id code m)))
            else m.active))
  unfolding on_call_state handle_disconnected last_status_code
  disconnect_outcome id j code r m live ne =
      let final =
        λ (q : CallRecord). record q { last_status_code = code; state = CallState.disconnected } in
      let over = released id code r m in
      ground (
        arith,
        z_eq_refl id,
        z_eq_iff id j,
        lookup-modify id id final m.records,
        lookup-modify j id final m.records,
        lookup-erase id id (stated id code m),
        lookup-erase j id (stated id code m),
        lookup-erase id id m.transfers,
        lookup-insert id id (final r) m.lingering,
        promote_held-keeps id id over,
        promote_held-keeps id j over,
      )
