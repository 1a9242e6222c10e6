-- ===== src/Calls/Active.antt =====
-- src/core/CallManager.cpp: the active call, hold and unhold with its retries, the conference, and
-- the end of a call. The methods stand over any backend.
use compact_phone.Base.{
  ℕ, zero, suc, ℤ, Bool, true, false, not, ◌&&◌, ◌||◌, Option, none, some, [], ◌∷◌, if◌then◌else◌,
  z_eq, invalid_id,
}
use compact_phone.Base.Dict.{Dict, lookup, insert, erase, modify, is_some}
use compact_phone.Backend.{SipBackend, CallState, is_confirmed}
use compact_phone.Calls.{CallRecord, Signal, Timer, CallManager}
use compact_phone.Calls.Transfers.{drop}

-- Writes to one field of a record in the map.
abbrev pub set_held : Bool → CallRecord → CallRecord
set_held b r = record r { held = b }

abbrev pub set_state : CallState → CallRecord → CallRecord
set_state s r = record r { state = s }

abbrev pub emit : {B : Type 0} → Signal → CallManager B → CallManager B
emit s m = record m { signals = s ∷ m.signals }

abbrev pub single_shot : {B : Type 0} → ℕ → Timer → CallManager B → CallManager B
single_shot delay t m = record m { timers = (delay, t) ∷ m.timers }

abbrev pub is_live : {B : Type 0} → ℤ → CallManager B → Bool
is_live id m = is_some (lookup id m.records)

unfoldable pub is_held : {B : Type 0} → ℤ → CallManager B → Bool
is_held id m = elim (lookup id m.records) [ none ↦ false | some r ↦ r.held ]

unfoldable pub is_confirmed_state : {B : Type 0} → ℤ → CallManager B → Bool
is_confirmed_state id m = elim (lookup id m.records) [
  | none ↦ false
  | some r ↦ is_confirmed r.state
]

-- The first held confirmed call in the map's order.
unfoldable pub first_held : Dict CallRecord → Option ℤ
first_held [] = none
first_held ((id, r) ∷ d) =
    if not r.held || not (is_confirmed r.state) then first_held d else some id

unfoldable pub erase_lingering : {B : Type 0} → ℤ → CallManager B → CallManager B
erase_lingering id m =
    if is_some (lookup id m.lingering)
    then emit Signal.calls_changed (record m { lingering = erase id m.lingering })
    else m

module _ {B : Type 0} (sip : SipBackend B) where
  -- The block that holds the call that was active, in `setActiveCall` and in `requestUnhold`. The
  -- flag is set whatever the backend says.
  unfoldable pub hold_previous : CallManager B → CallManager B
  hold_previous m = if z_eq m.active invalid_id then m else elim (lookup m.active m.records) [
    | none ↦ m
    | some r ↦
        if is_confirmed r.state && not r.held
        then record m {
          backend = (sip.hold m.active m.backend).1;
          records = modify m.active (set_held true) m.records;
        }
        else m
  ]

  unfoldable pub unhold_new : ℤ → CallManager B → CallManager B
  unhold_new id m = if z_eq id invalid_id then m else elim (lookup id m.records) [
    | none ↦ m
    | some r ↦
        if r.held
        then record m {
          backend = (sip.unhold id m.backend).1;
          records = modify id (set_held false) m.records;
        }
        else m
  ]

  unfoldable pub set_active_call : ℤ → CallManager B → CallManager B
  unfolding hold_previous unhold_new
  set_active_call id m =
      if z_eq m.active id
      then m
      else let held = hold_previous m in unhold_new id (record held { active = id })

  unfoldable pub hold : ℤ → CallManager B → Bool × CallManager B
  hold id m =
      if not (is_live id m)
      then (false, m)
      else let (ok, b) = sip.hold id m.backend in
        if ok
        then (true, record m { backend = b; records = modify id (set_held true) m.records })
        else (false, record m { backend = b })

  -- The branch of `requestUnhold` where the backend refused.
  unfoldable pub unhold_refused : ℤ → ℕ → CallManager B → Bool × CallManager B
  unhold_refused id zero m = (false, m)
  unhold_refused id (suc n) m = (
    true,
    record m {
      records = modify id (set_held false) m.records;
      timers = (300, Timer.retry_unhold id n) ∷ m.timers;
    },
  )

  unfoldable pub request_unhold : ℤ → ℕ → CallManager B → Bool × CallManager B
  unfolding hold_previous unhold_refused
  request_unhold id retries m =
      if not (is_live id m)
      then (false, m)
      else let (ok, b) = sip.unhold id m.backend in
        if not ok
        then unhold_refused id retries (record m { backend = b })
        else let resumed = record m {
          backend = b;
          records = modify id (set_held false) m.records;
        } in
          if z_eq m.active id
          then (true, resumed)
          else let held = hold_previous resumed in (true, record held { active = id })

  unfoldable pub unhold : ℤ → CallManager B → Bool × CallManager B
  unfolding request_unhold
  unhold id m = request_unhold id 5 m

  unfoldable pub bridge_refused : ℤ → ℤ → ℕ → CallManager B → Bool × CallManager B
  bridge_refused a h zero m = (false, m)
  bridge_refused a h (suc n) m = (true, single_shot 400 (Timer.retry_bridge a h n) m)

  unfoldable pub wire_bridge : ℤ → ℤ → ℕ → CallManager B → Bool × CallManager B
  unfolding bridge_refused
  wire_bridge a h retries m =
      if not (is_live a m) || not (is_live h m)
      then (false, m)
      else let (ok, b) = sip.bridge a h m.backend in
        if ok
        then (true, record m { backend = b })
        else bridge_refused a h retries (record m { backend = b })

  unfoldable pub merge_calls : ℤ → ℤ → CallManager B → Bool × CallManager B
  merge_calls a h m =
      if not (is_live a m) || not (is_live h m)
      then (false, m)
      else if not (is_confirmed_state a m) || not (is_confirmed_state h m)
      then (false, m)
      else if not (is_held h m)
      then wire_bridge a h 5 m
      else let (ok, m') = request_unhold h 5 m in
        if not ok then (false, m') else (true, single_shot 600 (Timer.retry_bridge a h 5) m')

  -- After the record has gone: the active call is replaced by a held confirmed one, if there is one.
  unfoldable pub promote_held : ℤ → CallManager B → CallManager B
  unfolding request_unhold first_held
  promote_held id m =
      if z_eq id m.active
      then elim (first_held m.records) [
        | none ↦ record m { active = invalid_id }
        | some next ↦ (request_unhold next 3 (record m { active = next })).1
      ]
      else m

  unfoldable pub handle_disconnected : ℤ → CallManager B → CallManager B
  unfolding promote_held drop
  handle_disconnected id m = elim (lookup id m.records) [
    | none ↦ m
    | some r ↦
        let ended = record m {
          backend = sip.release_call id m.backend;
          records = erase id m.records;
          transfers = drop id m.transfers;
          lingering = insert id (set_state CallState.disconnected r) m.lingering;
        } in
        let promoted = promote_held id ended in
        single_shot promoted.linger_ms (Timer.erase_lingering id)
          (emit Signal.calls_changed promoted)
  ]
