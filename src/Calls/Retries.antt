-- ===== src/Calls/Retries.antt =====
-- Unhold and bridge requests that the backend refuses, and the merge of an active with a held call.
use compact_phone.Base.{
  ℕ, zero, suc, ℤ, ◌≡◌, refl, ◌≢◌, Bool, true, false, not, ◌&&◌, ◌||◌, Option, List, [], ◌∷◌, arith,
  z_eq, z_eq_iff, z_eq_refl, invalid_id, if◌then◌else◌,
}
use compact_phone.Base.Dict.{modify, lookup-modify}
use compact_phone.Account.{AccountsView}
use compact_phone.Backend.{SipBackend}
use compact_phone.Calls.{CallManager, Timer}
use compact_phone.Calls.Active.{
  is_live, is_held, is_confirmed_state, set_held, unhold, request_unhold, merge_calls,
}
use compact_phone.Calls.Events.{on_timer}
use compact_phone.Calls.Run.{Input, step, run}

-- `retriesRemaining > 0`
abbrev retries_left : ℕ → Bool
retries_left zero = false
retries_left (suc n) = true

abbrev armed : ℤ → ℕ → List (ℕ × Timer) → List (ℕ × Timer)
armed id zero ts = ts
armed id (suc n) ts = (300, Timer.retry_unhold id n) ∷ ts

-- The retries that are left at `n`, as they fire one after the other.
abbrev pub countdown :
    {B : Type 0} → Option AccountsView → ℤ → ℕ → List (Option AccountsView × Input B)
countdown am id zero = (am, Input.timer (Timer.retry_unhold id zero)) ∷ []
countdown am id (suc n) = (am, Input.timer (Timer.retry_unhold id (suc n))) ∷ countdown am id n

module _ {B : Type 0} (sip : SipBackend B) where
  request_unhold_refused :
      (id j : ℤ) (n : ℕ) (m : CallManager B)
      → is_live id m ≡ true
      → (sip.unhold id m.backend).0 ≡ false
      → let (ok, m') = request_unhold sip id n m in
        (ok ≡ retries_left n)
        × (m'.timers ≡ armed id n m.timers)
        × (m'.active ≡ m.active)
        × (is_held j m' ≡ (if retries_left n && z_eq id j then false else is_held j m))
  unfolding request_unhold is_held
  request_unhold_refused id j zero m live refused = ground arith
  request_unhold_refused id j (suc n) m live refused =
      ground (arith, lookup-modify j id (set_held false) m.records)

  -- A live call whose unhold the backend grants becomes the active one and is off hold; the call that
  -- was active before is on hold if it is confirmed. No single shot is armed.
  pub request_unhold_granted :
      (id j : ℤ) (n : ℕ) (m : CallManager B)
      → is_live id m ≡ true
      → (sip.unhold id m.backend).0 ≡ true
      → let (ok, m') = request_unhold sip id n m in
        (ok ≡ true)
        × (m'.active ≡ id)
        × (m'.timers ≡ m.timers)
        × (is_held j m' ≡ (
            if z_eq id j
            then false
            else is_held j m
              || (z_eq m.active j && not (z_eq j invalid_id) && is_confirmed_state j m)))
  unfolding request_unhold is_held is_confirmed_state
  request_unhold_granted id j n m live granted = ground (
    arith,
    z_eq_iff id j,
    z_eq_iff m.active j,
    z_eq_iff m.active id,
    lookup-modify j id (set_held false) m.records,
    lookup-modify m.active id (set_held false) m.records,
    lookup-modify j m.active (set_held true) (modify id (set_held false) m.records),
  )

  confirmed-live : (j : ℤ) (m : CallManager B) → is_confirmed_state j m ≡ true → is_live j m ≡ true
  unfolding is_confirmed_state
  confirmed-live j m c = ground arith

  rearmed :
      (j : ℤ) (ts : List (ℕ × Timer)) (m : CallManager B)
      → is_held j (record m { timers = ts }) ≡ is_held j m
  unfolding is_held
  rearmed j ts m = refl

  -- Merging a confirmed active call with a confirmed held one, over a backend that grants the unhold,
  -- reports success and leaves the first of the two on hold, with the held one active in its place and
  -- the bridge still to be tried.
  pub merge_holds_active :
      (a h : ℤ) (m : CallManager B)
      → m.active ≡ a
      → a ≢ h
      → a ≢ invalid_id
      → is_confirmed_state a m ≡ true
      → is_confirmed_state h m ≡ true
      → is_held a m ≡ false
      → is_held h m ≡ true
      → (sip.unhold h m.backend).0 ≡ true
      → let (ok, m') = merge_calls sip a h m in
        (ok ≡ true)
        × (is_held a m' ≡ true)
        × (is_held h m' ≡ false)
        × (m'.active ≡ h)
        × (m'.timers ≡ (600, Timer.retry_bridge a h 5) ∷ m.timers)
  unfolding merge_calls
  merge_holds_active a h m active ne valid ca ch ha hh granted = ground (
    arith,
    z_eq_iff h a,
    z_eq_iff m.active a,
    z_eq_iff a invalid_id,
    z_eq_refl h,
    confirmed-live a m ca,
    confirmed-live h m ch,
    rearmed a ((600, Timer.retry_bridge a h 5) ∷ m.timers) (request_unhold sip h 5 m).1,
    rearmed h ((600, Timer.retry_bridge a h 5) ∷ m.timers) (request_unhold sip h 5 m).1,
    request_unhold_granted h a 5 m (confirmed-live h m ch) granted,
    request_unhold_granted h h 5 m (confirmed-live h m ch) granted,
  )

  request_unhold_refused-live :
      (id : ℤ) (n : ℕ) (m : CallManager B)
      → is_live id m ≡ true
      → (sip.unhold id m.backend).0 ≡ false
      → is_live id (request_unhold sip id n m).1 ≡ true
  unfolding request_unhold
  request_unhold_refused-live id zero m live refused = ground arith
  request_unhold_refused-live id (suc n) m live refused =
      ground (arith, lookup-modify id id (set_held false) m.records)

  -- What stays while the retries fire.
  abbrev Unheld : ℤ → ℤ → CallManager B → Type 0
  Unheld id active m = (is_held id m ≡ false) × (is_live id m ≡ true) × (m.active ≡ active)

  module _ (id : ℤ) (refused : (b : B) → (sip.unhold id b).0 ≡ false) where
    retry-Unheld :
        (active : ℤ) (n : ℕ) (m : CallManager B)
        → Unheld id active m
        → Unheld id active (request_unhold sip id n m).1
    retry-Unheld active zero m h = ground (
      arith,
      request_unhold_refused id id zero m h.1 (refused m.backend),
      request_unhold_refused-live id zero m h.1 (refused m.backend),
    )
    retry-Unheld active (suc n) m h = ground (
      arith,
      z_eq_refl id,
      request_unhold_refused id id (suc n) m h.1 (refused m.backend),
      request_unhold_refused-live id (suc n) m h.1 (refused m.backend),
    )

    countdown-Unheld :
        (am : Option AccountsView) (active : ℤ) (n : ℕ) (m : CallManager B)
        → Unheld id active m
        → Unheld id active (run sip (countdown am id n) m)
    unfolding run step on_timer
    countdown-Unheld am active zero m h = retry-Unheld active zero m h
    countdown-Unheld am active (suc n) m h =
        countdown-Unheld am active n _ (retry-Unheld active (suc n) m h)

  -- The live call `id` over a backend that refuses each of its unholds: `unhold` reports success, and
  -- once its five retries have fired as well the call is live and marked as not held, although the
  -- backend has resumed it at no time. The active call is the one it was.
  pub unhold_never_granted :
      (am : Option AccountsView) (id : ℤ) (m : CallManager B)
      → is_live id m ≡ true
      → ((b : B) → (sip.unhold id b).0 ≡ false)
      → let (ok, tried) = unhold sip id m in
        let m' = run sip (countdown am id 4) tried in
        (ok ≡ true) × (is_held id m' ≡ false) × (is_live id m' ≡ true) × (m'.active ≡ m.active)
  unfolding unhold
  unhold_never_granted am id m live refused = ground (
    arith,
    z_eq_refl id,
    request_unhold_refused id id 5 m live (refused m.backend),
    request_unhold_refused-live id 5 m live (refused m.backend),
    countdown-Unheld id refused am m.active 4 (request_unhold sip id 5 m).1,
  )
