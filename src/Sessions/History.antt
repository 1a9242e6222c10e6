-- ===== src/Sessions/History.antt =====
-- The history entry of a call: src/core/CallSessionTracker.cpp, `noteState`.
use compact_phone.Base.{
  ℕ, ◌<◌, ℤ, ◌≡◌, Bool, true, false, not, ◌&&◌, Option, none, some, List, [], ◌∷◌, arith, ltb, z_eq,
  z_eq_iff, z_eq_refl, invalid_id, if◌then◌else◌, Bool-cases, inl, inr,
}
use compact_phone.Base.Dict.{lookup, insert, is_some, lookup-insert, lookup-erase}
use compact_phone.Base.Text.{Text, is_empty}
use compact_phone.Backend.{CallState, is_disconnected, is_confirmed}
use compact_phone.Calls.Commands.{CallEntry}
use compact_phone.Sessions.{
  Session, Tracker, HistoryEntry, session_of, noted, note_outbound, merge_entry, note_state,
  history_of, elapsed, connect,
}

-- What is told of one call: an entry, a state and a time.
abbrev pub Told : Type 0
Told = CallEntry × CallState × ℕ

-- Told of the call `id`, which it does not end, at a time after the epoch.
abbrev pub is_about : ℤ → Told → Bool
is_about id (e, s, now) = z_eq e.id id && not (is_disconnected s) && ltb 0 now

abbrev pub all_about : ℤ → List Told → Bool
all_about id [] = true
all_about id (x ∷ xs) = is_about id x && all_about id xs

unfoldable pub tell_all : List Told → Tracker → Tracker
tell_all [] t = t
tell_all ((e, s, now) ∷ xs) t = tell_all xs (note_state e s now t).1

-- When the call was first told to be confirmed, if it was.
abbrev pub first_confirmed : Option ℕ → List Told → Option ℕ
first_confirmed c [] = c
first_confirmed (some c) (x ∷ xs) = first_confirmed (some c) xs
first_confirmed none ((e, s, now) ∷ xs) =
    first_confirmed (if is_confirmed s then some now else none) xs

abbrev pub time_or : ℕ → Option ℕ → ℕ
time_or d none = d
time_or d (some c) = c

-- The session knows when the call was seen and confirmed, and with whom it is.
pub record Tells (seen : ℕ) (c : Option ℕ) (s : Session) : Type 0 where
  pub connected : s.connected ≡ is_some c
  pub started : s.started_at ≡ time_or s.started_at c
  pub after_epoch : is_some c ≡ true → 0 < s.started_at
  pub seen_first : s.first_seen_at ≡ seen
  pub seen_late : 0 < seen
  pub account : z_eq s.account_id invalid_id ≡ false
  pub remote : is_empty s.remote_uri ≡ false

merge_entry-Tells :
    (seen : ℕ) (c : Option ℕ) (e : CallEntry) (now : ℕ) (s : Session)
    → Tells seen c s
    → Tells seen c (merge_entry e now s)
unfolding merge_entry
merge_entry-Tells seen c e now s h = ground arith

abbrev pub times_of : Option HistoryEntry → Option (ℕ × ℕ)
times_of none = none
times_of (some h) = some (h.started_at, h.duration_ms)

abbrev pub lasted : Option ℕ → ℕ → ℕ
lasted none now = 0
lasted (some c) now = elapsed c now

-- The session after one call of `noteState` that does not end the call.
told-session :
    (id : ℤ) (e : CallEntry) (s : CallState) (now : ℕ) (t : Tracker)
    → is_about id (e, s, now) ≡ true
    → session_of id (note_state e s now t).1 ≡ (
        if is_confirmed s
        then connect now (merge_entry e now (session_of id t))
        else merge_entry e now (session_of id t))
unfolding note_state
told-session id e s now t a =
    let q = merge_entry e now (session_of e.id t) in
    ground
      (arith, z_eq_iff e.id id, lookup-insert id e.id q t, lookup-insert id e.id (connect now q) t)

connect-Tells :
    (seen : ℕ) (c : Option ℕ) (now : ℕ) (s : Session)
    → 0 < now
    → Tells seen c s
    → Tells seen (some (time_or now c)) (connect now s)
connect-Tells seen none now s pos_now h = ground arith
connect-Tells seen (some c) now s pos_now h = ground arith

-- The first confirmation, once one more state has been told.
abbrev confirmed_after : Option ℕ → CallState → ℕ → Option ℕ
confirmed_after c s now = if is_confirmed s then some (time_or now c) else c

told-Tells :
    (id : ℤ) (seen : ℕ) (c : Option ℕ) (e : CallEntry) (s : CallState) (now : ℕ) (t : Tracker)
    → is_about id (e, s, now) ≡ true
    → Tells seen c (session_of id t)
    → Tells seen (confirmed_after c s now) (session_of id (note_state e s now t).1)
told-Tells id seen c e s now t a h =
    let merged : Tells seen c (merge_entry e now (session_of id t)) =
      merge_entry-Tells seen c e now (session_of id t) h in
    elim (Bool-cases (is_confirmed s)) [
      | inl up ↦
          rw (told-session id e s now t a, up) (connect-Tells seen c now _ (ground arith) merged)
      | inr other ↦ rw (told-session id e s now t a, other) merged
    ]

kept_confirmed :
    (id : ℤ) (seen c : ℕ) (s : CallState) (now : ℕ) (q : Session)
    → Tells seen (confirmed_after (some c) s now) q
    → Tells seen (some c) q
kept_confirmed id seen c s now q h = elim (Bool-cases (is_confirmed s)) [
  | inl up ↦ rw up at h
  | inr other ↦ rw other at h
]

tell_all-Tells :
    (id : ℤ) (seen : ℕ) (c : Option ℕ) (xs : List Told) (t : Tracker)
    → all_about id xs ≡ true
    → Tells seen c (session_of id t)
    → Tells seen (first_confirmed c xs) (session_of id (tell_all xs t))
unfolding tell_all
tell_all-Tells id seen none [] t a h = h
tell_all-Tells id seen (some c) [] t a h = h
tell_all-Tells id seen none ((e, s, now) ∷ xs) t a h =
    tell_all-Tells id seen (if is_confirmed s then some now else none) xs _ (ground arith)
      (told-Tells id seen none e s now t (ground arith) h)
tell_all-Tells id seen (some c) ((e, s, now) ∷ xs) t a h =
    tell_all-Tells id seen (some c) xs _ (ground arith)
      (kept_confirmed id seen c s now _ (told-Tells id seen (some c) e s now t (ground arith) h))

noted-Tells :
    (id acc : ℤ) (target : Text) (seen : ℕ) (t : Tracker)
    → lookup id t ≡ none
    → z_eq acc invalid_id ≡ false
    → is_empty target ≡ false
    → 0 < seen
    → Tells seen none (session_of id (note_outbound id acc target seen t))
unfolding note_outbound
noted-Tells id acc target seen t fresh valid full pos_seen =
    ground (arith, z_eq_refl id, lookup-insert id id (noted acc target seen (session_of id t)) t)

ended-Tells :
    (seen : ℕ) (c : Option ℕ) (now : ℕ) (s : Session)
    → Tells seen c s
    → ((history_of now s).started_at ≡ time_or seen c)
      × ((history_of now s).duration_ms ≡ lasted c now)
unfolding history_of
ended-Tells seen none now s h = ground arith
ended-Tells seen (some c) now s h = ground arith

note_end-history :
    (id : ℤ) (seen : ℕ) (c : Option ℕ) (e : CallEntry) (now : ℕ) (t : Tracker)
    → e.id ≡ id
    → Tells seen c (session_of id t)
    → let (entry, t') = note_state e CallState.disconnected now t in
      (times_of entry ≡ some (time_or seen c, lasted c now)) × (lookup id t' ≡ none)
unfolding note_state
note_end-history id seen c e now t same h =
    let q = merge_entry e now (session_of id t) in
    let merged : Tells seen c q = merge_entry-Tells seen c e now (session_of id t) h in
    ground
      (arith, z_eq_refl id, ended-Tells seen c now q merged, lookup-erase id id (insert id q t))

-- An outbound call of a valid account to a non-empty target, seen first at `seen`, that is told of in
-- any number of states before it ends at `now`, leaves one history entry: it starts at the first
-- confirmation and lasts from then to the end, or starts at `seen` and lasts for no time if there was
-- none. Its session is gone.
pub outbound_call_history :
    (id acc : ℤ) (target : Text) (seen now : ℕ) (xs : List Told) (e : CallEntry) (t : Tracker)
    → lookup id t ≡ none
    → z_eq acc invalid_id ≡ false
    → is_empty target ≡ false
    → 0 < seen
    → all_about id xs ≡ true
    → e.id ≡ id
    → let (entry, t') =
        note_state e CallState.disconnected now
          (tell_all xs (note_outbound id acc target seen t)) in
      let confirmed_at = first_confirmed none xs in
      (times_of entry ≡ some (time_or seen confirmed_at, lasted confirmed_at now))
      × (lookup id t' ≡ none)
outbound_call_history id acc target seen now xs e t fresh valid full pos_seen about same =
    note_end-history id seen (first_confirmed none xs) e now _ same (
      tell_all-Tells id seen none xs _ about
        (noted-Tells id acc target seen t fresh valid full pos_seen))
