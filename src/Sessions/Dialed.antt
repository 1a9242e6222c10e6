-- ===== src/Sessions/Dialed.antt =====
-- The guard against dialing a target twice: src/core/CallSessionTracker.cpp, `hasLiveOutboundTo`.
use compact_phone.Base.{
  ℕ, ℤ, ◌≡◌, refl, Bool, true, false, not, ◌&&◌, Option, none, some, List, [], ◌∷◌, arith, z_eq,
  z_eq_iff, z_eq_refl, inl, inr, Option-cases,
}
use compact_phone.Base.Dict.{lookup, insert, erase, is_some, lookup-insert, lookup-erase}
use compact_phone.Base.Text.{Text, is_empty, text_eq_iff}
use compact_phone.Backend.{CallState, is_disconnected}
use compact_phone.Calls.Commands.{CallEntry}
use compact_phone.Sessions.{
  Session, Tracker, session_of, noted, note_outbound, any_dialed, has_live_outbound_to, merge_entry,
  note_incoming, note_state, erase_session,
}

pub data Note : Type 0 where
  outbound : ℤ → ℤ → Text → ℕ → Note
  incoming : CallEntry → ℕ → Note
  state : CallEntry → CallState → ℕ → Note
  erased : ℤ → Note

unfoldable pub note : Note → Tracker → Tracker
note (Note.outbound id acc uri now) t = note_outbound id acc uri now t
note (Note.incoming e now) t = note_incoming e now t
note (Note.state e s now) t = (note_state e s now t).1
note (Note.erased id) t = erase_session id t

unfoldable pub note_all : List Note → Tracker → Tracker
note_all [] t = t
note_all (n ∷ ns) t = note_all ns (note n t)

-- The note neither ends the call `id` nor dials anew under that id.
abbrev pub leaves : ℤ → Note → Bool
leaves id (Note.outbound j acc uri now) = not (z_eq j id)
leaves id (Note.incoming e now) = true
leaves id (Note.state e s now) = not (z_eq e.id id && is_disconnected s)
leaves id (Note.erased j) = not (z_eq j id)

abbrev pub all_leave : ℤ → List Note → Bool
all_leave id [] = true
all_leave id (n ∷ ns) = leaves id n && all_leave id ns

abbrev dialed_of : Option Session → Text
dialed_of none = []
dialed_of (some s) = s.dialed_target

any_dialed-lookup :
    (target : Text) (id : ℤ) (t : Tracker)
    → is_some (lookup id t) ≡ true
    → dialed_of (lookup id t) ≡ target
    → any_dialed target t ≡ true
unfolding any_dialed lookup
any_dialed-lookup target id [] h e = cc
any_dialed-lookup target id ((j, s) ∷ t) h e =
    ground (arith, text_eq_iff s.dialed_target target, any_dialed-lookup target id t)

-- The session of `id` is there, with that target.
abbrev Dialed : ℤ → Text → Tracker → Type 0
Dialed id target t = (is_some (lookup id t) ≡ true) × (dialed_of (lookup id t) ≡ target)

insert-Dialed :
    (id j : ℤ) (target : Text) (s : Session) (t : Tracker)
    → s.dialed_target ≡ (session_of j t).dialed_target
    → Dialed id target t
    → Dialed id target (insert j s t)
insert-Dialed id j target s t e h = elim (Option-cases (lookup id t)) [
  | inl gone ↦ ground (arith, z_eq_iff j id, lookup-insert id j s t)
  | inr (q, there) ↦ ground (arith, z_eq_iff j id, lookup-insert id j s t)
]

merge_entry-dialed_target :
    (e : CallEntry) (now : ℕ) (s : Session) → (merge_entry e now s).dialed_target ≡ s.dialed_target
unfolding merge_entry
merge_entry-dialed_target e now s = refl

erased-Dialed :
    (id j : ℤ) (target : Text) (t : Tracker)
    → z_eq j id ≡ false
    → Dialed id target t
    → Dialed id target (erase j t)
erased-Dialed id j target t ne h = ground (arith, lookup-erase id j t)

note_state-Dialed :
    (id : ℤ) (target : Text) (e : CallEntry) (s : CallState) (now : ℕ) (t : Tracker)
    → leaves id (Note.state e s now) ≡ true
    → Dialed id target t
    → Dialed id target (note_state e s now t).1
unfolding note_state
note_state-Dialed id target e s now t l h =
    let q = merge_entry e now (session_of e.id t) in
    let kept = merge_entry-dialed_target e now (session_of e.id t) in
    ground (
      arith,
      z_eq_iff e.id id,
      insert-Dialed id e.id target q t kept h,
      insert-Dialed id e.id target (record q { connected = true; started_at = now }) t kept h,
      lookup-erase id e.id (insert e.id q t),
      lookup-insert id e.id q t,
    )

note-Dialed :
    (id : ℤ) (target : Text) (n : Note) (t : Tracker)
    → leaves id n ≡ true
    → Dialed id target t
    → Dialed id target (note n t)
unfolding note note_outbound note_incoming erase_session
note-Dialed id target (Note.outbound j acc uri now) t l h =
    ground (arith, lookup-insert id j (noted acc uri now (session_of j t)) t)
note-Dialed id target (Note.incoming e now) t l h =
    insert-Dialed id e.id target _ t (merge_entry-dialed_target e now (session_of e.id t)) h
note-Dialed id target (Note.state e s now) t l h = note_state-Dialed id target e s now t l h
note-Dialed id target (Note.erased j) t l h = erased-Dialed id j target t (ground arith) h

note_all-Dialed :
    (id : ℤ) (target : Text) (ns : List Note) (t : Tracker)
    → all_leave id ns ≡ true
    → Dialed id target t
    → Dialed id target (note_all ns t)
unfolding note_all
note_all-Dialed id target [] t l h = h
note_all-Dialed id target (n ∷ ns) t l h =
    note_all-Dialed id target ns (note n t) (ground arith)
      (note-Dialed id target n t (ground arith) h)

dialed :
    (id acc : ℤ) (target : Text) (now : ℕ) (t : Tracker)
    → Dialed id target (note_outbound id acc target now t)
unfolding note_outbound
dialed id acc target now t =
    ground (arith, z_eq_refl id, lookup-insert id id (noted acc target now (session_of id t)) t)

-- Once an outbound call to a non-empty target is noted, the target counts as live after any further
-- notes, of this call or others, that neither disconnect or erase this call nor dial anew under its
-- id, whatever remote URI they report.
pub dialed_while_up :
    (id acc : ℤ) (target : Text) (now : ℕ) (ns : List Note) (t : Tracker)
    → is_empty target ≡ false
    → all_leave id ns ≡ true
    → has_live_outbound_to target (note_all ns (note_outbound id acc target now t)) ≡ true
unfolding has_live_outbound_to
dialed_while_up id acc target now ns t full l = rw full (
    let d : Dialed id target (note_all ns (note_outbound id acc target now t)) =
      note_all-Dialed id target ns _ l (dialed id acc target now t) in
    any_dialed-lookup target id _ d.0 d.1)
