-- ===== src/Lines/History.antt =====
-- The histories of src/core/LinesManager.cpp: the watches from the start to the destructor.
use compact_phone.Base.{
  ℕ, ◌+◌, ◌≤◌, ℤ, pos, ◌≡◌, refl, ap, ◌∙◌, sym, false, List, [], ◌∷◌, map, if◌then◌else◌, z_eq,
  invalid_id, ◌==◌, arith, inl, inr, Option-cases,
}
use compact_phone.Base.Lists.{length}
use compact_phone.Base.Text.{Text}
use compact_phone.Backend.{SipBackend, PresenceState}
use compact_phone.Lines
use compact_phone.Lines.{
  LineEntry, LinesManager, LineTable, LineState, WatchedLine, find_line, erase_line, set_state,
  line_state_of, unwatched,
}
use compact_phone.Lines.Watches.{
  IsWatching, owners, owners-snoc, owners-erase_line, owners-set_state, IsOwned, watch_entry-held,
  drop_watch-held,
}

-- The accounts may be registered under other ids of the backend at each step.
pub data LineEvent : Type 0 where
  add : (ℤ → ℤ) → ℤ → Text → Text → LineEvent
  remove : ℤ → LineEvent
  presence : ℤ → PresenceState → LineEvent

module _ {B D : Type 0} (sip : SipBackend B) (table : LineTable D) (account_of : ℤ → ℤ) where
  unfoldable pub on_event : LineEvent → LinesManager B D → LinesManager B D
  unfolding Lines.add Lines.remove Lines.on_presence
  on_event (LineEvent.add ids account uri label) m = (Lines.add sip table ids account uri label m).1
  on_event (LineEvent.remove id) m = (Lines.remove sip table account_of id m).1
  on_event (LineEvent.presence watch_id s) m = Lines.on_presence sip table account_of watch_id s m

  unfoldable pub on_events : List LineEvent → LinesManager B D → LinesManager B D
  unfolding on_event
  on_events [] m = m
  on_events (e ∷ es) m = on_events es (on_event e m)

  module _ (held : ℤ → B → ℕ) (laws : IsWatching sip held) (k : ℤ)
      (real : z_eq invalid_id k ≡ false) where
    abbrev Owned : LinesManager B D → Type 0
    Owned m = IsOwned sip table held laws k m.entries m.backend

    subscribe_all-held :
        (es : List LineEntry) (b : B)
        → owners k es ≡ 0
        → let (es', b') = Lines.subscribe_all sip table account_of es b in
          (held k b' ≡ held k b + owners k es') × (held k b ≤ 1 → held k b' ≤ 1)
    unfolding Lines.subscribe_all
    subscribe_all-held [] b none_owned = (ground arith, (λ h. h))
    subscribe_all-held (e ∷ es) b none_owned =
        let b1 = (Lines.watch_entry sip table account_of e b).1 in
        let step = watch_entry-held sip table held laws account_of k real e b (ground arith) in
        let rest = subscribe_all-held es b1 (ground arith) in
        (ground (arith, step, rest), (λ h. rest.1 (ground (arith, step))))

    owners-unwatched :
        (ls : List WatchedLine) → owners k (map (unwatched sip table account_of) ls) ≡ 0
    owners-unwatched [] = refl
    owners-unwatched (l ∷ ls) = ground (arith, owners-unwatched ls)

    opened-Owned : (b : B) (d : D) → held k b ≡ 0 → Owned (Lines.opened sip table account_of b d)
    unfolding Lines.opened
    opened-Owned b d empty =
        let all = map (unwatched sip table account_of) (table.lines d) in
        let subscribed = subscribe_all-held all b (owners-unwatched (table.lines d)) in
        let same =
          subscribed.0
          ∙ ap (λ n. n + owners k (Lines.subscribe_all sip table account_of all b).0) empty in
        (ground (arith, same), ground (arith, same, subscribed.1 (ground arith)))

    add-Owned :
        (ids : ℤ → ℤ) (account : ℤ) (uri label : Text) (m : LinesManager B D)
        → Owned m
        → Owned (Lines.add sip table ids account uri label m).1
    unfolding Lines.add
    add-Owned ids account uri label m h =
        let order = pos (length m.entries) in
        let inserted = table.insert_line account uri label order m.database in
        elim (Option-cases inserted.0) [
          | inl failed ↦ rw (failed, Lines.add) h
          | inr (id, stored) ↦
              let line : WatchedLine = record {
                id = id;
                account_id = account;
                uri = uri;
                label = label;
                sort_order = order;
                state = LineState.unknown;
              } in
              let fresh = unwatched sip table ids line in
              let e = (Lines.watch_entry sip table ids fresh m.backend).0 in
              let step = watch_entry-held sip table held laws ids k real fresh m.backend real in
              let snoc = owners-snoc k e m.entries in
              rw (stored, Lines.add) (ground (arith, step, snoc, h), ground (arith, step, snoc, h))
        ]

    remove-Owned :
        (id : ℤ) (m : LinesManager B D) → Owned m → Owned (Lines.remove sip table account_of id m).1
    unfolding Lines.remove
    remove-Owned id m h = elim (Option-cases (find_line id m.entries)) [
      | inl gone ↦ rw (gone, Lines.remove) h
      | inr (e, found) ↦
          let dropped =
            drop_watch-held sip table held laws account_of k real e.watch_id m.backend in
          let owned = owners-erase_line k id e m.entries found in
          rw (found, Lines.remove) (ground (arith, dropped, owned), ground (arith, owned))
    ]

    presence-Owned :
        (watch_id : ℤ) (s : PresenceState) (m : LinesManager B D)
        → Owned m
        → Owned (Lines.on_presence sip table account_of watch_id s m)
    unfolding Lines.on_presence
    presence-Owned watch_id s m h =
        elim (Option-cases (set_state watch_id (line_state_of s) m.entries)) [
          | inl same ↦ rw (same, Lines.on_presence) h
          | inr (es, changed) ↦
              let kept = owners-set_state k watch_id (line_state_of s) m.entries es changed in
              rw (changed, Lines.on_presence) (h.0 ∙ sym kept, ground (arith, kept))
        ]

    on_events-Owned :
        (es : List LineEvent) (m : LinesManager B D) → Owned m → Owned (on_events es m)
    unfolding on_events on_event
    on_events-Owned [] m h = h
    on_events-Owned (LineEvent.add ids account uri label ∷ es) m h =
        on_events-Owned es (Lines.add sip table ids account uri label m).1
          (add-Owned ids account uri label m h)
    on_events-Owned (LineEvent.remove id ∷ es) m h =
        on_events-Owned es (Lines.remove sip table account_of id m).1 (remove-Owned id m h)
    on_events-Owned (LineEvent.presence watch_id s ∷ es) m h =
        on_events-Owned es (Lines.on_presence sip table account_of watch_id s m)
          (presence-Owned watch_id s m h)

    drop_all-held :
        (es : List LineEntry) (b : B)
        → held k (Lines.drop_all sip table account_of es b)
          ≡ (if owners k es == 0 then held k b else 0)
    unfolding Lines.drop_all
    drop_all-held [] b = refl
    drop_all-held (e ∷ es) b = ground (
      arith,
      drop_all-held es (Lines.drop_watch sip table account_of e.watch_id b),
      drop_watch-held sip table held laws account_of k real e.watch_id b,
    )

-- With a backend that grants only new watches and takes them back, of which it holds none under an id other
-- than -1 at the start: after any sequence of lines that are added, removed and told a presence, the backend
-- holds a watch under this id exactly if a line owns it, and one line at most does; and once the manager is
-- destroyed it holds none.
pub on_events-owners :
    {B D : Type 0} (sip : SipBackend B) (table : LineTable D) (account_of : ℤ → ℤ)
    (held : ℤ → B → ℕ)
    → IsWatching sip held
    → (k : ℤ) → z_eq invalid_id k ≡ false
    → (b : B) (d : D) → held k b ≡ 0
    → (es : List LineEvent)
    → let m = on_events sip table account_of es (Lines.opened sip table account_of b d) in
      (held k m.backend ≡ owners k m.entries)
      × (owners k m.entries ≤ 1)
      × (held k (Lines.closed sip table account_of m) ≡ 0)
unfolding Lines.closed
on_events-owners sip table account_of held laws k real b d empty es =
    let m = on_events sip table account_of es (Lines.opened sip table account_of b d) in
    let owned =
      on_events-Owned sip table account_of held laws k real es
        (Lines.opened sip table account_of b d)
        (opened-Owned sip table account_of held laws k real b d empty) in
    (
      owned.0,
      owned.1,
      ground
          (arith, owned, drop_all-held sip table account_of held laws k real m.entries m.backend),
    )
