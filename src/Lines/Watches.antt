-- ===== src/Lines/Watches.antt =====
-- The watches of src/core/LinesManager.cpp: what a line holds of the backend.
use compact_phone.Base.{
  ℕ, ◌+◌, ◌≤◌, ℤ, ◌≡◌, true, false, not, ◌&&◌, some, List, [], ◌∷◌, ◌++◌, if◌then◌else◌, z_eq,
  z_eq_iff, invalid_id, ◌==◌, arith, inl, inr, Bool-cases, Option-cases,
}
use compact_phone.Base.Text.{Text}
use compact_phone.Backend.{SipBackend}
use compact_phone.Lines
use compact_phone.Lines.{
  LineEntry, LinesManager, LineTable, LineState, WatchedLine, find_line, erase_line, set_state,
  line_state_of,
}

-- What a backend does with watches, by how many it holds under an id: a watch that is granted is new, and
-- unwatching gives it back.
pub record IsWatching {B : Type 0} (sip : SipBackend B) (held : ℤ → B → ℕ) : Type 0 where
  pub refused :
      (account : ℤ) (uri : Text) (b : B) (k : ℤ)
      → z_eq (sip.watch account uri b).0 invalid_id ≡ true
      → held k (sip.watch account uri b).1 ≡ held k b
  pub granted :
      (account : ℤ) (uri : Text) (b : B) (k : ℤ)
      → z_eq (sip.watch account uri b).0 invalid_id ≡ false
      → (held (sip.watch account uri b).0 b ≡ 0)
        × (held k (sip.watch account uri b).1
            ≡ (if z_eq (sip.watch account uri b).0 k then 1 else held k b))
  pub unwatched :
      (id : ℤ) (b : B) (k : ℤ) → held k (sip.unwatch id b).1 ≡ (if z_eq id k then 0 else held k b)

-- How many lines hold the watch `k`.
abbrev pub owners : ℤ → List LineEntry → ℕ
owners k [] = 0
owners k (e ∷ es) = (if z_eq e.watch_id k then 1 else 0) + owners k es

module _ (k : ℤ) where
  pub owners-snoc :
      (e : LineEntry) (es : List LineEntry)
      → owners k (es ++ e ∷ []) ≡ owners k es + (if z_eq e.watch_id k then 1 else 0)
  owners-snoc e [] = ground arith
  owners-snoc e (x ∷ es) = ground (arith, owners-snoc e es)

  pub owners-erase_line :
      (id : ℤ) (e : LineEntry) (es : List LineEntry)
      → find_line id es ≡ some e
      → owners k es ≡ owners k (erase_line id es) + (if z_eq e.watch_id k then 1 else 0)
  unfolding find_line erase_line
  owners-erase_line id e [] found = ground arith
  owners-erase_line id e (x ∷ es) found = ground (arith, owners-erase_line id e es)

  pub owners-set_state :
      (watch_id : ℤ) (s : LineState) (es es' : List LineEntry)
      → set_state watch_id s es ≡ some es'
      → owners k es' ≡ owners k es
  unfolding set_state
  owners-set_state watch_id s [] es' h = ground arith
  owners-set_state watch_id s (e ∷ es) es' h = elim (Option-cases (set_state watch_id s es)) [
    | inl gone ↦ ground arith
    | inr (rest, there) ↦ ground (arith, owners-set_state watch_id s es rest there)
  ]

module _ {B D : Type 0} (sip : SipBackend B) (table : LineTable D) (held : ℤ → B → ℕ)
    (laws : IsWatching sip held) where
  -- The backend holds the watch `k` exactly for the lines that own it, of which there is one at most.
  abbrev pub IsOwned : ℤ → List LineEntry → B → Type 0
  IsOwned k es b = (held k b ≡ owners k es) × (owners k es ≤ 1)

  module _ (account_of : ℤ → ℤ) (k : ℤ) (real : z_eq invalid_id k ≡ false) where
    pub watch_entry-held :
        (e : LineEntry) (b : B)
        → z_eq e.watch_id k ≡ false
        → let (e', b') = Lines.watch_entry sip table account_of e b in
          (held k b' ≡ (if z_eq e'.watch_id k then 1 else held k b))
          × ((z_eq e'.watch_id k && not (held k b == 0)) ≡ false)
    unfolding Lines.watch_entry
    watch_entry-held e b off =
        let account = account_of e.line.account_id in
        let id = (sip.watch account e.line.uri b).0 in
        elim (Bool-cases (z_eq account invalid_id)) [
          | inl none_yet ↦ rw (none_yet, Lines.watch_entry) (ground arith)
          | inr known ↦ elim (Bool-cases (z_eq id invalid_id)) [
            | inl no_watch ↦
                let law = laws.refused account e.line.uri b k no_watch in
                rw (known, no_watch, Lines.watch_entry) (ground arith)
            | inr watched ↦
                let law = laws.granted account e.line.uri b k watched in
                rw (known, watched, Lines.watch_entry) (ground (arith, z_eq_iff id k))
          ]
        ]

    pub drop_watch-held :
        (watch_id : ℤ) (b : B)
        → held k (Lines.drop_watch sip table account_of watch_id b)
          ≡ (if z_eq watch_id k then 0 else held k b)
    unfolding Lines.drop_watch
    drop_watch-held watch_id b = ground (
      arith,
      laws.unwatched watch_id b k,
      z_eq_iff watch_id k,
      z_eq_iff watch_id invalid_id,
      z_eq_iff invalid_id k,
    )
