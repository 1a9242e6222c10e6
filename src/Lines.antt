-- ===== src/Lines.antt =====
-- src/core/WatchedLine.h, LinesManager.h, LinesManager.cpp, LinesController.cpp: watched lines. The table of
-- watched lines is a parameter: the statements that the program runs, over the database's own state.
pub mod Watches
pub mod History
use compact_phone.Base.{
  ℕ, suc, ◌+◌, ℤ, pos, Bool, true, false, not, ◌&&◌, Option, none, some, List, [], ◌∷◌, ◌++◌, map,
  if◌then◌else◌, z_eq, leb_ℤ, invalid_id,
}
use compact_phone.Base.Lists.{length}
use compact_phone.Base.Text.{Text, codes}
use compact_phone.Backend.{SipBackend, PresenceState}

pub data LineState : Type 0 where
  unknown idle busy offline : LineState

abbrev pub line_state_to_string : LineState → Text
line_state_to_string LineState.unknown = codes "unknown"
line_state_to_string LineState.idle = codes "idle"
line_state_to_string LineState.busy = codes "busy"
line_state_to_string LineState.offline = codes "offline"

-- The cast in `onPresence`, value for value.
abbrev pub line_state_of : PresenceState → LineState
line_state_of PresenceState.unknown = LineState.unknown
line_state_of PresenceState.idle = LineState.idle
line_state_of PresenceState.busy = LineState.busy
line_state_of PresenceState.offline = LineState.offline

abbrev is_same_state : LineState → LineState → Bool
is_same_state LineState.unknown LineState.unknown = true
is_same_state LineState.idle LineState.idle = true
is_same_state LineState.busy LineState.busy = true
is_same_state LineState.offline LineState.offline = true
is_same_state s t = false

pub record WatchedLine : Type 0 where
  pub id : ℤ
  pub account_id : ℤ
  pub uri : Text
  pub label : Text
  pub sort_order : ℤ
  pub state : LineState

-- `watch_id` is -1 while the line is not watched.
pub record LineEntry : Type 0 where
  pub line : WatchedLine
  pub watch_id : ℤ

pub record LineTable (D : Type 0) : Type 0 where
  pub lines : D → List WatchedLine
  pub insert_line : ℤ → Text → Text → ℤ → D → Option ℤ × D
  pub delete_line : ℤ → D → D

-- `changes` counts the `linesChanged` that have been emitted.
pub record LinesManager (B D : Type 0) : Type 0 where
  pub entries : List LineEntry
  pub backend : B
  pub database : D
  pub changes : ℕ

unfoldable pub find_line : ℤ → List LineEntry → Option LineEntry
find_line id [] = none
find_line id (e ∷ es) = if z_eq e.line.id id then some e else find_line id es

unfoldable pub erase_line : ℤ → List LineEntry → List LineEntry
erase_line id [] = []
erase_line id (e ∷ es) = if z_eq e.line.id id then es else e ∷ erase_line id es

-- The loop of `onPresence`: the entries after it, if the state of the first entry of the watch changes.
unfoldable pub set_state : ℤ → LineState → List LineEntry → Option (List LineEntry)
set_state watch_id s [] = none
set_state watch_id s (e ∷ es) =
    let rest = set_state watch_id s es in
    if not (z_eq e.watch_id watch_id)
    then elim rest [ none ↦ none | some es' ↦ some (e ∷ es') ]
    else if is_same_state e.line.state s
    then none
    else some (record e { line = record e.line { state = s } } ∷ es)

module _ {B D : Type 0} (sip : SipBackend B) (table : LineTable D) (backend_id_for : ℤ → ℤ) where
  unfoldable pub watch_entry : LineEntry → B → LineEntry × B
  watch_entry e b =
      let account = backend_id_for e.line.account_id in
      let (watch_id, b') = sip.watch account e.line.uri b in
      if z_eq account invalid_id
      then (e, b)
      else if z_eq watch_id invalid_id
      then (e, b')
      else (record e { watch_id = watch_id }, b')

  unfoldable pub subscribe_all : List LineEntry → B → List LineEntry × B
  unfolding watch_entry
  subscribe_all [] b = ([], b)
  subscribe_all (e ∷ es) b =
      let (e', b1) = watch_entry e b in let (es', b2) = subscribe_all es b1 in (e' ∷ es', b2)

  abbrev unwatched : WatchedLine → LineEntry
  unwatched l = record { line = record l { state = LineState.unknown }; watch_id = invalid_id }

  -- The manager as it is made: `loadFromDatabase` and `subscribeAll`.
  unfoldable pub opened : B → D → LinesManager B D
  unfolding subscribe_all
  opened b d =
      let (entries, b') = subscribe_all (map unwatched (table.lines d)) b in
      record { entries = entries; backend = b'; database = d; changes = 0 }

  unfoldable pub add : ℤ → Text → Text → LinesManager B D → ℤ × LinesManager B D
  unfolding watch_entry
  add account_id uri label m =
      let order = pos (length m.entries) in
      let (inserted, d) = table.insert_line account_id uri label order m.database in
      elim inserted [
        | none ↦ (invalid_id, record m { database = d })
        | some id ↦
            let line : WatchedLine = record {
              id = id;
              account_id = account_id;
              uri = uri;
              label = label;
              sort_order = order;
              state = LineState.unknown;
            } in
            let (e, b) = watch_entry (unwatched line) m.backend in
            (
              id,
              record {
                entries = m.entries ++ e ∷ [];
                backend = b;
                database = d;
                changes = suc m.changes;
              },
            )
      ]

  unfoldable pub drop_watch : ℤ → B → B
  drop_watch watch_id b = if z_eq watch_id invalid_id then b else (sip.unwatch watch_id b).1

  unfoldable pub remove : ℤ → LinesManager B D → Bool × LinesManager B D
  unfolding find_line erase_line drop_watch
  remove id m = elim (find_line id m.entries) [
    | none ↦ (false, m)
    | some e ↦ (
      true,
      record {
        entries = erase_line id m.entries;
        backend = drop_watch e.watch_id m.backend;
        database = table.delete_line id m.database;
        changes = suc m.changes;
      },
    )
  ]

  unfoldable pub on_presence : ℤ → PresenceState → LinesManager B D → LinesManager B D
  unfolding set_state
  on_presence watch_id state m = elim (set_state watch_id (line_state_of state) m.entries) [
    | none ↦ m
    | some entries ↦ record m { entries = entries; changes = suc m.changes }
  ]

  -- The destructor.
  unfoldable pub drop_all : List LineEntry → B → B
  unfolding drop_watch
  drop_all [] b = b
  drop_all (e ∷ es) b = drop_all es (drop_watch e.watch_id b)

  unfoldable pub closed : LinesManager B D → B
  unfolding drop_all
  closed m = drop_all m.entries m.backend

  -- `LinesController::add`, with the id of the active account.
  unfoldable pub add_for_active : ℤ → Text → Text → LinesManager B D → ℤ × LinesManager B D
  unfolding add
  add_for_active active uri label m =
      if leb_ℤ active (pos 0) then (invalid_id, m) else add active uri label m
