-- ===== src/Sessions.antt =====
-- src/core/CallSessionTracker.h and CallSessionTracker.cpp, with src/core/HistoryEntry.h: from the
-- states of a call to its entry in the history. Times are milliseconds since the epoch, so natural
-- numbers; 0 stands for "not yet", as in the source.
pub mod Dialed
pub mod History
use compact_phone.Base.{
  ℕ, ◌-◌, ℤ, Bool, true, false, not, ◌&&◌, ◌||◌, Option, none, some, List, [], ◌∷◌, ltb, leb, ◌==◌,
  if◌then◌else◌, z_eq, invalid_id,
}
use compact_phone.Base.Dict.{Dict, lookup, insert, erase}
use compact_phone.Base.Text.{Text, is_empty, text_eq}
use compact_phone.Backend.{CallState, is_confirmed, is_disconnected}
use compact_phone.Calls.Commands.{CallEntry, CallDirection}

pub record HistoryEntry : Type 0 where
  pub id : ℤ
  pub account_id : ℤ
  pub direction : CallDirection
  pub remote_uri : Text
  pub remote_display_name : Text
  pub started_at : ℕ
  pub duration_ms : ℕ
  pub end_reason : Text

pub record Session : Type 0 where
  pub account_id : ℤ
  pub remote_uri : Text
  pub dialed_target : Text
  pub remote_display_name : Text
  pub direction : CallDirection
  pub first_seen_at : ℕ
  pub started_at : ℕ
  pub connected : Bool
  pub has_direction : Bool

abbrev pub Tracker : Type 0
Tracker = Dict Session

abbrev pub new_session : Session
new_session = record {
  account_id = invalid_id;
  remote_uri = [];
  dialed_target = [];
  remote_display_name = [];
  direction = CallDirection.outbound;
  first_seen_at = 0;
  started_at = 0;
  connected = false;
  has_direction = false;
}

abbrev pub or_new : Option Session → Session
or_new none = new_session
or_new (some s) = s

-- `m_sessions[id]`
abbrev pub session_of : ℤ → Tracker → Session
session_of id t = or_new (lookup id t)

abbrev pub seen_at : ℕ → Session → ℕ
seen_at now s = if s.first_seen_at == 0 then now else s.first_seen_at

-- What `noteOutbound` writes to the session of the call.
abbrev pub noted : ℤ → Text → ℕ → Session → Session
noted acc uri now s = record s {
  account_id = acc;
  remote_uri = uri;
  dialed_target = uri;
  direction = CallDirection.outbound;
  has_direction = true;
  first_seen_at = seen_at now s;
}

unfoldable pub note_outbound : ℤ → ℤ → Text → ℕ → Tracker → Tracker
note_outbound id account_id remote_uri now t =
    insert id (noted account_id remote_uri now (session_of id t)) t

any_dialed : Text → Tracker → Bool
any_dialed target [] = false
any_dialed target ((id, s) ∷ t) = text_eq s.dialed_target target || any_dialed target t

unfoldable pub has_live_outbound_to : Text → Tracker → Bool
unfolding any_dialed
has_live_outbound_to target t = if is_empty target then false else any_dialed target t

abbrev pub has_details : CallEntry → Bool
has_details e =
    not (z_eq e.account_id invalid_id)
    || not (is_empty e.remote_uri)
    || not (is_empty e.remote_display_name)

-- What `upsertFromEntry` writes to the session of the entry's call.
unfoldable pub merge_entry : CallEntry → ℕ → Session → Session
merge_entry e now s =
    let directed = has_details e || not s.has_direction in
    record s {
      first_seen_at = seen_at now s;
      account_id = if not (z_eq e.account_id invalid_id) then e.account_id else s.account_id;
      remote_uri = if not (is_empty e.remote_uri) then e.remote_uri else s.remote_uri;
      remote_display_name =
          if not (is_empty e.remote_display_name)
          then e.remote_display_name
          else s.remote_display_name;
      direction = if directed then e.direction else s.direction;
      has_direction = if directed then true else s.has_direction;
    }

unfoldable pub note_incoming : CallEntry → ℕ → Tracker → Tracker
unfolding merge_entry
note_incoming e now t =
    let s = merge_entry e now (session_of e.id t) in
    insert e.id (record s { direction = CallDirection.inbound; has_direction = true }) t

abbrev pub connect : ℕ → Session → Session
connect now s = if not s.connected then record s { connected = true; started_at = now } else s

-- `std::max<std::int64_t>(0, now - started)`
abbrev pub elapsed : ℕ → ℕ → ℕ
elapsed started now = if leb started now then now - started else 0

unfoldable pub history_of : ℕ → Session → HistoryEntry
history_of now s =
    let timed = s.connected && ltb 0 s.started_at in
    record {
      id = invalid_id;
      account_id = s.account_id;
      direction = s.direction;
      remote_uri = s.remote_uri;
      remote_display_name = s.remote_display_name;
      started_at =
          if timed then s.started_at else if ltb 0 s.first_seen_at then s.first_seen_at else now;
      duration_ms = if timed then elapsed s.started_at now else 0;
      end_reason = [];
    }

unfoldable pub note_state : CallEntry → CallState → ℕ → Tracker → Option HistoryEntry × Tracker
unfolding merge_entry history_of
note_state e state now t =
    let s = merge_entry e now (session_of e.id t) in
    if is_confirmed state
    then (none, insert e.id (connect now s) t)
    else if not (is_disconnected state)
    then (none, insert e.id s t)
    else if z_eq s.account_id invalid_id || is_empty s.remote_uri
    then (none, erase e.id (insert e.id s t))
    else (some (history_of now s), erase e.id (insert e.id s t))

unfoldable pub erase_session : ℤ → Tracker → Tracker
erase_session id t = erase id t
