-- ===== src/Controller.antt =====
-- src/core/CallsController.h and the helpers at the top of CallsController.cpp: the state of the
-- controller, with the call manager that it drives, and its views of a snapshot.
pub mod Incoming
pub mod Actions
pub mod Loop
pub mod Dialing
pub mod Ringing
pub mod Slots
pub mod Screening
use compact_phone.Base.{
  ℕ, ℤ, Bool, true, false, ◌&&◌, ◌||◌, Option, none, some, List, [], ◌∷◌, if◌then◌else◌, z_eq,
}
use compact_phone.Base.Text.{Text, codes}
use compact_phone.Backend.{CallState, is_confirmed, is_calling, is_early_media}
use compact_phone.Calls.{CallManager}
use compact_phone.Calls.Commands.{CallEntry, CallDirection}
use compact_phone.Sessions.{HistoryEntry, Tracker}

-- What the controller reads of `SettingsController`.
pub record CallSettings : Type 0 where
  pub dnd_enabled : Bool
  pub cfwd_always_enabled : Bool
  pub cfwd_always_target : Text
  pub cfwd_busy_enabled : Bool
  pub cfwd_busy_target : Text
  pub auto_answer_enabled : Bool
  pub auto_answer_delay_ms : ℕ
  pub cfwd_no_answer_enabled : Bool
  pub cfwd_no_answer_target : Text
  pub cfwd_no_answer_timeout_ms : ℕ
  pub auto_record_enabled : Bool
  pub recordings_path : Text

-- What Qt and the system clock give: `QString::trimmed`, and the name of a recording of a call.
pub record Host : Type 0 where
  pub trimmed : Text → Text
  pub recording_name : ℤ → Text

pub data Notice : Type 0 where
  incoming_call_changed call_state_changed : Notice
  ringing_changed : Bool → Notice
  message : Text → Notice

-- What a single shot of the controller runs when it fires.
pub data Deferred : Type 0 where
  answer_later : ℤ → Deferred
  forward_later : ℤ → Text → Deferred
  record_later : ℤ → Deferred

-- `notices` is what the controller emitted or posted, latest first; `deferred` its armed single shots,
-- latest first; `queued` the call events whose queued handler has not run yet, oldest first.
pub record CallsController (B : Type 0) : Type 0 where
  pub calls : CallManager B
  pub sessions : Tracker
  pub history : List HistoryEntry
  pub incoming_call_id : ℤ
  pub incoming_call_from : Text
  pub current_call_id : ℤ
  pub call_state : Text
  pub ringing : Bool
  pub notices : List Notice
  pub deferred : List (ℕ × Deferred)
  pub queued : List (ℤ × CallState)

abbrev pub notify : {B : Type 0} → Notice → CallsController B → CallsController B
notify n c = record c { notices = n ∷ c.notices }

unfoldable pub call_state_to_string : CallState → Text
call_state_to_string CallState.idle = codes "idle"
call_state_to_string CallState.calling = codes "calling"
call_state_to_string CallState.early_media = codes "early"
call_state_to_string CallState.confirmed = codes "active"
call_state_to_string CallState.disconnected = codes "ended"

unfoldable pub find_call_entry : List CallEntry → ℤ → Option CallEntry
find_call_entry [] id = none
find_call_entry (e ∷ es) id = if z_eq e.id id then some e else find_call_entry es id

unfoldable pub any_state : (CallState → Bool) → List CallEntry → Bool
any_state test [] = false
any_state test (e ∷ es) = test e.state || any_state test es

-- The loop returns at the first confirmed call; the flags matter only if there is none.
unfoldable pub aggregate_call_state : List CallEntry → CallState → Text
unfolding any_state call_state_to_string
aggregate_call_state snap fallback =
    if any_state is_confirmed snap
    then codes "active"
    else if any_state is_early_media snap
    then codes "early"
    else if any_state is_calling snap
    then codes "calling"
    else call_state_to_string fallback

abbrev pub entry_rings : CallEntry → Bool
entry_rings e = elim e.direction [
  | CallDirection.inbound ↦ is_calling e.state
  | CallDirection.outbound ↦ is_calling e.state || is_early_media e.state
]

unfoldable pub snapshot_is_ringing : List CallEntry → Bool
snapshot_is_ringing [] = false
snapshot_is_ringing (e ∷ es) = entry_rings e || snapshot_is_ringing es

-- `publishRingingState(now)`
unfoldable pub publish_ringing_state : {B : Type 0} → Bool → CallsController B → CallsController B
publish_ringing_state true c =
    if c.ringing then c else notify (Notice.ringing_changed true) (record c { ringing = true })
publish_ringing_state false c =
    if c.ringing then notify (Notice.ringing_changed false) (record c { ringing = false }) else c
