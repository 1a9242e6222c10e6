-- ===== src/Calls.antt =====
-- The data of src/core/CallManager.h: call records, the signals that the manager emits, the single
-- shots that it arms, and its state.
pub mod Transfers
pub mod Active
pub mod Commands
pub mod Events
pub mod Invariant
pub mod Run
pub mod Upkeep
pub mod Soundness
pub mod Policy
pub mod Retries
pub mod Endings
pub mod Referrals
use compact_phone.Base.{ℕ, ℤ, Bool, List}
use compact_phone.Base.Dict.{Dict}
use compact_phone.Base.Text.{Text}
use compact_phone.Backend.{CallState}

pub record CallRecord : Type 0 where
  pub account_id : ℤ
  pub remote_uri : Text
  pub remote_display_name : Text
  pub state : CallState
  pub last_status_code : ℤ
  pub inbound : Bool
  pub held : Bool
  pub muted : Bool
  pub recording : Bool
  pub playing_file : Bool

pub data Signal : Type 0 where
  calls_changed : Signal
  incoming_call : ℤ → Signal
  call_state_changed : CallState → Signal
  call_event : ℤ → CallState → Signal

-- What a `QTimer::singleShot` of the manager runs when it fires.
pub data Timer : Type 0 where
  erase_lingering : ℤ → Timer
  retry_unhold : ℤ → ℕ → Timer
  retry_bridge : ℤ → ℤ → ℕ → Timer

-- `signals` lists what was emitted, latest first; `timers` the single shots that are armed, each with
-- its delay in milliseconds, latest first.
pub record CallManager (B : Type 0) : Type 0 where
  pub backend : B
  pub records : Dict CallRecord
  pub lingering : Dict CallRecord
  pub transfers : Dict (List ℤ)
  pub active : ℤ
  pub linger_ms : ℕ
  pub signals : List Signal
  pub timers : List (ℕ × Timer)
