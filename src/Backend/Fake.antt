-- ===== src/Backend/Fake.antt =====
-- src/core/sipbackend/fake/FakeSipBackend.h: the state of the fake backend. A line of its command log
-- is modelled by its parts: "hold:1" is `Command.hold (pos 1)`.
pub mod Engine
pub mod Calls
pub mod Actions
pub mod Invariant
use compact_phone.Base.{ℕ, ℤ, Bool, List}
use compact_phone.Base.Dict.{Dict}
use compact_phone.Base.Text.{Text}
use compact_phone.Backend.{AccountSettings, CallState, Event}
use compact_phone.Backend.Dispatch.{EventDispatch}

pub record FakeCall : Type 0 where
  pub account_id : ℤ
  pub remote_uri : Text
  pub state : CallState
  pub inbound : Bool
  pub held : Bool
  pub muted : Bool
  pub media_active : Bool
  pub recording : Bool
  pub playing_file : Bool
  pub dtmf_sent : Text

pub data Command : Type 0 where
  add_account watch make_call send_dtmf redirect : ℤ → Text → Command
  blind_transfer start_recording play_file : ℤ → Text → Command
  send_message : ℤ → Text → Text → Command
  decline attended_transfer bridge : ℤ → ℤ → Command
  set_muted : ℤ → Bool → Command
  remove_account unwatch answer hangup hold unhold : ℤ → Command
  stop_recording stop_file release_call : ℤ → Command

-- `listening` says whether a listener is set. One lambda may call the listener more than once, so a
-- queued entry is a list of events. The log is latest first. The ids count up from 1 and stand for
-- 32-bit integers that do not overflow.
pub record FakeSipBackend : Type 0 where
  pub running : Bool
  pub listening : Bool
  pub stun_servers : List Text
  pub codec_priority : List Text
  pub capture_device : ℤ
  pub playback_device : ℤ
  pub ringtone_path : Text
  pub next_account_id : ℕ
  pub last_added_id : ℤ
  pub next_call_id : ℕ
  pub next_watch_id : ℕ
  pub accounts : Dict AccountSettings
  pub calls : Dict FakeCall
  pub watches : Dict Text
  pub log : List Command
  pub events : EventDispatch (List Event)
