-- ===== src/Backend.antt =====
-- The SIP stack boundary: src/core/sipbackend/Types.h and ISipBackend.h.
pub mod Dispatch
pub mod Fake
use compact_phone.Base.{ℕ, ℤ, Bool, true, false}
use compact_phone.Base.Text.{Text}
use compact_phone.Account.{Transport, SrtpMode, DtmfMethod}

pub data CallState : Type 0 where
  idle calling early_media confirmed disconnected : CallState

pub data PresenceState : Type 0 where
  unknown idle busy offline : PresenceState

abbrev pub is_confirmed : CallState → Bool
is_confirmed CallState.confirmed = true
is_confirmed _ = false

abbrev pub is_disconnected : CallState → Bool
is_disconnected CallState.disconnected = true
is_disconnected _ = false

abbrev pub is_calling : CallState → Bool
is_calling CallState.calling = true
is_calling _ = false

abbrev pub is_early_media : CallState → Bool
is_early_media CallState.early_media = true
is_early_media _ = false

pub record AccountSettings : Type 0 where
  pub display_name : Text
  pub username : Text
  pub domain : Text
  pub auth_user : Text
  pub auth_realm : Text
  pub password : Text
  pub transport : Transport
  pub proxy : Text
  pub public_address : Text
  pub register_interval_sec : ℤ
  pub keepalive_interval_sec : ℤ
  pub session_timers_enabled : Bool
  pub publish_presence_enabled : Bool
  pub ice_enabled : Bool
  pub hide_caller_id : Bool
  pub zrtp_enabled : Bool
  pub srtp_mode : SrtpMode
  pub allow_untrusted_cert : Bool
  pub dtmf_method : DtmfMethod
  pub use_stun : Bool

-- One constructor for each call of `ISipBackendListener`.
pub data Event : Type 0 where
  reg_state : ℤ → Bool → ℤ → Text → Event
  incoming_call : ℤ → ℤ → Text → Text → Event
  call_state : ℤ → CallState → ℤ → Event
  media_state : ℤ → Bool → Bool → Event
  transfer_status : ℤ → ℤ → Bool → Text → Event
  mwi : ℤ → ℤ → ℤ → Bool → Event
  instant_message : ℤ → Text → Text → Event
  presence : ℤ → PresenceState → Event

-- The account, presence and call methods of `ISipBackend` over the backend's own state `B`. A method
-- returns its result and the next state; by the threading contract it delivers no event itself.
pub record SipBackend (B : Type 0) : Type 0 where
  pub is_running : B → Bool
  pub add_account : AccountSettings → B → ℤ × B
  pub remove_account : ℤ → B → Bool × B
  pub send_message : ℤ → Text → Text → B → Bool × B
  pub watch : ℤ → Text → B → ℤ × B
  pub unwatch : ℤ → B → Bool × B
  pub make_call : ℤ → Text → B → ℤ × B
  pub answer : ℤ → B → Bool × B
  pub decline : ℤ → ℤ → B → Bool × B
  pub redirect : ℤ → Text → B → Bool × B
  pub hangup : ℤ → B → B
  pub hold : ℤ → B → Bool × B
  pub unhold : ℤ → B → Bool × B
  pub set_muted : ℤ → Bool → B → Bool × B
  pub send_dtmf : ℤ → Text → DtmfMethod → B → Bool × B
  pub blind_transfer : ℤ → Text → B → Bool × B
  pub attended_transfer : ℤ → ℤ → B → Bool × B
  pub bridge : ℤ → ℤ → B → Bool × B
  pub start_recording : ℤ → Text → B → Bool × B
  pub stop_recording : ℤ → B → Bool × B
  pub play_file : ℤ → Text → Bool → B → Bool × B
  pub stop_file : ℤ → B → Bool × B
  pub is_media_active : ℤ → B → Bool
  pub is_capture_transmitting : ℤ → B → Bool
  pub release_call : ℤ → B → B
