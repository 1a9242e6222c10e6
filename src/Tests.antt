-- ===== src/Tests.antt =====
-- Concrete data of the tests: accounts, calls of the fake backend, and managers over it.
pub mod Calls
pub mod Backend
pub mod Sessions
pub mod Uris
pub mod Dialing
pub mod Incoming
pub mod Accounts
pub mod Store
pub mod Editing
pub mod Boot
pub mod AccountsController
pub mod Updates
pub mod Lines
pub mod RemoteInfo
use compact_phone.Base.{
  ℕ, ℤ, pos, Bool, true, false, Option, none, some, List, [], ◌∷◌, if◌then◌else◌, z_eq, invalid_id,
  negsuc,
}
use compact_phone.Base.Text.{Text, codes}
use compact_phone.Account.{Account, AccountsView, Transport, SrtpMode, DtmfMethod}
use compact_phone.Backend.{CallState, AccountSettings, SipBackend}
use compact_phone.Backend.Fake.{FakeSipBackend, FakeCall}
use compact_phone.Backend.Fake.Actions
use compact_phone.Backend.Fake.Calls.{fake_backend}
use compact_phone.Calls.{CallManager, CallRecord}
use compact_phone.Calls.Run
use compact_phone.Controller.{CallsController, Host, CallSettings}

abbrev pub settings : AccountSettings
settings = record {
  display_name = codes "Ann";
  username = codes "ann";
  domain = codes "pbx";
  auth_user = codes "ann";
  auth_realm = [];
  password = codes "pw";
  transport = Transport.udp;
  proxy = [];
  public_address = [];
  register_interval_sec = pos 300;
  keepalive_interval_sec = pos 30;
  session_timers_enabled = false;
  publish_presence_enabled = false;
  ice_enabled = false;
  hide_caller_id = false;
  zrtp_enabled = false;
  srtp_mode = SrtpMode.disabled;
  allow_untrusted_cert = false;
  dtmf_method = DtmfMethod.rfc2833;
  use_stun = false;
}

abbrev pub account : Account
account = record {
  id = pos 1;
  label = codes "Office";
  provider = [];
  display_name = codes "Ann";
  username = codes "ann";
  domain = codes "pbx";
  auth_user = codes "ann";
  auth_realm = [];
  password_ref = [];
  transport = Transport.udp;
  proxy = [];
  stun_server = [];
  public_address = [];
  codec_list = [];
  voicemail_number = [];
  register_on_startup = true;
  register_interval_sec = pos 300;
  keepalive_interval_sec = pos 30;
  session_timers_enabled = false;
  publish_presence_enabled = false;
  ice_enabled = false;
  hide_caller_id = false;
  zrtp_enabled = false;
  srtp_mode = SrtpMode.disabled;
  allow_untrusted_cert = false;
  dtmf_method = DtmfMethod.rfc2833;
  is_default = true;
  enabled = true;
  sort_order = pos 0;
}

-- One account, known to the backend under its own id.
abbrev pub accounts : AccountsView
accounts = record {
  find = λ id. if z_eq id (pos 1) then some account else none;
  default_account_id = pos 1;
  backend_id_for = λ id. if z_eq id (pos 1) then pos 1 else invalid_id;
  account_id_for_backend = λ id. if z_eq id (pos 1) then pos 1 else invalid_id;
}

-- A call that is up, on hold or not, as the backend and as the manager sees it.
abbrev pub backend_call : Bool → FakeCall
backend_call on_hold = record {
  account_id = pos 1;
  remote_uri = codes "sip:600@pbx";
  state = CallState.confirmed;
  inbound = false;
  held = on_hold;
  muted = false;
  media_active = true;
  recording = false;
  playing_file = false;
  dtmf_sent = [];
}

abbrev pub call : Bool → CallRecord
call on_hold = record {
  account_id = pos 1;
  remote_uri = codes "sip:600@pbx";
  remote_display_name = [];
  state = CallState.confirmed;
  last_status_code = pos 200;
  inbound = false;
  held = on_hold;
  muted = false;
  recording = false;
  playing_file = false;
}

abbrev pub ready_backend : FakeSipBackend
ready_backend = record {
  running = true;
  listening = true;
  stun_servers = [];
  codec_priority = [];
  capture_device = pos 0;
  playback_device = pos 0;
  ringtone_path = [];
  next_account_id = 2;
  last_added_id = pos 1;
  next_call_id = 1;
  next_watch_id = 1;
  accounts = (pos 1, settings) ∷ [];
  calls = [];
  watches = [];
  log = [];
  events = record { epoch = 0; queue = [] };
}

-- Calls 1 and 2, of which the second is on hold.
abbrev pub busy_backend : FakeSipBackend
busy_backend = record ready_backend {
  next_call_id = 3;
  calls = (pos 1, backend_call false) ∷ (pos 2, backend_call true) ∷ [];
}

abbrev pub two_calls : CallManager FakeSipBackend
two_calls = record {
  backend = busy_backend;
  records = (pos 1, call false) ∷ (pos 2, call true) ∷ [];
  lingering = [];
  transfers = [];
  active = pos 1;
  linger_ms = 2200;
  signals = [];
  timers = [];
}

abbrev pub transferring : CallManager FakeSipBackend
transferring = record two_calls { transfers = (pos 1, pos 1 ∷ pos 2 ∷ []) ∷ [] }

-- The fake backend, except that it refuses each unhold, as one whose re-INVITE is still under way.
abbrev pub stubborn : SipBackend FakeSipBackend
stubborn = record fake_backend { unhold = λ id b. (false, b) }

abbrev pub host : Host
host = record { trimmed = λ s. s; recording_name = λ id. codes "call_1.wav" }

abbrev pub controller : CallsController FakeSipBackend
controller = record {
  calls = record {
    backend = ready_backend;
    records = [];
    lingering = [];
    transfers = [];
    active = negsuc 0;
    linger_ms = 2200;
    signals = [];
    timers = [];
  };
  sessions = [];
  history = [];
  incoming_call_id = negsuc 0;
  incoming_call_from = [];
  current_call_id = negsuc 0;
  call_state = codes "idle";
  ringing = false;
  notices = [];
  deferred = [];
  queued = [];
}

abbrev pub call_settings : CallSettings
call_settings = record {
  dnd_enabled = true;
  cfwd_always_enabled = true;
  cfwd_always_target = codes "sip:boss@pbx";
  cfwd_busy_enabled = false;
  cfwd_busy_target = [];
  auto_answer_enabled = false;
  auto_answer_delay_ms = 0;
  cfwd_no_answer_enabled = false;
  cfwd_no_answer_target = [];
  cfwd_no_answer_timeout_ms = 0;
  auto_record_enabled = false;
  recordings_path = [];
}
