-- ===== src/Account.antt =====
-- src/core/Account.h and the string conversions of src/core/Account.cpp. `sipbackend::Transport`,
-- `SrtpMode` and `DtmfMethod` (src/core/sipbackend/Types.h) mirror the enums of Account.h value for
-- value and are cast to one another, so one type stands for both.
use compact_phone.Base.{ℤ, ◌≡◌, refl, Bool, ◌||◌, if◌then◌else◌, Option}
use compact_phone.Base.Text.{Text, codes, text_eq}

pub data Transport : Type 0 where
  udp tcp tls : Transport

pub data SrtpMode : Type 0 where
  disabled optional required : SrtpMode

pub data DtmfMethod : Type 0 where
  inband rfc2833 info : DtmfMethod

pub record Account : Type 0 where
  pub id : ℤ
  pub label : Text
  pub provider : Text
  pub display_name : Text
  pub username : Text
  pub domain : Text
  pub auth_user : Text
  pub auth_realm : Text
  pub password_ref : Text
  pub transport : Transport
  pub proxy : Text
  pub stun_server : Text
  pub public_address : Text
  pub codec_list : Text
  pub voicemail_number : Text
  pub register_on_startup : Bool
  pub register_interval_sec : ℤ
  pub keepalive_interval_sec : ℤ
  pub session_timers_enabled : Bool
  pub publish_presence_enabled : Bool
  pub ice_enabled : Bool
  pub hide_caller_id : Bool
  pub zrtp_enabled : Bool
  pub srtp_mode : SrtpMode
  pub allow_untrusted_cert : Bool
  pub dtmf_method : DtmfMethod
  pub is_default : Bool
  pub enabled : Bool
  pub sort_order : ℤ

-- What the call side asks of `AccountsManager`.
pub record AccountsView : Type 0 where
  pub find : ℤ → Option Account
  pub default_account_id : ℤ
  pub backend_id_for : ℤ → ℤ
  pub account_id_for_backend : ℤ → ℤ

unfoldable pub transport_to_string : Transport → Text
transport_to_string Transport.udp = codes "udp"
transport_to_string Transport.tcp = codes "tcp"
transport_to_string Transport.tls = codes "tls"

unfoldable pub transport_from_string : Text → Transport
transport_from_string s =
    if text_eq s (codes "tcp")
    then Transport.tcp
    else if text_eq s (codes "tls")
    then Transport.tls
    else Transport.udp

unfoldable pub srtp_mode_to_string : SrtpMode → Text
srtp_mode_to_string SrtpMode.disabled = codes "disabled"
srtp_mode_to_string SrtpMode.optional = codes "optional"
srtp_mode_to_string SrtpMode.required = codes "required"

unfoldable pub srtp_mode_from_string : Text → SrtpMode
srtp_mode_from_string s =
    if text_eq s (codes "disabled")
    then SrtpMode.disabled
    else if text_eq s (codes "required") || text_eq s (codes "mandatory")
    then SrtpMode.required
    else SrtpMode.optional

unfoldable pub dtmf_method_to_string : DtmfMethod → Text
dtmf_method_to_string DtmfMethod.inband = codes "inband"
dtmf_method_to_string DtmfMethod.rfc2833 = codes "rfc2833"
dtmf_method_to_string DtmfMethod.info = codes "info"

unfoldable pub dtmf_method_from_string : Text → DtmfMethod
dtmf_method_from_string s =
    if text_eq s (codes "inband")
    then DtmfMethod.inband
    else if text_eq s (codes "info")
    then DtmfMethod.info
    else DtmfMethod.rfc2833

transport_lem : (t : Transport) → transport_from_string (transport_to_string t) ≡ t
unfolding transport_from_string transport_to_string text_eq
transport_lem Transport.udp = refl
transport_lem Transport.tcp = refl
transport_lem Transport.tls = refl

srtp_mode_lem : (s : SrtpMode) → srtp_mode_from_string (srtp_mode_to_string s) ≡ s
unfolding srtp_mode_from_string srtp_mode_to_string text_eq
srtp_mode_lem SrtpMode.disabled = refl
srtp_mode_lem SrtpMode.optional = refl
srtp_mode_lem SrtpMode.required = refl

dtmf_method_lem : (d : DtmfMethod) → dtmf_method_from_string (dtmf_method_to_string d) ≡ d
unfolding dtmf_method_from_string dtmf_method_to_string text_eq
dtmf_method_lem DtmfMethod.inband = refl
dtmf_method_lem DtmfMethod.rfc2833 = refl
dtmf_method_lem DtmfMethod.info = refl

-- What is written to the accounts table for the three enums of an account is read back as the same
-- value.
pub enum_strings_roundtrip :
    (t : Transport) (s : SrtpMode) (d : DtmfMethod)
    → (transport_from_string (transport_to_string t) ≡ t)
      × (srtp_mode_from_string (srtp_mode_to_string s) ≡ s)
      × (dtmf_method_from_string (dtmf_method_to_string d) ≡ d)
enum_strings_roundtrip t s d = (transport_lem t, srtp_mode_lem s, dtmf_method_lem d)
