-- ===== src/AccountsController/Params.antt =====
-- src/core/AccountsController.cpp: an account from the parameters of the interface, and back.
use compact_phone.Base.{ℤ, pos, Bool, true, false, [], ◌∷◌, if◌then◌else◌, invalid_id}
use compact_phone.Base.Dict.{is_some}
use compact_phone.Base.Text.{Text, codes, is_empty}
use compact_phone.Base.TextMap.{get}
use compact_phone.Boot.{Qt, Value, Params, value, to_string}
use compact_phone.Account.{
  Account, Transport, SrtpMode, DtmfMethod, transport_to_string, transport_from_string,
  srtp_mode_to_string, srtp_mode_from_string, dtmf_method_to_string, dtmf_method_from_string,
}
use compact_phone.AccountsController.{to_bool, to_int}

-- `sip::Account{}`
abbrev pub new_account : Account
new_account = record {
  id = invalid_id;
  label = [];
  provider = [];
  display_name = [];
  username = [];
  domain = [];
  auth_user = [];
  auth_realm = [];
  password_ref = [];
  transport = Transport.udp;
  proxy = [];
  stun_server = [];
  public_address = [];
  codec_list = [];
  voicemail_number = [];
  register_on_startup = true;
  register_interval_sec = pos 0;
  keepalive_interval_sec = pos 0;
  session_timers_enabled = true;
  publish_presence_enabled = false;
  ice_enabled = false;
  hide_caller_id = false;
  zrtp_enabled = false;
  srtp_mode = SrtpMode.optional;
  allow_untrusted_cert = false;
  dtmf_method = DtmfMethod.rfc2833;
  is_default = false;
  enabled = true;
  sort_order = pos 0;
}

module _ (qt : Qt) (truth : Text → Bool) where
  -- `contains`
  abbrev pub contains : Text → Params → Bool
  contains key p = is_some (get key p)

  -- What the parameters say, or else what was there.
  abbrev str : Text → Text → Params → Text
  str key old p = if contains key p then to_string qt (value key p) else old

  abbrev boolean : Text → Bool → Params → Bool
  boolean key old p = if contains key p then to_bool truth (value key p) else old

  abbrev integer : Text → ℤ → Params → ℤ
  integer key old p = if contains key p then to_int qt (value key p) else old

  abbrev pub default_auth_user : Account → Account
  default_auth_user a = record a {
    auth_user = if is_empty a.auth_user then a.username else a.auth_user;
  }

  unfoldable pub apply_params : Account → Params → Account
  unfolding get transport_from_string srtp_mode_from_string dtmf_method_from_string
  apply_params a p =
      let named = default_auth_user (record a {
        label = str (codes "label") a.label p;
        provider = str (codes "provider") a.provider p;
        display_name = str (codes "displayName") a.display_name p;
        username = str (codes "username") a.username p;
        domain = str (codes "domain") a.domain p;
        auth_user = str (codes "authUser") a.auth_user p;
        auth_realm = str (codes "authRealm") a.auth_realm p;
      }) in
      record named {
        transport =
            if contains (codes "transport") p
            then transport_from_string (str (codes "transport") [] p)
            else a.transport;
        proxy = str (codes "proxy") a.proxy p;
        stun_server = str (codes "stunServer") a.stun_server p;
        public_address = str (codes "publicAddress") a.public_address p;
        codec_list = str (codes "codecs") a.codec_list p;
        voicemail_number = str (codes "voicemailNumber") a.voicemail_number p;
        register_on_startup = boolean (codes "registerOnStartup") a.register_on_startup p;
        register_interval_sec = integer (codes "registerIntervalSec") a.register_interval_sec p;
        keepalive_interval_sec = integer (codes "keepaliveIntervalSec") a.keepalive_interval_sec p;
        session_timers_enabled = boolean (codes "sessionTimersEnabled") a.session_timers_enabled p;
        publish_presence_enabled =
            boolean (codes "publishPresenceEnabled") a.publish_presence_enabled p;
        ice_enabled = boolean (codes "iceEnabled") a.ice_enabled p;
        hide_caller_id = boolean (codes "hideCallerId") a.hide_caller_id p;
        zrtp_enabled = boolean (codes "zrtpEnabled") a.zrtp_enabled p;
        srtp_mode =
            if contains (codes "srtpMode") p
            then srtp_mode_from_string (str (codes "srtpMode") [] p)
            else a.srtp_mode;
        allow_untrusted_cert = boolean (codes "allowUntrustedCert") a.allow_untrusted_cert p;
        dtmf_method =
            if contains (codes "dtmfMethod") p
            then dtmf_method_from_string (str (codes "dtmfMethod") [] p)
            else a.dtmf_method;
        enabled = boolean (codes "enabled") a.enabled p;
        is_default = boolean (codes "isDefault") a.is_default p;
        sort_order = integer (codes "sortOrder") a.sort_order p;
      }

-- `accountSnapshot` of an account that is there.
unfoldable pub snapshot : Account → Params
unfolding transport_to_string srtp_mode_to_string dtmf_method_to_string
snapshot a =
    (codes "accountId", Value.number a.id)
    ∷ (codes "label", Value.text a.label)
    ∷ (codes "provider", Value.text a.provider)
    ∷ (codes "displayName", Value.text a.display_name)
    ∷ (codes "username", Value.text a.username)
    ∷ (codes "domain", Value.text a.domain)
    ∷ (codes "authUser", Value.text a.auth_user)
    ∷ (codes "authRealm", Value.text a.auth_realm)
    ∷ (codes "transport", Value.text (transport_to_string a.transport))
    ∷ (codes "proxy", Value.text a.proxy)
    ∷ (codes "stunServer", Value.text a.stun_server)
    ∷ (codes "publicAddress", Value.text a.public_address)
    ∷ (codes "codecs", Value.text a.codec_list)
    ∷ (codes "voicemailNumber", Value.text a.voicemail_number)
    ∷ (codes "registerOnStartup", Value.boolean a.register_on_startup)
    ∷ (codes "registerIntervalSec", Value.number a.register_interval_sec)
    ∷ (codes "keepaliveIntervalSec", Value.number a.keepalive_interval_sec)
    ∷ (codes "sessionTimersEnabled", Value.boolean a.session_timers_enabled)
    ∷ (codes "publishPresenceEnabled", Value.boolean a.publish_presence_enabled)
    ∷ (codes "iceEnabled", Value.boolean a.ice_enabled)
    ∷ (codes "hideCallerId", Value.boolean a.hide_caller_id)
    ∷ (codes "zrtpEnabled", Value.boolean a.zrtp_enabled)
    ∷ (codes "srtpMode", Value.text (srtp_mode_to_string a.srtp_mode))
    ∷ (codes "allowUntrustedCert", Value.boolean a.allow_untrusted_cert)
    ∷ (codes "dtmfMethod", Value.text (dtmf_method_to_string a.dtmf_method))
    ∷ (codes "enabled", Value.boolean a.enabled)
    ∷ (codes "isDefault", Value.boolean a.is_default)
    ∷ (codes "sortOrder", Value.number a.sort_order)
    ∷ []
