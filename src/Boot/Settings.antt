-- ===== src/Boot/Settings.antt =====
-- src/core/BootConfig_parser.cpp: the account of the command line. Qt's parser is a parameter: which options are set, and
-- their values.
use compact_phone.Base.{Bool, true, false, ◌||◌, List, [], ◌∷◌, ◌++◌, if◌then◌else◌}
use compact_phone.Base.Text.{Text, codes, is_empty}
use compact_phone.Base.TextMap.{set}
use compact_phone.Boot.{Qt, Value, Params}
use compact_phone.Boot.Server.{bool_option_value, server_with_optional_port}

pub record Parser : Type 0 where
  pub is_set : Text → Bool
  pub value : Text → Text

-- A setting of the account by an option: as it is written, in lower case, as a number, as a yes or no,
-- to true by a switch, or by a switch and its opposite.
pub data Setting : Type 0 where
  raw : Text → Text → Setting
  lower : Text → Text → Setting
  number : Text → Text → Setting
  yes_no : Text → Text → Setting
  on : Text → Text → Setting
  pair : Text → Text → Text → Setting

abbrev pub settings : List Setting
settings =
    Setting.raw (codes "sip-display-name") (codes "displayName")
    ∷ Setting.raw (codes "sip-proxy") (codes "proxy")
    ∷ Setting.lower (codes "sip-transport") (codes "transport")
    ∷ Setting.lower (codes "sip-srtp") (codes "srtpMode")
    ∷ Setting.raw (codes "sip-stun") (codes "stunServer")
    ∷ Setting.raw (codes "sip-public-address") (codes "publicAddress")
    ∷ Setting.raw (codes "sip-codecs") (codes "codecs")
    ∷ Setting.raw (codes "sip-voicemail") (codes "voicemailNumber")
    ∷ Setting.number (codes "sip-register-interval") (codes "registerIntervalSec")
    ∷ Setting.number (codes "sip-keepalive-interval") (codes "keepaliveIntervalSec")
    ∷ Setting.yes_no (codes "sip-session-timers") (codes "sessionTimersEnabled")
    ∷ Setting.pair (codes "sip-publish-presence") (codes "no-sip-publish-presence")
        (codes "publishPresenceEnabled")
    ∷ Setting.pair (codes "sip-ice") (codes "no-sip-ice") (codes "iceEnabled")
    ∷ Setting.pair (codes "sip-hide-caller-id") (codes "no-sip-hide-caller-id")
        (codes "hideCallerId")
    ∷ Setting.pair (codes "sip-zrtp") (codes "no-sip-zrtp") (codes "zrtpEnabled")
    ∷ Setting.pair (codes "sip-allow-untrusted-cert") (codes "no-sip-allow-untrusted-cert")
        (codes "allowUntrustedCert")
    ∷ Setting.lower (codes "sip-dtmf-method") (codes "dtmfMethod")
    ∷ Setting.yes_no (codes "sip-enabled") (codes "enabled")
    ∷ Setting.on (codes "sip-default") (codes "isDefault")
    ∷ Setting.number (codes "sip-sort-order") (codes "sortOrder")
    ∷ []

-- Any of these asks for an account.
abbrev account_flags : List Text
account_flags =
    codes "sip-server"
    ∷ codes "sip-user"
    ∷ codes "sip-port"
    ∷ codes "sip-auth-user"
    ∷ codes "sip-realm"
    ∷ codes "sip-password"
    ∷ codes "sip-password-file"
    ∷ codes "sip-password-stdin"
    ∷ codes "sip-proxy"
    ∷ codes "sip-transport"
    ∷ codes "sip-srtp"
    ∷ codes "sip-display-name"
    ∷ codes "sip-stun"
    ∷ codes "sip-public-address"
    ∷ codes "sip-codecs"
    ∷ codes "sip-voicemail"
    ∷ codes "sip-register-interval"
    ∷ codes "sip-keepalive-interval"
    ∷ codes "sip-session-timers"
    ∷ codes "sip-publish-presence"
    ∷ codes "no-sip-publish-presence"
    ∷ codes "sip-ice"
    ∷ codes "no-sip-ice"
    ∷ codes "sip-hide-caller-id"
    ∷ codes "no-sip-hide-caller-id"
    ∷ codes "sip-zrtp"
    ∷ codes "no-sip-zrtp"
    ∷ codes "sip-allow-untrusted-cert"
    ∷ codes "no-sip-allow-untrusted-cert"
    ∷ codes "sip-dtmf-method"
    ∷ codes "sip-enabled"
    ∷ codes "sip-default"
    ∷ codes "sip-sort-order"
    ∷ codes "register-on-start"
    ∷ codes "sip-label"
    ∷ []

abbrev pub any_set : Parser → List Text → Bool
any_set p [] = false
any_set p (name ∷ names) = p.is_set name || any_set p names

unfoldable pub has_account_flags : Parser → Bool
has_account_flags p = any_set p account_flags

module _ (qt : Qt) (p : Parser) where
  -- `setBoolPair`
  unfoldable pub set_bool_pair : Params → Text → Text → Text → Params
  set_bool_pair params positive negative dst =
      let params' = if p.is_set positive then set dst (Value.boolean true) params else params in
      if p.is_set negative then set dst (Value.boolean false) params' else params'

  abbrev pub set_if : Text → Text → Value → Params → Params
  set_if name dst v params = if p.is_set name then set dst v params else params

  unfoldable pub apply_setting : Setting → Params → Params
  unfolding set_bool_pair bool_option_value
  apply_setting (Setting.raw name dst) params = set_if name dst (Value.text (p.value name)) params
  apply_setting (Setting.lower name dst) params =
      set_if name dst (Value.text (qt.to_lower (p.value name))) params
  apply_setting (Setting.number name dst) params =
      set_if name dst (Value.number (qt.to_int (p.value name))) params
  apply_setting (Setting.yes_no name dst) params =
      set_if name dst (Value.boolean (bool_option_value qt (p.value name) true)) params
  apply_setting (Setting.on name dst) params = set_if name dst (Value.boolean true) params
  apply_setting (Setting.pair positive negative dst) params =
      set_bool_pair params positive negative dst

  unfoldable pub apply_settings : List Setting → Params → Params
  unfolding apply_setting
  apply_settings [] params = params
  apply_settings (s ∷ rest) params = apply_settings rest (apply_setting s params)

  abbrev pub cli_server : Text
  cli_server =
      server_with_optional_port qt (p.value (codes "sip-server")) (p.value (codes "sip-port"))

  abbrev pub cli_user : Text
  cli_user = qt.trimmed (p.value (codes "sip-user"))

  abbrev pub or_else : Text → Text → Text
  or_else s fallback = if is_empty s then fallback else s

  abbrev pub cli_on_start : Bool
  cli_on_start =
      if p.is_set (codes "register-on-start")
      then bool_option_value qt (p.value (codes "register-on-start")) true
      else true

  -- The account's parameters, in the order of the source.
  unfoldable pub cli_params : Params
  unfolding apply_settings bool_option_value server_with_optional_port
  cli_params =
      let user = cli_user in
      let auth_user = or_else (qt.trimmed (p.value (codes "sip-auth-user"))) user in
      let label = or_else (qt.trimmed (p.value (codes "sip-label"))) (user ++ b'@' ∷ cli_server) in
      let named =
        set_if (codes "sip-realm") (codes "authRealm")
          (Value.text (qt.trimmed (p.value (codes "sip-realm"))))
          (set (codes "authUser") (Value.text auth_user) (
            set (codes "domain") (Value.text cli_server)
              (set (codes "username") (Value.text user) []))) in
      set (codes "registerOnStartup") (Value.boolean cli_on_start)
        (apply_settings settings (set (codes "label") (Value.text label) named))
