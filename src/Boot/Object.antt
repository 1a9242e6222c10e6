-- ===== src/Boot/Object.antt =====
-- src/core/BootConfig_file.cpp: an account of a provisioning file. Qt's JSON is a parameter: the reads of
-- a value, of which an object is one.
use compact_phone.Base.{
  ℤ, pos, Bool, true, false, not, ◌&&◌, Option, none, some, List, [], ◌∷◌, ◌++◌, map, if◌then◌else◌,
}
use compact_phone.Base.Text.{Text, codes, is_empty}
use compact_phone.Base.TextMap.{set}
use compact_phone.Boot.{Qt, System, Console, Value, Params, value, to_string, BootAccount}
use compact_phone.Boot.Secrets.{resolve_password}

pub record Json (J : Type 0) : Type 0 where
  pub is_string : J → Bool
  pub to_text : J → Text
  pub to_bool : Bool → J → Bool
  pub to_integer : ℤ → J → ℤ
  pub is_array : J → Bool
  pub to_array : J → List J
  pub is_object : J → Bool
  pub contains : Text → J → Bool
  pub member : Text → J → J
  -- The root of a document that parses and is an object.
  pub root : Text → Option J

-- `join(',')`
abbrev pub joined : List Text → Text
joined [] = []
joined (s ∷ []) = s
joined (s ∷ t ∷ rest) = s ++ b',' ∷ joined (t ∷ rest)

abbrev pub when {ℓ} : {A : Type ℓ} → Bool → A → Option A
when true x = some x
when false x = none

-- The keys of the file and those of `applyParams`.
abbrev str_fields : List (Text × Text)
str_fields =
    (codes "label", codes "label")
    ∷ (codes "user", codes "username")
    ∷ (codes "server", codes "domain")
    ∷ (codes "auth_user", codes "authUser")
    ∷ (codes "realm", codes "authRealm")
    ∷ (codes "display_name", codes "displayName")
    ∷ (codes "transport", codes "transport")
    ∷ (codes "proxy", codes "proxy")
    ∷ (codes "srtp", codes "srtpMode")
    ∷ (codes "stun", codes "stunServer")
    ∷ (codes "public_address", codes "publicAddress")
    ∷ (codes "voicemail", codes "voicemailNumber")
    ∷ (codes "dtmf_method", codes "dtmfMethod")
    ∷ []

abbrev int_fields : List (Text × Text)
int_fields =
    (codes "register_interval_sec", codes "registerIntervalSec")
    ∷ (codes "keepalive_interval_sec", codes "keepaliveIntervalSec")
    ∷ (codes "sort_order", codes "sortOrder")
    ∷ []

abbrev bool_fields : List (Text × Text)
bool_fields =
    (codes "session_timers_enabled", codes "sessionTimersEnabled")
    ∷ (codes "publish_presence_enabled", codes "publishPresenceEnabled")
    ∷ (codes "ice_enabled", codes "iceEnabled")
    ∷ (codes "hide_caller_id", codes "hideCallerId")
    ∷ (codes "zrtp_enabled", codes "zrtpEnabled")
    ∷ (codes "allow_untrusted_cert", codes "allowUntrustedCert")
    ∷ (codes "enabled", codes "enabled")
    ∷ (codes "default", codes "isDefault")
    ∷ []

module _ {J : Type 0} (json : Json J) where
  abbrev pub set_str : J → Text × Text → Params → Params
  set_str obj (src, dst) params =
      let v = json.member src obj in
      if json.is_string v && not (is_empty (json.to_text v))
      then set dst (Value.text (json.to_text v)) params
      else params

  abbrev pub set_int : J → Text × Text → Params → Params
  set_int obj (src, dst) params =
      if json.contains src obj
      then set dst (Value.number (json.to_integer (pos 0) (json.member src obj))) params
      else params

  abbrev pub set_bool : J → Text × Text → Params → Params
  set_bool obj (src, dst) params =
      if json.contains src obj
      then set dst (Value.boolean (json.to_bool false (json.member src obj))) params
      else params

  unfoldable pub set_fields : (Text × Text → Params → Params) → List (Text × Text) → Params → Params
  set_fields put [] params = params
  set_fields put (field ∷ fields) params = set_fields put fields (put field params)

  abbrev pub set_codecs : J → Params → Params
  set_codecs obj params =
      let v = json.member (codes "codecs") obj in
      if not (json.contains (codes "codecs") obj)
      then params
      else if json.is_array v
      then set (codes "codecs") (Value.text (joined (map json.to_text (json.to_array v)))) params
      else if json.is_string v
      then set (codes "codecs") (Value.text (json.to_text v)) params
      else params

  -- The fields as far as `register_on_start`.
  unfoldable pub read_fields : J → Bool → Params
  unfolding set_fields
  read_fields obj on_start = set (codes "registerOnStartup") (Value.boolean on_start) (
      set_codecs obj (
        set_fields (set_bool obj) bool_fields
          (set_fields (set_int obj) int_fields (set_fields (set_str obj) str_fields []))))

  module _ (qt : Qt) where
    abbrev pub fill_auth_user : Params → Params
    fill_auth_user params =
        if is_empty (to_string qt (value (codes "authUser") params))
        then set (codes "authUser") (value (codes "username") params) params
        else params

    abbrev pub fill_label : Params → Params
    fill_label params =
        let user = to_string qt (value (codes "username") params) in
        let server = to_string qt (value (codes "domain") params) in
        if is_empty (to_string qt (value (codes "label") params))
          && not (is_empty user)
          && not (is_empty server)
        then set (codes "label") (Value.text (user ++ b'@' ∷ server)) params
        else params

    -- An account without a user or a server is dropped.
    abbrev pub is_complete : BootAccount → Bool
    is_complete a =
        not (is_empty (to_string qt (value (codes "username") a.params)))
        && not (is_empty (to_string qt (value (codes "domain") a.params)))

    module _ {S : Type 0} (sys : System S) where
      unfoldable pub parse_account_object : J → Console S → BootAccount × Console S
      unfolding read_fields resolve_password
      parse_account_object obj c =
          let on_start =
            if json.contains (codes "register_on_start") obj
            then json.to_bool true (json.member (codes "register_on_start") obj)
            else true in
          let (password, c') =
            if json.contains (codes "password") obj
            then resolve_password qt sys (json.to_text (json.member (codes "password") obj)) c
            else ([], c) in
          (
            record {
              params = fill_label (fill_auth_user (read_fields obj on_start));
              password = password;
              register_on_start = on_start;
            },
            c',
          )
