-- ===== src/Accounts/RoundTrip.antt =====
-- An account through the accounts table: src/core/AccountsManager.cpp, `insertRow` and
-- `loadFromDatabase`.
use compact_phone.Base.{
  ◌≡◌, refl, ap, ◌∙◌, Bool, true, false, ◌∷◌, [], z_eq, arith, inl, inr, Bool-cases,
}
use compact_phone.Base.Text.{Text, is_empty}
use compact_phone.Account.{
  Account, Transport, SrtpMode, DtmfMethod, transport_to_string, transport_from_string,
  srtp_mode_to_string, srtp_mode_from_string, dtmf_method_to_string, dtmf_method_from_string,
  enum_strings_roundtrip,
}
use compact_phone.Accounts.Table.{Row, row_of, account_of, flag, is_set, read_text, label_or}

pub is_set-flag : (b : Bool) → is_set (flag b) ≡ b
unfolding z_eq
is_set-flag true = refl
is_set-flag false = refl

-- An account as it comes back from the table: each text up to its first NUL, and the display name for an
-- empty label.
abbrev pub read_back : Account → Account
read_back a = record a {
  label = label_or (read_text a.label) (read_text a.display_name);
  display_name = read_text a.display_name;
  username = read_text a.username;
  domain = read_text a.domain;
  auth_user = read_text a.auth_user;
  auth_realm = read_text a.auth_realm;
  password_ref = read_text a.password_ref;
  proxy = read_text a.proxy;
  stun_server = read_text a.stun_server;
  public_address = read_text a.public_address;
  codec_list = read_text a.codec_list;
  voicemail_number = read_text a.voicemail_number;
  provider = read_text a.provider;
}

pub read_text-read_text : (s : Text) → read_text (read_text s) ≡ read_text s
unfolding read_text
read_text-read_text [] = refl
read_text-read_text (c ∷ s) = ground (arith, read_text-read_text s)

transport-read_text : (t : Transport) → read_text (transport_to_string t) ≡ transport_to_string t
unfolding read_text transport_to_string
transport-read_text Transport.udp = refl
transport-read_text Transport.tcp = refl
transport-read_text Transport.tls = refl

srtp_mode-read_text : (t : SrtpMode) → read_text (srtp_mode_to_string t) ≡ srtp_mode_to_string t
unfolding read_text srtp_mode_to_string
srtp_mode-read_text SrtpMode.disabled = refl
srtp_mode-read_text SrtpMode.optional = refl
srtp_mode-read_text SrtpMode.required = refl

dtmf_method-read_text :
    (t : DtmfMethod) → read_text (dtmf_method_to_string t) ≡ dtmf_method_to_string t
unfolding read_text dtmf_method_to_string
dtmf_method-read_text DtmfMethod.rfc2833 = refl
dtmf_method-read_text DtmfMethod.inband = refl
dtmf_method-read_text DtmfMethod.info = refl

-- An account that is written to the table and read back.
pub account_of-row_of : (a : Account) → account_of (row_of a) ≡ read_back a
unfolding account_of row_of
account_of-row_of a =
    let enums = enum_strings_roundtrip a.transport a.srtp_mode a.dtmf_method in
    λ i. record (read_back a) {
      transport = (ap transport_from_string (transport-read_text a.transport) ∙ enums.0) i;
      srtp_mode = (ap srtp_mode_from_string (srtp_mode-read_text a.srtp_mode) ∙ enums.1) i;
      dtmf_method = (ap dtmf_method_from_string (dtmf_method-read_text a.dtmf_method) ∙ enums.2) i;
      register_on_startup = is_set-flag a.register_on_startup i;
      session_timers_enabled = is_set-flag a.session_timers_enabled i;
      publish_presence_enabled = is_set-flag a.publish_presence_enabled i;
      ice_enabled = is_set-flag a.ice_enabled i;
      hide_caller_id = is_set-flag a.hide_caller_id i;
      zrtp_enabled = is_set-flag a.zrtp_enabled i;
      allow_untrusted_cert = is_set-flag a.allow_untrusted_cert i;
      is_default = is_set-flag a.is_default i;
      enabled = is_set-flag a.enabled i;
    }

label_or-label_or : (l d : Text) → label_or (label_or l d) d ≡ label_or l d
label_or-label_or l d = elim (Bool-cases (is_empty l)) [
  | inl e ↦ rw e (ground arith)
  | inr e ↦ rw e (ground arith)
]

-- Reading once more changes nothing.
pub read_back-account_of : (r : Row) → read_back (account_of r) ≡ account_of r
unfolding account_of
read_back-account_of r = λ i. record (account_of r) {
  label = relabelled i;
  display_name = read_text-read_text r.display_name i;
  username = read_text-read_text r.username i;
  domain = read_text-read_text r.domain i;
  auth_user = read_text-read_text r.auth_user i;
  auth_realm = read_text-read_text r.auth_realm i;
  password_ref = read_text-read_text r.password_ref i;
  proxy = read_text-read_text r.proxy i;
  stun_server = read_text-read_text r.stun_server i;
  public_address = read_text-read_text r.public_address i;
  codec_list = read_text-read_text r.codec_list i;
  voicemail_number = read_text-read_text r.voicemail_number i;
  provider = read_text-read_text r.provider i;
}
  where
    l : Text
    l = read_text r.label

    d : Text
    d = read_text r.display_name

    cut : read_text (label_or l d) ≡ label_or l d
    cut = elim (Bool-cases (is_empty l)) [
      | inl e ↦ rw e (read_text-read_text r.display_name)
      | inr e ↦ rw e (read_text-read_text r.label)
    ]

    relabelled : label_or (read_text (label_or l d)) (read_text d) ≡ label_or l d
    relabelled =
        ap (λ x. label_or x (read_text d)) cut
        ∙ ap (label_or (label_or l d)) (read_text-read_text r.display_name)
        ∙ label_or-label_or l d
