-- ===== src/Boot/Options.antt =====
-- src/core/BootConfig_parser.cpp, `configureParser`: the options of the command line.
use Prim.Native.String.{String}
use compact_phone.Base.{Bool, false, ◌||◌, List, [], ◌∷◌}
use compact_phone.Base.Text.{Text, codes, text_eq}

-- An option without the name of a value is a switch.
pub record CommandLineOption : Type 0 where
  pub name : Text
  pub description : String
  pub value_name : String
  pub default_value : String

abbrev option : Text → String → String → CommandLineOption
option name description value_name = record {
  name = name;
  description = description;
  value_name = value_name;
  default_value = "";
}

abbrev switch : Text → String → CommandLineOption
switch name description = option name description ""

abbrev options : List CommandLineOption
options =
    option (codes "sip-server") "SIP server hostname or IP. Becomes registrar and default realm."
      "host"
    ∷ option (codes "sip-port") "SIP server port (default: 5060 for UDP/TCP, 5061 for TLS)." "port"
    ∷ option (codes "sip-user") "SIP username (the part before @ in the AOR)." "user"
    ∷ option (codes "sip-auth-user") "Auth username if different from --sip-user." "user"
    ∷ option (codes "sip-password")
        "SIP password. Insecure — leaks via `ps`. Prefer --sip-password-file or --sip-password-stdin or @env:VAR."
        "password"
    ∷ option (codes "sip-password-file") "Read SIP password from this file (first line, trimmed)."
        "path"
    ∷ switch (codes "sip-password-stdin")
        "Read SIP password from stdin (one line). Useful for piping from secret managers."
    ∷ option (codes "sip-realm") "SIP realm (defaults to --sip-server)." "realm"
    ∷ option (codes "sip-proxy") "Outbound SIP proxy, e.g. sbc.example.com:5060." "host[:port]"
    ∷ option (codes "sip-transport") "SIP transport: udp, tcp, or tls (default: udp)." "transport"
    ∷ option (codes "sip-srtp") "SRTP mode: disabled, optional, or mandatory (default: optional)."
        "mode"
    ∷ option (codes "sip-display-name") "Display name shown to the remote party." "name"
    ∷ option (codes "sip-stun") "STUN server (host or host:port)." "host"
    ∷ option (codes "sip-public-address")
        "Public Contact address to advertise instead of STUN discovery." "host[:port]"
    ∷ option (codes "sip-codecs") "Comma-separated codec priority list, e.g. opus,PCMA,PCMU." "list"
    ∷ option (codes "sip-voicemail") "Voicemail access number or URI." "number"
    ∷ option (codes "sip-register-interval") "REGISTER refresh interval in seconds." "seconds"
    ∷ option (codes "sip-keepalive-interval") "UDP keepalive interval in seconds." "seconds"
    ∷ option (codes "sip-session-timers") "Enable SIP session timers: yes or no (default: yes)."
        "yes-no"
    ∷ switch (codes "sip-publish-presence") "Publish SIMPLE presence for this account."
    ∷ switch (codes "no-sip-publish-presence")
        "Disable SIMPLE presence publishing for this account."
    ∷ switch (codes "sip-ice") "Enable ICE media negotiation."
    ∷ switch (codes "no-sip-ice") "Disable ICE media negotiation."
    ∷ switch (codes "sip-hide-caller-id") "Use an anonymous From identity for outbound calls."
    ∷ switch (codes "no-sip-hide-caller-id")
        "Use the configured account identity for outbound calls."
    ∷ switch (codes "sip-zrtp") "Enable ZRTP flag in the account profile."
    ∷ switch (codes "no-sip-zrtp") "Disable ZRTP flag in the account profile."
    ∷ switch (codes "sip-allow-untrusted-cert") "Allow untrusted TLS certificates for this account."
    ∷ switch (codes "no-sip-allow-untrusted-cert")
        "Require trusted TLS certificates for this account."
    ∷ option (codes "sip-dtmf-method") "DTMF method: inband, rfc2833, or info." "method"
    ∷ option (codes "sip-enabled") "Enable this account: yes or no (default: yes)." "yes-no"
    ∷ switch (codes "sip-default") "Make this account the default account."
    ∷ option (codes "sip-sort-order") "Account sort order." "number"
    ∷ option (codes "sip-label") "Friendly label for the account (defaults to <user>@<server>)."
        "label"
    ∷ record (option (codes "register-on-start")
        "Register this account on startup: yes or no (default: yes)." "yes-no") {
          default_value = "yes";
        }
    ∷ switch (codes "replace-account")
        "If an account with the same username and server already exists, update it instead of adding a duplicate."
    ∷ switch (codes "autoanswer") "Enable auto-answer for incoming calls."
    ∷ switch (codes "auto-answer") "Headless alias for auto-answering incoming calls."
    ∷ switch (codes "dnd") "Enable Do Not Disturb (reject all incoming)."
    ∷ switch (codes "minimize-to-tray") "Start minimized to the system tray."
    ∷ option (codes "theme") "Initial theme: light, dark, midnight, ivory, or velvet." "id"
    ∷ option (codes "log-level") "Log level: trace, debug, info, warn, error." "level"
    ∷ option (codes "log-file") "Append logs to this file." "path"
    ∷ option (codes "config")
        "Read additional provisioning settings from this JSON file. CLI flags override file values."
        "path"
    ∷ option (codes "call") "Headless mode: place an outbound call to this SIP URI." "sip-uri"
    ∷ option (codes "play-file") "Headless mode: WAV file to transmit when media is confirmed."
        "path"
    ∷ switch (codes "loop-play-file") "Headless mode: loop --play-file until the call ends."
    ∷ option (codes "duration-sec") "Headless mode: quit after this many seconds." "seconds"
    ∷ switch (codes "exit-after-call") "Headless mode: quit when the active call disconnects."
    ∷ []

abbrev is_named : Text → List CommandLineOption → Bool
is_named name [] = false
is_named name (o ∷ rest) = text_eq o.name name || is_named name rest

-- Whether `configureParser` adds the option.
unfoldable pub is_option : Text → Bool
unfolding text_eq
is_option name = is_named name options
