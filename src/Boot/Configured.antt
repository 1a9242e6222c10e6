-- ===== src/Boot/Configured.antt =====
-- The options that src/core/BootConfig_parser.cpp consults are those that it configures.
use compact_phone.Base.{◌≡◌, refl, false, [], if◌then◌else◌}
use compact_phone.Boot.{Qt, System, Console}
use compact_phone.Boot.Options.{is_option}
use compact_phone.Boot.Object.{Json}
use compact_phone.Boot.Settings.{
  Parser, has_account_flags, cli_params, apply_settings, apply_setting, set_bool_pair,
}
use compact_phone.Boot.CommandLine.{parse_command_line, cli_config, cli_accounts, cli_password}

-- What is left of the command line without the options that `configureParser` does not add.
abbrev pub configured : Parser → Parser
configured p = record {
  is_set = λ name. if is_option name then p.is_set name else false;
  value = λ name. if is_option name then p.value name else [];
}

-- Every option that the program asks for is one that it configures: the configuration is the same
-- for a command line from which all other options have been taken.
pub parse_command_line-configured :
    {J S : Type 0} (json : Json J) (qt : Qt) (sys : System S) (p : Parser) (c : Console S)
    → parse_command_line qt (configured p) sys json c ≡ parse_command_line qt p sys json c
unfolding parse_command_line cli_config cli_accounts cli_password cli_params has_account_flags
    apply_settings apply_setting set_bool_pair is_option
parse_command_line-configured json qt sys p c = refl
