-- ===== src/Boot/CommandLine.antt =====
-- src/core/BootConfig_parser.cpp, `parseCommandLine`.
use compact_phone.Base.{
  Bool, true, not, ◌||◌, Option, none, some, List, [], ◌∷◌, ◌++◌, if◌then◌else◌,
}
use compact_phone.Base.Text.{Text, codes, is_empty}
use compact_phone.Boot.{Qt, System, Console, Warning, warn, BootAccount, BootConfig}
use compact_phone.Boot.Secrets.{resolve_password}
use compact_phone.Boot.Merge.{merge_into}
use compact_phone.Boot.Object.{Json}
use compact_phone.Boot.File.{load_from_file, discover_provisioning}
use compact_phone.Boot.Settings.{
  Parser, has_account_flags, cli_params, cli_server, cli_user, cli_on_start,
}

module _ (qt : Qt) (p : Parser) where
  module _ {S : Type 0} (sys : System S) where
    unfoldable pub cli_password : Console S → Text × Console S
    unfolding resolve_password
    cli_password c =
        if p.is_set (codes "sip-password-stdin")
        then resolve_password qt sys (codes "@stdin") c
        else if p.is_set (codes "sip-password-file")
        then resolve_password qt sys (codes "@file:" ++ p.value (codes "sip-password-file")) c
        else if p.is_set (codes "sip-password")
        then resolve_password qt sys (p.value (codes "sip-password"))
            (warn Warning.password_leaks c)
        else ([], c)

    unfoldable pub cli_accounts : Console S → List BootAccount × Console S
    unfolding has_account_flags cli_params cli_password
    cli_accounts c =
        let (password, c') = cli_password c in
        if not (has_account_flags p)
        then ([], c)
        else if is_empty (cli_server qt p) || is_empty (cli_user qt p)
        then ([], warn Warning.server_and_user_required c)
        else (
          record {
            params = (cli_params qt p);
            password = password;
            register_on_start = (cli_on_start qt p);
          }
              ∷ [],
          c',
        )

    abbrev switch : Text → Option Bool
    switch name = if p.is_set name then some true else none

    abbrev option : Text → Option Text
    option name = if p.is_set name then some (p.value name) else none

    -- The layer of the command line itself.
    unfoldable pub cli_config : Console S → BootConfig × Console S
    unfolding cli_accounts
    cli_config c =
        let (accounts, c') = cli_accounts c in
        (
          record {
            accounts = accounts;
            auto_answer = switch (codes "autoanswer");
            dnd = switch (codes "dnd");
            minimize_to_tray = switch (codes "minimize-to-tray");
            theme = option (codes "theme");
            log_level = option (codes "log-level");
            log_file = option (codes "log-file");
            headless_call_uri = option (codes "call");
            headless_auto_answer = switch (codes "auto-answer");
            headless_play_file = option (codes "play-file");
            headless_loop_play_file = switch (codes "loop-play-file");
            headless_duration_sec =
                if p.is_set (codes "duration-sec")
                then some (qt.to_int (p.value (codes "duration-sec")))
                else none;
            headless_exit_after_call = switch (codes "exit-after-call");
            replace_accounts = p.is_set (codes "replace-account");
          },
          c',
        )

    module _ {J : Type 0} (json : Json J) where
      unfoldable pub parse_command_line : Console S → BootConfig × Console S
      unfolding discover_provisioning load_from_file merge_into cli_config
      parse_command_line c =
          let (cfg, c1) = discover_provisioning json qt sys c in
          let (file, c2) = load_from_file json qt sys (p.value (codes "config")) c1 in
          let with_file : BootConfig × Console S =
            if p.is_set (codes "config") then (merge_into cfg file, c2) else (cfg, c1) in
          let (cli, c3) = cli_config with_file.1 in (merge_into with_file.0 cli, c3)
