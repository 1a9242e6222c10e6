-- ===== src/Boot/Merge.antt =====
-- src/core/BootConfig_file.cpp, `mergeInto`: a later layer on top of those before it.
use compact_phone.Base.{◌||◌, Option, none, some, ◌++◌}
use compact_phone.Boot.{BootConfig}

abbrev pub later {ℓ} : {A : Type ℓ} → Option A → Option A → Option A
later base none = base
later base (some x) = some x

unfoldable pub merge_into : BootConfig → BootConfig → BootConfig
merge_into base incoming = record {
  accounts = base.accounts ++ incoming.accounts;
  auto_answer = later base.auto_answer incoming.auto_answer;
  dnd = later base.dnd incoming.dnd;
  minimize_to_tray = later base.minimize_to_tray incoming.minimize_to_tray;
  theme = later base.theme incoming.theme;
  log_level = later base.log_level incoming.log_level;
  log_file = later base.log_file incoming.log_file;
  headless_call_uri = later base.headless_call_uri incoming.headless_call_uri;
  headless_auto_answer = later base.headless_auto_answer incoming.headless_auto_answer;
  headless_play_file = later base.headless_play_file incoming.headless_play_file;
  headless_loop_play_file = later base.headless_loop_play_file incoming.headless_loop_play_file;
  headless_duration_sec = later base.headless_duration_sec incoming.headless_duration_sec;
  headless_exit_after_call = later base.headless_exit_after_call incoming.headless_exit_after_call;
  replace_accounts = base.replace_accounts || incoming.replace_accounts;
}
