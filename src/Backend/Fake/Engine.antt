-- ===== src/Backend/Fake/Engine.antt =====
-- src/core/sipbackend/fake/FakeSipBackend.cpp: life cycle, audio devices, accounts and watches.
use compact_phone.Base.{
  ◌+◌, ℤ, pos, Bool, true, false, not, ◌&&◌, ◌||◌, List, [], ◌∷◌, ◌++◌, if◌then◌else◌, z_eq,
  invalid_id, ltb_ℤ,
}
use compact_phone.Base.Dict.{lookup, insert, erase, is_some}
use compact_phone.Base.Text.{Text, codes}
use compact_phone.Backend.{AccountSettings, Event, PresenceState}
use compact_phone.Backend.Dispatch
use compact_phone.Backend.Fake.{FakeSipBackend, Command}

pub record AudioDevice : Type 0 where
  pub id : ℤ
  pub name : Text
  pub input_count : ℤ
  pub output_count : ℤ

abbrev pub log_cmd : Command → FakeSipBackend → FakeSipBackend
log_cmd c b = record b { log = c ∷ b.log }

abbrev pub post : List Event → FakeSipBackend → FakeSipBackend
post es b = record b { events = Dispatch.post es b.events }

unfoldable pub set_listener : Bool → FakeSipBackend → FakeSipBackend
set_listener listening b = record b { events = Dispatch.invalidate b.events; listening = listening }

unfoldable pub start : FakeSipBackend → Bool × FakeSipBackend
start b = (true, record b { running = true })

unfoldable pub stop : FakeSipBackend → FakeSipBackend
stop b = record b {
  events = Dispatch.invalidate b.events;
  running = false;
  accounts = [];
  calls = [];
  watches = [];
  ringtone_path = [];
  log = [];
}

concat : List (List Event) → List Event
concat [] = []
concat (es ∷ ess) = es ++ concat ess

-- The event loop runs what is queued: each lambda looks whether a listener is set.
unfoldable pub pump : FakeSipBackend → List Event × FakeSipBackend
unfolding concat
pump b =
    let (ess, d) = Dispatch.drain b.events in
    (if b.listening then concat ess else [], record b { events = d })

unfoldable pub audio_devices : List AudioDevice
audio_devices =
    record { id = pos 0; name = codes "Fake Microphone"; input_count = pos 1; output_count = pos 0 }
    ∷ record { id = pos 1; name = codes "Fake Speakers"; input_count = pos 0; output_count = pos 2 }
    ∷ []

has_device : (AudioDevice → ℤ) → ℤ → List AudioDevice → Bool
has_device count id [] = false
has_device count id (d ∷ ds) = z_eq d.id id && ltb_ℤ (pos 0) (count d) || has_device count id ds

unfoldable pub set_capture_device : ℤ → FakeSipBackend → Bool × FakeSipBackend
unfolding has_device
set_capture_device id b =
    if has_device (λ d. d.input_count) id audio_devices
    then (true, record b { capture_device = id })
    else (false, b)

unfoldable pub set_playback_device : ℤ → FakeSipBackend → Bool × FakeSipBackend
unfolding has_device
set_playback_device id b =
    if has_device (λ d. d.output_count) id audio_devices
    then (true, record b { playback_device = id })
    else (false, b)

unfoldable pub play_ringtone : Text → FakeSipBackend → Bool × FakeSipBackend
play_ringtone path b =
    if not b.running then (false, b) else (true, record b { ringtone_path = path })

unfoldable pub stop_ringtone : FakeSipBackend → FakeSipBackend
stop_ringtone b = record b { ringtone_path = [] }

unfoldable pub set_stun_servers : List Text → FakeSipBackend → FakeSipBackend
set_stun_servers servers b = record b { stun_servers = servers }

unfoldable pub set_codec_priority : List Text → FakeSipBackend → FakeSipBackend
set_codec_priority priority_order b = record b { codec_priority = priority_order }

abbrev pub has_account : ℤ → FakeSipBackend → Bool
has_account id b = is_some (lookup id b.accounts)

unfoldable pub add_account : AccountSettings → FakeSipBackend → ℤ × FakeSipBackend
add_account settings b =
    if not b.running
    then (invalid_id, b)
    else let id = pos b.next_account_id in
      (
        id,
        log_cmd (Command.add_account id settings.username) (record b {
          next_account_id = b.next_account_id + 1;
          accounts = insert id settings b.accounts;
          last_added_id = id;
        }),
      )

unfoldable pub remove_account : ℤ → FakeSipBackend → Bool × FakeSipBackend
remove_account id b =
    if not (has_account id b)
    then (false, b)
    else (true, log_cmd (Command.remove_account id) (record b { accounts = erase id b.accounts }))

unfoldable pub send_message : ℤ → Text → Text → FakeSipBackend → Bool × FakeSipBackend
send_message id to body b =
    if not b.running || not (has_account id b)
    then (false, b)
    else (true, log_cmd (Command.send_message id to body) b)

unfoldable pub watch : ℤ → Text → FakeSipBackend → ℤ × FakeSipBackend
watch account_id uri b =
    if not b.running || not (has_account account_id b)
    then (invalid_id, b)
    else let id = pos b.next_watch_id in
      (
        id,
        log_cmd (Command.watch id uri)
            (record b { next_watch_id = b.next_watch_id + 1; watches = insert id uri b.watches }),
      )

unfoldable pub unwatch : ℤ → FakeSipBackend → Bool × FakeSipBackend
unwatch id b =
    if not (is_some (lookup id b.watches))
    then (false, b)
    else (true, log_cmd (Command.unwatch id) (record b { watches = erase id b.watches }))

-- The account and presence half of the remote side.
abbrev post_if_running : Event → FakeSipBackend → FakeSipBackend
post_if_running e b = if not b.running then b else post (e ∷ []) b

unfoldable pub simulate_reg_state : ℤ → Bool → ℤ → Text → FakeSipBackend → FakeSipBackend
simulate_reg_state id reg_active code reason =
    post_if_running (Event.reg_state id reg_active code reason)

unfoldable pub simulate_mwi : ℤ → ℤ → ℤ → Bool → FakeSipBackend → FakeSipBackend
simulate_mwi id new_messages old_messages active =
    post_if_running (Event.mwi id new_messages old_messages active)

unfoldable pub simulate_instant_message : ℤ → Text → Text → FakeSipBackend → FakeSipBackend
simulate_instant_message id from body = post_if_running (Event.instant_message id from body)

unfoldable pub simulate_presence : ℤ → PresenceState → FakeSipBackend → FakeSipBackend
simulate_presence id state = post_if_running (Event.presence id state)
