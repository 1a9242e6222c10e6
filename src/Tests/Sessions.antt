-- ===== src/Tests/Sessions.antt =====
-- The theorems about the sessions at one outbound call.
use compact_phone.Base.{pos, ◌≡◌, refl, true, false, none, some, List, [], ◌∷◌, arith, z_eq}
use compact_phone.Base.Dict.{lookup}
use compact_phone.Base.Text.{codes}
use compact_phone.Backend.{CallState}
use compact_phone.Calls.Commands.{CallEntry, CallDirection}
use compact_phone.Sessions.{note_state, note_outbound, has_live_outbound_to}
use compact_phone.Sessions.Dialed.{Note, note_all, dialed_while_up}
use compact_phone.Sessions.History.{Told, tell_all, times_of, outbound_call_history}

abbrev entry : CallState → CallEntry
entry s = record {
  id = pos 1;
  account_id = pos 1;
  remote_uri = codes "sip:600@10.0.0.1";
  remote_display_name = [];
  state = s;
  held = false;
  muted = false;
  recording = false;
  direction = CallDirection.outbound;
}

abbrev told : List Told
told =
    (entry CallState.calling, CallState.calling, 1000)
    ∷ (entry CallState.confirmed, CallState.confirmed, 4000)
    ∷ (entry CallState.confirmed, CallState.confirmed, 5000)
    ∷ []

outbound_call_history_example :
    let (history, t) =
      note_state
        (entry CallState.disconnected)
        CallState.disconnected
        9000
        (tell_all told (note_outbound (pos 1) (pos 1) (codes "sip:600@pbx") 900 [])) in
    (times_of history ≡ some (4000, 5000)) × (lookup (pos 1) t ≡ none)
unfolding lookup z_eq
outbound_call_history_example =
    outbound_call_history (pos 1) (pos 1) (codes "sip:600@pbx") 900 9000 told
      (entry CallState.disconnected) [] refl refl refl (omega arith) refl refl

abbrev noted_next : List Note
noted_next =
    Note.state (entry CallState.calling) CallState.calling 1000
    ∷ Note.outbound (pos 2) (pos 1) (codes "sip:601@pbx") 2000
    ∷ Note.state (entry CallState.confirmed) CallState.confirmed 4000
    ∷ Note.erased (pos 2)
    ∷ []

dialed_while_up_example :
    has_live_outbound_to
      (codes "sip:600@pbx")
      (note_all noted_next (note_outbound (pos 1) (pos 1) (codes "sip:600@pbx") 900 []))
    ≡ true
unfolding z_eq
dialed_while_up_example =
    dialed_while_up (pos 1) (pos 1) (codes "sip:600@pbx") 900 noted_next [] refl refl
