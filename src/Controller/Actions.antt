-- ===== src/Controller/Actions.antt =====
-- src/core/CallsController.cpp: the commands of the user. The controller and its call manager are given
-- the same accounts, or none; the active account is what the provider answers. A command emits through
-- the manager, so the slots of the controller run on what it emitted.
use compact_phone.Base.{
  ℕ, ℤ, pos, negsuc, Bool, false, Option, none, some, [], if◌then◌else◌, leb_ℤ, ltb_ℤ, z_eq,
  invalid_id,
}
use compact_phone.Base.Text.{Text, is_empty, codes}
use compact_phone.Account.{AccountsView}
use compact_phone.Backend.{SipBackend}
use compact_phone.Calls.{CallManager}
use compact_phone.Calls.Active
use compact_phone.Calls.Commands
use compact_phone.Sessions.{note_outbound, has_live_outbound_to}
use compact_phone.SipUri.{normalize_sip_target}
use compact_phone.Controller.{CallsController, CallSettings, Host, Notice, notify, find_call_entry}
use compact_phone.Controller.Incoming.{with_calls, on_signals, publish_ringing}

abbrev pub resolved_id : Option AccountsView → ℤ → ℤ
resolved_id am aid =
    if ltb_ℤ (pos 0) aid then aid else elim am [ none ↦ invalid_id | some a ↦ a.default_account_id ]

-- A target as the account `id` dials it.
unfoldable pub target_for : Option AccountsView → ℤ → Text → Text
unfolding normalize_sip_target
target_for none id target = target
target_for (some a) id target = if z_eq id invalid_id then target else elim (a.find id) [
  | none ↦ target
  | some acc ↦ normalize_sip_target target acc.domain acc.transport
]

-- `blindTransfer` looks the account up whatever its id.
unfoldable pub transfer_target : Option AccountsView → Option ℤ → Text → Text
unfolding normalize_sip_target
transfer_target (some a) (some id) target = elim (a.find id) [
  | none ↦ target
  | some acc ↦ normalize_sip_target target acc.domain acc.transport
]
transfer_target (some a) none target = target
transfer_target none account target = target

module _ {B : Type 0} (sip : SipBackend B) (host : Host) where
  -- A method of the manager with a result, and then the slots on what it emitted.
  unfoldable pub with_result :
      {A : Type 0}
      → Option CallSettings
      → ℕ
      → (CallManager B → A × CallManager B)
      → CallsController B
      → A × CallsController B
  unfolding on_signals
  with_result s now f c =
      let (x, m) = f (record c.calls { signals = [] }) in
      (x, on_signals sip host s now m.signals (record c { calls = m }))

  abbrev as_current : ℤ × CallsController B → CallsController B
  as_current (id, c) = record c { current_call_id = id }

  -- The call that `dial` places, with the id that the controller then holds as the current one.
  unfoldable pub place :
      Option AccountsView
      → Option CallSettings
      → ℕ
      → ℤ
      → Text
      → CallsController B
      → CallsController B
  unfolding with_result Commands.make_call Commands.make_default_call
  place am s now aid target c =
      if ltb_ℤ (pos 0) aid
      then as_current (with_result s now (Commands.make_call sip am aid target) c)
      else elim am [
        | none ↦ c
        | some a ↦ as_current (with_result s now (Commands.make_default_call sip (some a) target) c)
      ]

  unfoldable pub note_dialed : ℕ → ℤ → Text → CallsController B → CallsController B
  unfolding note_outbound
  note_dialed now account target c =
      if leb_ℤ (pos 0) c.current_call_id
      then record c { sessions = note_outbound c.current_call_id account target now c.sessions }
      else c

  unfoldable pub dial :
      Option AccountsView
      → Option CallSettings
      → ℕ
      → ℤ
      → Text
      → CallsController B
      → CallsController B
  unfolding place note_dialed has_live_outbound_to target_for
  dial am s now aid uri c =
      let account = resolved_id am aid in
      let target = target_for am account (host.trimmed uri) in
      if is_empty (host.trimmed uri)
      then c
      else if has_live_outbound_to target c.sessions
      then c
      else note_dialed now account target (place am s now aid target c)

  unfoldable pub hangup : Option CallSettings → ℕ → ℤ → CallsController B → CallsController B
  unfolding with_calls
  hangup s now id c =
      if leb_ℤ (pos 0) id then with_calls sip host s now (Commands.hangup sip id) c else c

  -- What the manager answers to these commands is what the controller answers.
  unfoldable pub hold : Option CallSettings → ℕ → ℤ → CallsController B → Bool × CallsController B
  unfolding with_result
  hold s now id c = with_result s now (Active.hold sip id) c

  unfoldable pub unhold : Option CallSettings → ℕ → ℤ → CallsController B → Bool × CallsController B
  unfolding with_result
  unhold s now id c = with_result s now (Active.unhold sip id) c

  unfoldable pub set_muted :
      Option CallSettings → ℕ → ℤ → Bool → CallsController B → Bool × CallsController B
  unfolding with_result
  set_muted s now id muted c = with_result s now (Commands.set_muted sip id muted) c

  unfoldable pub send_dtmf :
      Option AccountsView
      → Option CallSettings
      → ℕ
      → ℤ
      → Text
      → CallsController B
      → Bool × CallsController B
  unfolding with_result
  send_dtmf am s now id digits c = with_result s now (Commands.send_dtmf sip am id digits) c

  -- The incoming call has been accepted or declined: it is no longer the incoming one.
  unfoldable pub settle_incoming : Bool × CallsController B → Bool × CallsController B
  unfolding publish_ringing
  settle_incoming (ok, c) = (
    ok,
    if ok
        then publish_ringing (
            notify Notice.incoming_call_changed
              (record c { incoming_call_id = negsuc 0; incoming_call_from = [] }))
        else c,
  )

  unfoldable pub accept_incoming :
      Option CallSettings → ℕ → CallsController B → Bool × CallsController B
  unfolding with_result settle_incoming
  accept_incoming s now c =
      if ltb_ℤ c.incoming_call_id (pos 0)
      then (false, c)
      else settle_incoming (with_result s now (Commands.accept sip c.incoming_call_id) c)

  unfoldable pub decline_incoming :
      Option CallSettings → ℕ → CallsController B → Bool × CallsController B
  unfolding with_result settle_incoming
  decline_incoming s now c =
      if ltb_ℤ c.incoming_call_id (pos 0)
      then (false, c)
      else settle_incoming (with_result s now (Commands.decline sip c.incoming_call_id) c)

  -- The answer of the manager, with the notice for it.
  abbrev noticed : Text → Text → Bool × CallsController B → Bool × CallsController B
  noticed done failed (ok, c) = (ok, notify (Notice.message (if ok then done else failed)) c)

  abbrev pub account_of : ℤ → CallsController B → Option ℤ
  account_of id c = elim (find_call_entry (Commands.snapshot c.calls) id) [
    | none ↦ none
    | some e ↦ some e.account_id
  ]

  unfoldable pub blind_transfer :
      Option AccountsView
      → Option CallSettings
      → ℕ
      → ℤ
      → Text
      → CallsController B
      → Bool × CallsController B
  unfolding with_result transfer_target find_call_entry Commands.snapshot
  blind_transfer am s now id target c =
      let uri = transfer_target am (account_of id c) target in
      noticed (codes "Transferring...") (codes "Transfer failed")
        (with_result s now (Commands.blind_transfer sip id uri) c)

  unfoldable pub attended_transfer :
      Option CallSettings → ℕ → ℤ → ℤ → CallsController B → Bool × CallsController B
  unfolding with_result
  attended_transfer s now a dest c =
      noticed (codes "Transferring...") (codes "Transfer failed")
        (with_result s now (Commands.attended_transfer sip a dest) c)

  unfoldable pub merge_calls :
      Option CallSettings → ℕ → ℤ → ℤ → CallsController B → Bool × CallsController B
  unfolding with_result
  merge_calls s now a held c =
      noticed (codes "Calls merged") (codes "Could not merge calls")
        (with_result s now (Active.merge_calls sip a held) c)

  unfoldable pub stop_recording :
      Option CallSettings → ℕ → ℤ → CallsController B → Bool × CallsController B
  unfolding with_result
  stop_recording s now id c =
      let (ok, c') = with_result s now (Commands.stop_recording sip id) c in
      (ok, if ok then notify (Notice.message (codes "Recording saved")) c' else c')
