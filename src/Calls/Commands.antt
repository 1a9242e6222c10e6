-- ===== src/Calls/Commands.antt =====
-- src/core/CallManager.cpp: the commands of the user, and the reads.
use compact_phone.Base.{
  ℕ, ℤ, pos, Bool, true, false, not, ◌||◌, ◌++◌, Option, none, some, List, [], ◌∷◌, map,
  if◌then◌else◌, z_eq, invalid_id,
}
use compact_phone.Base.Dict.{lookup, emplace, modify}
use compact_phone.Base.Text.{Text, is_empty}
use compact_phone.Base.Lists.{length}
use compact_phone.Account.{AccountsView, DtmfMethod}
use compact_phone.Backend.{SipBackend, CallState}
use compact_phone.Calls.{CallRecord, CallManager}
use compact_phone.Calls.Active.{set_active_call, is_live}
use compact_phone.Calls.Transfers.{record_legs, drop}

-- src/core/CallEntry.h
pub data CallDirection : Type 0 where
  outbound inbound : CallDirection

pub record CallEntry : Type 0 where
  pub id : ℤ
  pub account_id : ℤ
  pub remote_uri : Text
  pub remote_display_name : Text
  pub state : CallState
  pub held : Bool
  pub muted : Bool
  pub recording : Bool
  pub direction : CallDirection

abbrev pub entry_of : ℤ × CallRecord → CallEntry
entry_of (id, r) = record {
  id = id;
  account_id = r.account_id;
  remote_uri = r.remote_uri;
  remote_display_name = r.remote_display_name;
  state = r.state;
  held = r.held;
  muted = r.muted;
  recording = r.recording;
  direction = if r.inbound then CallDirection.inbound else CallDirection.outbound;
}

unfoldable pub snapshot : {B : Type 0} → CallManager B → List CallEntry
snapshot m = map entry_of m.records ++ map entry_of m.lingering

unfoldable pub call_count : {B : Type 0} → CallManager B → ℕ
call_count m = length m.records

unfoldable pub last_status_code : {B : Type 0} → ℤ → CallManager B → ℤ
last_status_code id m = elim (lookup id m.records) [
  | some r ↦ r.last_status_code
  | none ↦ elim (lookup id m.lingering) [ some r ↦ r.last_status_code | none ↦ pos 0 ]
]

unfoldable pub is_recording : {B : Type 0} → ℤ → CallManager B → Bool
is_recording id m = elim (lookup id m.records) [ none ↦ false | some r ↦ r.recording ]

unfoldable pub is_playing_audio_file : {B : Type 0} → ℤ → CallManager B → Bool
is_playing_audio_file id m = elim (lookup id m.records) [ none ↦ false | some r ↦ r.playing_file ]

unfoldable pub is_muted : {B : Type 0} → ℤ → CallManager B → Bool
is_muted id m = elim (lookup id m.records) [ none ↦ false | some r ↦ r.muted ]

-- The record of a call that has just been made or has just come in.
abbrev pub new_record : ℤ → Text → Text → Bool → CallRecord
new_record account_id uri name is_inbound = record {
  account_id = account_id;
  remote_uri = uri;
  remote_display_name = name;
  state = CallState.calling;
  last_status_code = pos 0;
  inbound = is_inbound;
  held = false;
  muted = false;
  recording = false;
  playing_file = false;
}

abbrev pub dtmf_method_for : Option AccountsView → ℤ → DtmfMethod
dtmf_method_for none id = DtmfMethod.rfc2833
dtmf_method_for (some am) id = elim (am.find id) [
  | none ↦ DtmfMethod.rfc2833
  | some a ↦ a.dtmf_method
]

module _ {B : Type 0} (sip : SipBackend B) where
  unfoldable pub make_call_on : AccountsView → ℤ → Text → CallManager B → ℤ × CallManager B
  make_call_on am account_id uri m =
      let backend_acc = am.backend_id_for account_id in
      if z_eq backend_acc invalid_id
      then (invalid_id, m)
      else let (id, b) = sip.make_call backend_acc uri m.backend in
        if z_eq id invalid_id then (invalid_id, record m { backend = b }) else (
          id,
          set_active_call sip id (record m {
            backend = b;
            records = emplace id (new_record account_id uri [] false) m.records;
          }),
        )

  -- `makeCall(accountId, uri)`
  unfoldable pub make_call : Option AccountsView → ℤ → Text → CallManager B → ℤ × CallManager B
  unfolding make_call_on
  make_call none account_id uri m = (invalid_id, m)
  make_call (some am) account_id uri m = make_call_on am account_id uri m

  -- `makeCall(uri)`
  unfoldable pub make_default_call : Option AccountsView → Text → CallManager B → ℤ × CallManager B
  unfolding make_call
  make_default_call none uri m = (invalid_id, m)
  make_default_call (some am) uri m = make_call (some am) am.default_account_id uri m

  unfoldable pub accept : ℤ → CallManager B → Bool × CallManager B
  accept id m =
      if not (is_live id m)
      then (false, m)
      else let promoted = set_active_call sip id m in
        let (ok, b) = sip.answer id promoted.backend in (ok, record promoted { backend = b })

  unfoldable pub decline : ℤ → CallManager B → Bool × CallManager B
  decline id m =
      if not (is_live id m)
      then (false, m)
      else let (ok, b) = sip.decline id (pos 486) m.backend in (ok, record m { backend = b })

  unfoldable pub forward_call : ℤ → Text → CallManager B → Bool × CallManager B
  forward_call id target m =
      if not (is_live id m) || is_empty target
      then (false, m)
      else let (ok, b) = sip.redirect id target m.backend in (ok, record m { backend = b })

  unfoldable pub start_recording : ℤ → Text → CallManager B → Bool × CallManager B
  start_recording id path m =
      if not (is_live id m)
      then (false, m)
      else let (ok, b) = sip.start_recording id path m.backend in
        if ok
        then (
          true,
          record m {
            backend = b;
            records = modify id (λ r. record r { recording = true }) m.records;
          },
        )
        else (false, record m { backend = b })

  unfoldable pub stop_recording : ℤ → CallManager B → Bool × CallManager B
  stop_recording id m =
      let (ok, b) = sip.stop_recording id m.backend in
      if ok
      then (
        true,
        record m {
          backend = b;
          records = modify id (λ r. record r { recording = false }) m.records;
        },
      )
      else (false, record m { backend = b })

  unfoldable pub play_audio_file : ℤ → Text → Bool → CallManager B → Bool × CallManager B
  play_audio_file id path loop m =
      if not (is_live id m)
      then (false, m)
      else let (ok, b) = sip.play_file id path loop m.backend in
        if ok
        then (
          true,
          record m {
            backend = b;
            records = modify id (λ r. record r { playing_file = true }) m.records;
          },
        )
        else (false, record m { backend = b })

  unfoldable pub stop_audio_file : ℤ → CallManager B → Bool × CallManager B
  stop_audio_file id m =
      let (ok, b) = sip.stop_file id m.backend in
      if ok
      then (
        true,
        record m {
          backend = b;
          records = modify id (λ r. record r { playing_file = false }) m.records;
        },
      )
      else (false, record m { backend = b })

  unfoldable pub blind_transfer : ℤ → Text → CallManager B → Bool × CallManager B
  unfolding record_legs drop
  blind_transfer id target m =
      if not (is_live id m)
      then (false, m)
      else let pending = record_legs id (id ∷ []) m.transfers in
        let (ok, b) = sip.blind_transfer id target m.backend in
        if ok
        then (true, record m { backend = b; transfers = pending })
        else (false, record m { backend = b; transfers = drop id pending })

  unfoldable pub attended_transfer : ℤ → ℤ → CallManager B → Bool × CallManager B
  unfolding record_legs drop
  attended_transfer a dest m =
      if z_eq a dest
      then (false, m)
      else if not (is_live a m) || not (is_live dest m)
      then (false, m)
      else let pending = record_legs a (a ∷ dest ∷ []) m.transfers in
        let (ok, b) = sip.attended_transfer a dest m.backend in
        if ok
        then (true, record m { backend = b; transfers = pending })
        else (false, record m { backend = b; transfers = drop a pending })

  unfoldable pub hangup : ℤ → CallManager B → CallManager B
  hangup id m = if is_live id m then record m { backend = sip.hangup id m.backend } else m

  unfoldable pub set_muted : ℤ → Bool → CallManager B → Bool × CallManager B
  set_muted id muted m =
      if not (is_live id m)
      then (false, m)
      else let (ok, b) = sip.set_muted id muted m.backend in
        if ok
        then (
          true,
          record m { backend = b; records = modify id (λ r. record r { muted = muted }) m.records },
        )
        else (false, record m { backend = b })

  unfoldable pub send_dtmf : Option AccountsView → ℤ → Text → CallManager B → Bool × CallManager B
  send_dtmf am id digits m = elim (lookup id m.records) [
    | none ↦ (false, m)
    | some r ↦
        let (ok, b) = sip.send_dtmf id digits (dtmf_method_for am r.account_id) m.backend in
        (ok, record m { backend = b })
  ]
