-- ===== src/Calls/Upkeep.antt =====
-- What each command of src/core/CallManager.cpp keeps of the manager's invariant.
use compact_phone.Base.{
  ℤ, ◌≡◌, refl, subst, Bool, true, false, Option, none, some, [], ◌∷◌, arith, z_eq_iff, inl, inr,
  Bool-cases, Option-cases,
}
use compact_phone.Base.Dict.{
  lookup, is_some, emplace, modify, insert, lookup-insert, lookup-erase, lookup-modify,
  lookup-emplace,
}
use compact_phone.Base.Text.{Text}
use compact_phone.Account.{AccountsView}
use compact_phone.Backend.{SipBackend}
use compact_phone.Calls.{CallRecord, CallManager}
use compact_phone.Calls.Active.{is_live, set_active_call}
use compact_phone.Calls.Commands.{
  new_record, make_call_on, make_call, make_default_call, accept, start_recording, stop_recording,
  play_audio_file, stop_audio_file, blind_transfer, attended_transfer, set_muted,
}
use compact_phone.Calls.Invariant.{IsSound, set_active_call-IsSound}

module _ {B : Type 0} (sip : SipBackend B) (k : ℤ) where
  pub added-IsSound :
      (id acc : ℤ) (uri name : Text) (is_inbound : Bool) (b : B) (m : CallManager B)
      → IsSound k m
      → IsSound k (record m {
        backend = b;
        records = emplace id (new_record acc uri name is_inbound) m.records;
      })
  added-IsSound id acc uri name is_inbound b m h =
      ground (arith, lookup-emplace k id (new_record acc uri name is_inbound) m.records)

  added-live :
      (id : ℤ) (r : CallRecord) (m : CallManager B)
      → id ≡ k
      → is_some (lookup k (emplace id r m.records)) ≡ true
  added-live id r m e = ground (arith, z_eq_iff id k, lookup-emplace k id r m.records)

  make_call_on-IsSound :
      (am : AccountsView) (acc : ℤ) (uri : Text) (m : CallManager B)
      → IsSound k m
      → IsSound k (make_call_on sip am acc uri m).1
  unfolding make_call_on
  make_call_on-IsSound am acc uri m h =
      let placed = sip.make_call (am.backend_id_for acc) uri m.backend in
      let r = new_record acc uri [] false in
      ground (
        arith,
        set_active_call-IsSound sip k placed.0
            (record m { backend = placed.1; records = emplace placed.0 r m.records })
            (added-live placed.0 r m) (added-IsSound placed.0 acc uri [] false placed.1 m h),
      )

  pub make_call-IsSound :
      (am : Option AccountsView) (acc : ℤ) (uri : Text) (m : CallManager B)
      → IsSound k m
      → IsSound k (make_call sip am acc uri m).1
  unfolding make_call
  make_call-IsSound none acc uri m h = h
  make_call-IsSound (some am) acc uri m h = make_call_on-IsSound am acc uri m h

  pub make_default_call-IsSound :
      (am : Option AccountsView) (uri : Text) (m : CallManager B)
      → IsSound k m
      → IsSound k (make_default_call sip am uri m).1
  unfolding make_default_call
  make_default_call-IsSound none uri m h = h
  make_default_call-IsSound (some am) uri m h =
      make_call_on-IsSound am am.default_account_id uri m h

  pub accept-IsSound : (id : ℤ) (m : CallManager B) → IsSound k m → IsSound k (accept sip id m).1
  unfolding accept
  accept-IsSound id m h = elim (Bool-cases (is_live id m)) [
    | inr gone ↦ rw (gone, accept) h
    | inl live ↦
        let promoted : IsSound k (set_active_call sip id m) =
          set_active_call-IsSound sip k id m (λ e. subst (λ (j : ℤ). is_live j m ≡ true) e live)
            h in
        ground arith
  ]

  -- The commands that only write one flag of one record.
  flag-IsSound :
      (id : ℤ) (f : CallRecord → CallRecord) (b : B) (m : CallManager B)
      → ((r : CallRecord) → (f r).state ≡ r.state)
      → IsSound k m
      → IsSound k (record m { backend = b; records = modify id f m.records })
  flag-IsSound id f b m keeps h = elim (Option-cases (lookup k m.records)) [
    | inl gone ↦ ground (arith, lookup-modify k id f m.records)
    | inr (r, e) ↦ ground (arith, lookup-modify k id f m.records, keeps r)
  ]

  pub start_recording-IsSound :
      (id : ℤ) (path : Text) (m : CallManager B)
      → IsSound k m
      → IsSound k (start_recording sip id path m).1
  unfolding start_recording
  start_recording-IsSound id path m h = ground (
    arith,
    flag-IsSound id (λ r. record r { recording = true }) (sip.start_recording id path m.backend).1 m
        (λ r. refl) h,
  )

  pub stop_recording-IsSound :
      (id : ℤ) (m : CallManager B) → IsSound k m → IsSound k (stop_recording sip id m).1
  unfolding stop_recording
  stop_recording-IsSound id m h = ground (
    arith,
    flag-IsSound id (λ r. record r { recording = false }) (sip.stop_recording id m.backend).1 m
        (λ r. refl) h,
  )

  pub play_audio_file-IsSound :
      (id : ℤ) (path : Text) (loop : Bool) (m : CallManager B)
      → IsSound k m
      → IsSound k (play_audio_file sip id path loop m).1
  unfolding play_audio_file
  play_audio_file-IsSound id path loop m h = ground (
    arith,
    flag-IsSound id (λ r. record r { playing_file = true }) (sip.play_file id path loop m.backend).1
        m (λ r. refl) h,
  )

  pub stop_audio_file-IsSound :
      (id : ℤ) (m : CallManager B) → IsSound k m → IsSound k (stop_audio_file sip id m).1
  unfolding stop_audio_file
  stop_audio_file-IsSound id m h = ground (
    arith,
    flag-IsSound id (λ r. record r { playing_file = false }) (sip.stop_file id m.backend).1 m
        (λ r. refl) h,
  )

  pub set_muted-IsSound :
      (id : ℤ) (muted : Bool) (m : CallManager B)
      → IsSound k m
      → IsSound k (set_muted sip id muted m).1
  unfolding set_muted
  set_muted-IsSound id muted m h = ground (
    arith,
    flag-IsSound id (λ r. record r { muted = muted }) (sip.set_muted id muted m.backend).1 m
        (λ r. refl) h,
  )

  pub blind_transfer-IsSound :
      (id : ℤ) (target : Text) (m : CallManager B)
      → IsSound k m
      → IsSound k (blind_transfer sip id target m).1
  unfolding blind_transfer
  blind_transfer-IsSound id target m h = ground (
    arith,
    z_eq_iff id k,
    lookup-insert k id (id ∷ []) m.transfers,
    lookup-erase k id (insert id (id ∷ []) m.transfers),
  )

  pub attended_transfer-IsSound :
      (a d : ℤ) (m : CallManager B) → IsSound k m → IsSound k (attended_transfer sip a d m).1
  unfolding attended_transfer
  attended_transfer-IsSound a d m h = ground (
    arith,
    z_eq_iff a k,
    lookup-insert k a (a ∷ d ∷ []) m.transfers,
    lookup-erase k a (insert a (a ∷ d ∷ []) m.transfers),
  )
