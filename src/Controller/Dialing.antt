-- ===== src/Controller/Dialing.antt =====
-- The guard of `CallsController::dial` in src/core/CallsController.cpp against a burst of dials.
use compact_phone.Base.{ℕ, ℤ, pos, ◌≡◌, refl, ◌∙◌, sym, ap, true, false, Option, List, arith, leb_ℤ}
use compact_phone.Base.Text.{Text, is_empty}
use compact_phone.Account.{AccountsView}
use compact_phone.Backend.{SipBackend}
use compact_phone.Sessions.{note_outbound, has_live_outbound_to}
use compact_phone.Sessions.Dialed.{Note, note_all, all_leave, dialed_while_up}
use compact_phone.Controller.{CallsController, CallSettings, Host}
use compact_phone.Controller.Actions.{dial, place, note_dialed, target_for, resolved_id}

module _ {B : Type 0} (sip : SipBackend B) (host : Host) where
  dial_ignored :
      (am : Option AccountsView) (s : Option CallSettings) (now : ℕ) (aid : ℤ) (uri : Text)
      (c : CallsController B)
      → has_live_outbound_to (target_for am (resolved_id am aid) (host.trimmed uri)) c.sessions
        ≡ true
      → dial sip host am s now aid uri c ≡ c
  unfolding dial
  dial_ignored am s now aid uri c live = ground (arith)

  dial_placed :
      (am : Option AccountsView) (s : Option CallSettings) (now : ℕ) (aid : ℤ) (uri : Text)
      (c : CallsController B)
      → is_empty (host.trimmed uri) ≡ false
      → has_live_outbound_to (target_for am (resolved_id am aid) (host.trimmed uri)) c.sessions
        ≡ false
      → dial sip host am s now aid uri c
        ≡ note_dialed sip host now
            (resolved_id am aid)
            (target_for am (resolved_id am aid) (host.trimmed uri))
            (place sip host am s now aid (target_for am (resolved_id am aid) (host.trimmed uri)) c)
  unfolding dial
  dial_placed am s now aid uri c full fresh = rw full (rw fresh refl)

  note_dialed-current :
      (now : ℕ) (account : ℤ) (target : Text) (c : CallsController B)
      → (note_dialed sip host now account target c).current_call_id ≡ c.current_call_id
  unfolding note_dialed
  note_dialed-current now account target c = ground arith

  noted_when_up :
      (now : ℕ) (account : ℤ) (target : Text) (c : CallsController B)
      → leb_ℤ (pos 0) c.current_call_id ≡ true
      → (note_dialed sip host now account target c).sessions
        ≡ note_outbound c.current_call_id account target now c.sessions
  unfolding note_dialed
  noted_when_up now account target c up = rw up refl

  note_dialed-sessions :
      (now : ℕ) (account : ℤ) (target : Text) (c d : CallsController B)
      → d ≡ note_dialed sip host now account target c
      → leb_ℤ (pos 0) d.current_call_id ≡ true
      → d.sessions ≡ note_outbound d.current_call_id account target now c.sessions
  note_dialed-sessions now account target c d e up =
      let same : d.current_call_id ≡ c.current_call_id =
        ap (λ x. x.current_call_id) e ∙ note_dialed-current now account target c in
      ap (λ x. x.sessions) e
      ∙ (noted_when_up now account target c (ap (leb_ℤ (pos 0)) (sym same) ∙ up)
          ∙ ap (λ i. note_outbound i account target now c.sessions) (sym same))

  -- Once a dial of a non-empty target, which no live call was dialed to, has left the controller with
  -- a call, the same dial over the same accounts changes nothing in any later state of the controller
  -- whose sessions come from those after it by notes that neither disconnect or erase that call nor
  -- dial anew under its id: in a burst only the first one dials.
  pub dial_again :
      (am : Option AccountsView) (s s' : Option CallSettings) (now later : ℕ) (aid : ℤ) (uri : Text)
      (ns : List Note) (c c' : CallsController B)
      → is_empty (host.trimmed uri) ≡ false
      → is_empty (target_for am (resolved_id am aid) (host.trimmed uri)) ≡ false
      → has_live_outbound_to (target_for am (resolved_id am aid) (host.trimmed uri)) c.sessions
        ≡ false
      → leb_ℤ (pos 0) (dial sip host am s now aid uri c).current_call_id ≡ true
      → all_leave (dial sip host am s now aid uri c).current_call_id ns ≡ true
      → c'.sessions ≡ note_all ns (dial sip host am s now aid uri c).sessions
      → dial sip host am s' later aid uri c' ≡ c'
  dial_again am s s' now later aid uri ns c c' full target fresh up leave after =
      let t = target_for am (resolved_id am aid) (host.trimmed uri) in
      dial_ignored am s' later aid uri c' (
        ap (has_live_outbound_to t) after
        ∙ (ap (λ x. has_live_outbound_to t (note_all ns x))
              (note_dialed-sessions now (resolved_id am aid) t _ _
                (dial_placed am s now aid uri c full fresh) up)
            ∙ dialed_while_up _ (resolved_id am aid) t now ns _ target leave))
