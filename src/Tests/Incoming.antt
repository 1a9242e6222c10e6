-- ===== src/Tests/Incoming.antt =====
-- The theorems about incoming calls and the ringing state at one call.
use compact_phone.Base.{ℕ, pos, ◌≡◌, refl, true, Option, some, none, List, [], ◌∷◌, z_eq}
use compact_phone.Base.Dict.{lookup}
use compact_phone.Base.Text.{codes}
use compact_phone.Account.{AccountsView}
use compact_phone.Backend.{Event}
use compact_phone.Backend.Fake.Calls.{fake_backend}
use compact_phone.Controller.{CallSettings}
use compact_phone.Controller.Loop.{Input, step, run, init}
use compact_phone.Controller.Ringing.{IsTold}
use compact_phone.Controller.Ringing.Steps
use compact_phone.Controller.Screening
use compact_phone.Tests.{accounts, ready_backend, host, controller, call_settings}

-- An incoming call that is accepted.
abbrev history : List (Option AccountsView × Option CallSettings × ℕ × Input)
history =
    (
      some accounts,
      none,
      1000,
      Input.event (Event.incoming_call (pos 1) (pos 1) (codes "sip:600@pbx") []),
    )
    ∷ (some accounts, none, 1000, Input.queued)
    ∷ (some accounts, none, 3000, Input.accept_incoming)
    ∷ []

run-init-IsTold_example : IsTold (run fake_backend host history (init ready_backend))
run-init-IsTold_example = Steps.run-init-IsTold fake_backend host ready_backend history

-- Do-not-disturb is on, and so is forwarding always.
incoming_outcome_example :
    let c' =
      step fake_backend host
        (some accounts)
        (some call_settings)
        1000
        (Input.event (Event.incoming_call (pos 1) (pos 1) (codes "sip:600@pbx") []))
        controller in
    (c'.calls.backend ≡ (fake_backend.decline (pos 1) (pos 486) ready_backend).1)
    × (c'.deferred ≡ [])
    × (c'.ringing ≡ true)
unfolding lookup z_eq
incoming_outcome_example =
    Screening.incoming_outcome fake_backend host (some accounts) call_settings 1000 (pos 1) (pos 1)
      (codes "sip:600@pbx") [] controller refl refl
