-- ===== src/Testsuite/Callback.antt =====
-- backend/src/testsuite/testsuite-callback.controller.ts.
pub mod Verdicts
pub mod Outcomes
use vibe_ocpp.Prelude.{
  ℕ, ◌-◌, String, Bool, true, false, not, ◌&&◌, Option, none, some, ok, not_found, forbidden,
  Action, ◌>>=◌, ◌>>◌, and_then, pure, throw, asks, modify, truthy, failure, ◌==◌, if◌then◌else◌,
}
use mathlib.Core.Option
use vibe_ocpp.Prelude.Text.{◌+++◌}
use vibe_ocpp.Prelude.Json.{Json, obj, property, as_text}
use vibe_ocpp.Database.{Table, update_row}
use vibe_ocpp.Testsuite.Rows.{Run, Step, StepStatus, running, pass, fail, is_running}
use vibe_ocpp.Testsuite.World.{Tables, World, Services}

-- The time that a comparison takes is left out: `timingSafeEqual` is `===` on bytes.
abbrev pub secrets_match : String → String → Bool
secrets_match a b = a == b

unfoldable pub both : Option String → Option String → Option (String × String)
both (some code) (some description) = some (code, description)
both _ _ = none

-- The error code and the description of an OCPP CallError, and none for any other payload.
unfoldable pub ocpp_error : Json → Option (String × String)
unfolding both
ocpp_error (obj fields) =
    both (as_text (property fields "errorCode")) (as_text (property fields "errorDescription"))
ocpp_error _ = none

-- The row of a step that its callback resolves; `step` is the row as it was read, whose
-- `startedAt` gives the duration.
unfoldable pub resolved : Json → ℕ → Step → Option (String × String) → Step → Step
resolved payload now step (some (code, description)) r = record r {
  status = fail;
  response_payload = some payload;
  error_message = some (code +++ ": " +++ description);
  finished_at = some now;
  duration_ms = Option.map (λ at. now - at) step.started_at;
}
resolved payload now step none r = record r {
  status = pass;
  response_payload = some payload;
  error_message = none;
  finished_at = some now;
  duration_ms = Option.map (λ at. now - at) step.started_at;
}

pub data Reply : Type 0 where
  done ignored : Reply

-- Whether the request shows the secret that is set.
unfoldable pub authorised : Option String → Option String → Bool
authorised (some secret) (some expected) =
    truthy expected && truthy secret && secrets_match secret expected
authorised _ _ = false

module _ (T : Tables) (S : Services T) where
  open T use {Runs, Steps}
  open S use {get_webhook_secret}

  abbrev Act : Type 0 → Type 0
  Act A = Action (World T) A

  or_not_found : Option Step → Act Step
  or_not_found none = throw (not_found "Unknown testsuite step")
  or_not_found (some step) = pure step

  -- A step's foreign key names its run; Prisma throws where it does not.
  the_run : Option Run → Act Run
  the_run none = throw (failure "Inconsistent query result")
  the_run (some run) = pure run

  guard : Bool → Act (Unit {0})
  guard true = pure tt
  guard false = throw (forbidden "Invalid or missing webhook secret")

  on_steps : {A : Type 0} → Action Steps.Store A → Act A
  on_steps m w = ((m w.steps).0, record w { steps = (m w.steps).1 })

  settle : Bool → String → Json → Step → Act Reply
  unfolding ocpp_error resolved on_steps update_row
  settle true step_id payload step = do
    now ← asks (λ w. w.clock)
    on_steps (update_row Steps step_id (resolved payload now step (ocpp_error payload)))
    pure done
  settle false step_id payload step = pure ignored

  -- The status is the one read before the secret is looked up.
  unfoldable pub receive_callback : String → Option String → Json → Act Reply
  unfolding or_not_found the_run guard authorised settle
  receive_callback step_id secret payload = do
    found ← asks (λ w. Steps.get step_id w.steps)
    step ← or_not_found found
    joined ← asks (λ w. Runs.get step.run_id w.runs)
    run ← the_run joined
    expected ← get_webhook_secret run.tenant_id
    guard (authorised secret expected)
    settle (is_running step.status) step_id payload step
