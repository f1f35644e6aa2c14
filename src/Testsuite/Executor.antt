-- ===== src/Testsuite/Executor.antt =====
-- backend/src/testsuite/testsuite-step-executor.service.ts, and message-log-waiter.service.ts
-- beside it: one step of the suite, from its start to its result.
pub mod Settles
use vibe_ocpp.Prelude.{
  ℕ, ◌-◌, String, Bool, true, false, not, ◌&&◌, ◌||◌, Option, none, some, List, [], ◌∷◌, ok,
  failure, message, Action, ◌>>=◌, ◌>>◌, and_then, recover, catch, pure, throw, asks, modify, any,
  get_or, is_some, present, truthy, ◌==◌, if◌then◌else◌,
}
use mathlib.Core.Option
use vibe_ocpp.Prelude.Text.{◌+++◌}
use vibe_ocpp.Prelude.Json.{Json, Fields, Items, str, num, arr, obj, end, field, nil, cons}
use vibe_ocpp.Database.{Table, update_row}
use vibe_ocpp.Testsuite.Rows.{
  StepKind, trigger, command, observe, StepDefinition, ResetType, immediate, on_idle,
  immediate_and_resume, IdToken, RunParams, Run, StepStatus, running, pass, fail, timeout, skipped,
  Step, is_running,
}
use vibe_ocpp.Testsuite.Commands.{optional, given, build_command_request}
use vibe_ocpp.Testsuite.PollUntil.{poll_until}
use vibe_ocpp.Testsuite.World.{
  Tables, World, Services, Message, Command, request_start_transaction, request_stop_transaction,
  reset, get_variables, data_transfer,
}

abbrev command_poll_interval_ms : ℕ
command_poll_interval_ms = 1000

abbrev default_poll_interval_ms : ℕ
default_poll_interval_ms = 1000

-- The data of `finish`; an absent field leaves the column as it is.
pub record Outcome : Type 0 where
  pub status : StepStatus
  pub response_payload : Option Json
  pub error_message : Option String
  pub finished_at : ℕ
  pub duration_ms : Option ℕ

abbrev without_response : StepStatus → String → Option ℕ → ℕ → Outcome
without_response status text since now = record {
  status = status;
  response_payload = none;
  error_message = some text;
  finished_at = now;
  duration_ms = Option.map (λ at. now - at) since;
}

abbrev with_match : Message → ℕ → ℕ → Outcome
with_match match started_at now = record {
  status = pass;
  response_payload =
      some (obj (field "info" match.info (field "rawMessage" match.raw_message end)));
  error_message = none;
  finished_at = now;
  duration_ms = some (now - started_at);
}

or_else : {A : Type 0} → Option A → Option A → Option A
or_else none old = old
or_else (some new) old = some new

unfoldable pub finished : Outcome → Step → Step
unfolding or_else
finished o r = record r {
  status = o.status;
  response_payload = or_else o.response_payload r.response_payload;
  error_message = or_else o.error_message r.error_message;
  finished_at = some o.finished_at;
  duration_ms = or_else o.duration_ms r.duration_ms;
}

unfoldable pub started : ℕ → Option Json → Step → Step
started started_at payload r = record r {
  status = running;
  started_at = some started_at;
  request_payload = payload;
}

module _ (T : Tables) (S : Services T) where
  open T use {Steps}
  open S use {
    trigger_message, send, get_webhook_base_url, get_webhook_secret, find_first_after, sleep,
    encode_uri_component,
  }

  abbrev pub Act : Type 0 → Type 0
  Act A = Action (World T) A

  on_steps : {A : Type 0} → Action Steps.Store A → Act A
  on_steps m w = ((m w.steps).0, record w { steps = (m w.steps).1 })

  unfoldable pub mark_running : String → ℕ → Option Json → Act Step
  unfolding on_steps update_row started
  mark_running step_id started_at payload =
      on_steps (update_row Steps step_id (started started_at payload))

  unfoldable pub finish : String → Outcome → Act Step
  unfolding on_steps update_row finished
  finish step_id o = on_steps (update_row Steps step_id (finished o))

  -- `finish` without a response, at the present instant; `since` gives the duration.
  unfoldable pub conclude : String → StepStatus → String → Option ℕ → Act (Unit {0})
  unfolding finish
  conclude step_id status text since = do
    now ← asks (λ w. w.clock)
    finish step_id (without_response status text since now)
    pure tt

  undelivered : List Bool → Bool
  undelivered confirmations = any not confirmations

  -- message-log-waiter.service.ts
  unfoldable pub wait_for_message : String → String → String → ℕ → ℕ → Act (Option Message)
  unfolding poll_until
  wait_for_message tenant_id name action since timeout_ms =
      poll_until (λ w. w.clock) sleep
        (find_first_after tenant_id name action "ChargingStation" since) timeout_ms
        default_poll_interval_ms

  conclude_observation : Step → StepDefinition → ℕ → Option Message → Act (Unit {0})
  unfolding conclude finish
  conclude_observation step definition started_at (some match) = do
    now ← asks (λ w. w.clock)
    finish step.id (with_match match started_at now)
    pure tt
  conclude_observation step definition started_at none =
      conclude step.id timeout
        (get_or definition.note ("No " +++ definition.action +++ " observed within the timeout."))
        (some started_at)

  observe_unless : Bool → Run → Step → StepDefinition → ℕ → Act (Unit {0})
  unfolding conclude wait_for_message conclude_observation
  observe_unless true run step definition started_at =
      conclude step.id fail
        "CitrineOS could not deliver the TriggerMessage request (station likely offline)."
        (some started_at)
  observe_unless false run step definition started_at = do
    match ←
        wait_for_message run.tenant_id run.ocpp_connection_name definition.action started_at
          definition.timeout_ms
    conclude_observation step definition started_at match

  triggered : Step → StepDefinition → ℕ → List Bool → Act Bool
  unfolding mark_running undelivered optional
  triggered step definition started_at confirmations = do
    mark_running step.id started_at
        (some (obj (optional "requestedMessage" (Option.map str definition.requested_message) end)))
    pure (undelivered confirmations)

  -- The trigger that is sent first, if any; it answers whether it was not delivered.
  announce : Bool → Run → Step → StepDefinition → ℕ → Act Bool
  unfolding mark_running triggered
  announce true run step definition started_at = do
    confirmations ←
        trigger_message run.tenant_id (run.ocpp_connection_name ∷ []) definition.requested_message
    triggered step definition started_at confirmations
  announce false run step definition started_at = do
    mark_running step.id started_at none
    pure false

  unfoldable pub run_trigger_or_observe : Run → Step → StepDefinition → ℕ → Bool → Act (Unit {0})
  unfolding announce observe_unless
  run_trigger_or_observe run step definition started_at send_trigger = do
    lost ← announce send_trigger run step definition started_at
    observe_unless lost run step definition started_at

  answered : Option Step → Option Step
  answered none = none
  answered (some s) = if is_running s.status then none else some s

  unless_resolved : Step → ℕ → Option Step → Act (Unit {0})
  unfolding conclude
  unless_resolved step started_at (some s) = pure tt
  unless_resolved step started_at none =
      conclude step.id timeout
        "CitrineOS accepted the command but no response callback arrived within the timeout."
        (some started_at)

  await_callback : Bool → Step → StepDefinition → ℕ → Act (Unit {0})
  unfolding conclude poll_until answered unless_resolved
  await_callback true step definition started_at =
      conclude step.id fail "CitrineOS could not deliver the command (station likely offline)."
        (some started_at)
  await_callback false step definition started_at = do
    outcome ←
        poll_until (λ w. w.clock) sleep (asks (λ w. answered (Steps.get step.id w.steps)))
          definition.timeout_ms command_poll_interval_ms
    unless_resolved step started_at outcome

  callback_url : String → Step → String → String
  callback_url base step secret =
      base
      +++ "/citrineos/webhooks/callback/"
      +++ step.id
      +++ "?secret="
      +++ encode_uri_component secret

  sent : Step → StepDefinition → ℕ → List Bool → Act (Unit {0})
  unfolding undelivered await_callback
  sent step definition started_at confirmations =
      await_callback (undelivered confirmations) step definition started_at

  send_command :
      Run
      → Step
      → StepDefinition
      → ℕ
      → Command × Json
      → Option String
      → Option String
      → Act (Unit {0})
  unfolding conclude mark_running sent callback_url
  send_command run step definition started_at (c, body) (some base) (some secret) = do
    mark_running step.id started_at (some body)
    confirmations ←
        send run.tenant_id (run.ocpp_connection_name ∷ []) c body (callback_url base step secret)
    sent step definition started_at confirmations
  send_command run step definition started_at built _ _ =
      conclude step.id fail
        "settings/citrineos/webhookBaseUrl and webhookSecret must be configured to correlate command responses."
        none

  run_built : Run → Step → StepDefinition → ℕ → Option (Command × Json) → Act (Unit {0})
  unfolding conclude given send_command
  run_built run step definition started_at none =
      conclude step.id skipped (get_or definition.note "Required run parameters were not provided.")
        none
  run_built run step definition started_at (some built) = do
    base ← get_webhook_base_url run.tenant_id
    secret ← get_webhook_secret run.tenant_id
    send_command run step definition started_at built (given (some base)) (given secret)

  unfoldable pub run_command : Run → Step → StepDefinition → RunParams → ℕ → Act (Unit {0})
  unfolding run_built build_command_request
  run_command run step definition params started_at =
      run_built run step definition started_at (build_command_request definition.action params)

  run_kind : StepKind → Run → Step → StepDefinition → RunParams → ℕ → Act (Unit {0})
  unfolding run_trigger_or_observe run_command
  run_kind trigger run step definition params at =
      run_trigger_or_observe run step definition at true
  run_kind observe run step definition params at =
      run_trigger_or_observe run step definition at false
  run_kind command run step definition params at = run_command run step definition params at

  unfoldable pub execute : Run → Step → StepDefinition → RunParams → Act (Unit {0})
  unfolding run_kind conclude
  execute run step definition params = do
    started_at ← asks (λ w. w.clock)
    catch (run_kind definition.kind run step definition params started_at)
        (λ e. conclude step.id fail ("Unexpected error: " +++ message e) (some started_at))
