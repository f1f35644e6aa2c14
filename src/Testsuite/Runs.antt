-- ===== src/Testsuite/Runs.antt =====
-- backend/src/testsuite/testsuite-run.service.ts: runs of the suite. `start_run` answers at once;
-- the run that it leaves to the background is `execute_run`. The ids that the database makes are
-- arguments.
pub mod Matrix
use vibe_ocpp.Prelude.{
  order_by, ℕ, suc, String, Bool, true, false, ◌&&◌, not, Option, none, some, List, [], ◌∷◌, ok,
  not_found, failure, Action, ◌>>=◌, ◌>>◌, and_then, recover, catch, pure, throw, asks, modify, any,
  take, get_or, is_some, truthy, ◌==◌, leb, if◌then◌else◌,
}
use mathlib.Core.Option
use vibe_ocpp.Prelude.Text.{◌+++◌}
use vibe_ocpp.Database.{Table, update_row}
use vibe_ocpp.Testsuite.Rows.{
  StepDefinition, RunParams, Run, RunStatus, completed, aborted, StepStatus, pending, fail, Step,
}
use vibe_ocpp.Testsuite.Catalog.{planned_steps}
use vibe_ocpp.Testsuite.World.{Tables, World, Services}
use vibe_ocpp.Testsuite.Executor.{conclude, execute}

pub record StartRunInput : Type 0 where
  pub tenant_id : String
  pub ocpp_connection_name : String
  pub manufacturer : Option String
  pub model : Option String
  pub firmware_version : Option String
  pub ocpp_version : String
  pub started_by_id : String
  pub params : Option RunParams
  pub max_timeout_ms : Option ℕ

new_run : StartRunInput → String → ℕ → Run
new_run input fresh now = record {
  id = fresh;
  tenant_id = input.tenant_id;
  ocpp_connection_name = input.ocpp_connection_name;
  manufacturer = input.manufacturer;
  model = input.model;
  firmware_version = input.firmware_version;
  ocpp_version = input.ocpp_version;
  status = RunStatus.running;
  started_by_id = some input.started_by_id;
  started_at = now;
  finished_at = none;
}

new_step : String → String → ℕ → StepDefinition → Step
new_step fresh run_id index def = record {
  id = fresh;
  run_id = run_id;
  sequence_index = index;
  action = def.action;
  kind = def.kind;
  status = pending;
  request_payload = none;
  response_payload = none;
  error_message = none;
  started_at = none;
  finished_at = none;
  duration_ms = none;
}

-- The steps from an index on; `fresh` gives the id of each.
new_steps : (ℕ → String) → String → ℕ → List StepDefinition → List Step
unfolding new_step
new_steps fresh run_id index [] = []
new_steps fresh run_id index (def ∷ defs) =
    new_step (fresh index) run_id index def ∷ new_steps fresh run_id (suc index) defs

abbrev by_sequence : Step → Step → Bool
by_sequence r s = leb r.sequence_index s.sequence_index

abbrev newest_first : Run → Run → Bool
newest_first r s = leb s.started_at r.started_at

pub record RunWithSteps : Type 0 where
  pub run : Run
  pub steps : List Step

unfoldable pub or_null : Option String → String
or_null none = "null"
or_null (some s) = s

-- The key of `compatibilityMatrix`.
unfoldable pub matrix_key : Run → String
unfolding or_null
matrix_key r =
    or_null r.manufacturer
    +++ "::"
    +++ or_null r.model
    +++ "::"
    +++ or_null r.firmware_version
    +++ "::"
    +++ r.ocpp_version

-- The first run of each key, where the keys of `seen` are taken.
unfoldable pub latest_by_key : List String → List Run → List Run
latest_by_key seen [] = []
latest_by_key seen (r ∷ rs) =
    let skipping = latest_by_key seen rs in
    let keeping = latest_by_key (matrix_key r ∷ seen) rs in
    if any (λ k. k == matrix_key r) seen then skipping else r ∷ keeping

module _ (T : Tables) (S : Services T) where
  open T use {Runs, Steps}

  abbrev Act : Type 0 → Type 0
  Act A = Action (World T) A

  create_steps : List Step → Act (Unit {0})
  create_steps [] = pure tt
  create_steps (s ∷ ss) = do
    modify (λ w. record w { steps = Steps.create s w.steps })
    create_steps ss

  steps_of : String → World T → List Step
  unfolding order_by
  steps_of run_id w = order_by by_sequence (Steps.list (λ s. s.run_id == run_id) w.steps)

  with_steps : World T → Run → RunWithSteps
  unfolding steps_of
  with_steps w r = record { run = r; steps = steps_of r.id w }

  unfoldable pub start_run : StartRunInput → String → (ℕ → String) → Act RunWithSteps
  unfolding new_run new_steps create_steps with_steps
  start_run input fresh step_ids = do
    now ← asks (λ w. w.clock)
    modify (λ w. record w { runs = Runs.create (new_run input fresh now) w.runs })
    create_steps
        (new_steps step_ids fresh 0 (planned_steps input.ocpp_version input.max_timeout_ms))
    asks (λ w. with_steps w (new_run input fresh now))

  -- A step without a definition fails when the executor reads its kind.
  execute_steps : Run → RunParams → List Step → List StepDefinition → Act (Unit {0})
  execute_steps run params [] defs = pure tt
  execute_steps run params (s ∷ ss) [] = do
    now ← asks (λ w. w.clock)
    conclude T S s.id fail "Unexpected error: Cannot read properties of undefined (reading 'kind')"
        (some now)
    execute_steps run params ss []
  execute_steps run params (s ∷ ss) (d ∷ ds) = do
    execute T S run s d params
    execute_steps run params ss ds

  on_runs : {A : Type 0} → Action Runs.Store A → Act A
  on_runs m w = ((m w.runs).0, record w { runs = (m w.runs).1 })

  end_run : String → RunStatus → Act (Unit {0})
  unfolding on_runs update_row
  end_run run_id status = do
    now ← asks (λ w. w.clock)
    on_runs (update_row Runs run_id (λ r. record r { status = status; finished_at = some now }))
    pure tt

  the_run : Option Run → Act Run
  the_run none = throw (failure "No record was found for a query.")
  the_run (some run) = pure run

  unfoldable pub execute_run : String → List StepDefinition → RunParams → Act (Unit {0})
  unfolding execute_steps end_run the_run steps_of
  execute_run run_id definitions params =
      catch
        (do
          found ← asks (λ w. Runs.get run_id w.runs)
          run ← the_run found
          db_steps ← asks (steps_of run_id)
          execute_steps run params db_steps definitions
          end_run run_id completed)
        (λ e. end_run run_id aborted)

  unfoldable pub get_run : String → String → Act (Option RunWithSteps)
  unfolding with_steps
  get_run tenant_id run_id w = (
    ok (
        Option.map (with_steps w)
          (Runs.find (λ r. r.id == run_id && r.tenant_id == tenant_id) w.runs)),
    w,
  )

  of_connection : Option String → Run → Bool
  of_connection none r = true
  of_connection (some name) r = if truthy name then r.ocpp_connection_name == name else true

  unfoldable pub list_runs : String → Option String → Act (List Run)
  unfolding of_connection order_by
  list_runs tenant_id name w = (
    ok (
        take 100 (
          order_by newest_first
            (Runs.list (λ r. r.tenant_id == tenant_id && of_connection name r) w.runs))),
    w,
  )

  unfoldable pub add_steps : World T → List Run → List RunWithSteps
  unfolding with_steps
  add_steps w [] = []
  add_steps w (r ∷ rs) = with_steps w r ∷ add_steps w rs

  -- The runs that the matrix is made of, newest first.
  unfoldable pub known_runs : String → World T → List Run
  unfolding order_by
  known_runs tenant_id w = order_by newest_first (
      Runs.list (λ r. r.tenant_id == tenant_id && is_some r.manufacturer && is_some r.model) w.runs)

  unfoldable pub compatibility_matrix : String → Act (List RunWithSteps)
  unfolding latest_by_key known_runs add_steps
  compatibility_matrix tenant_id w =
      (ok (add_steps w (latest_by_key [] (known_runs tenant_id w))), w)
