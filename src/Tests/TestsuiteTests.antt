-- ===== src/Tests/TestsuiteTests.antt =====
-- The test suite on runnable tables, with a station that answers while the executor waits.
use vibe_ocpp.Prelude.{
  String_discrete, ℕ, ◌+◌, ◌≤◌, ◌≡◌, refl, true, Option, none, some, [], ◌∷◌, arith, ok, inl,
  Result, Pairwise, leb, if◌then◌else◌, Bool-cases, inr,
}
use vibe_ocpp.Prelude.Json.{null}
use vibe_ocpp.Prelude.Text.{starts_with}
use vibe_ocpp.Database.Shelf
use vibe_ocpp.Database.Shelf.{shelf, Shelf}
use vibe_ocpp.Database.Shelf.Laws.{shelf-TableLaws}
use vibe_ocpp.Testsuite.Rows.{
  command, StepDefinition, RunParams, Run, RunStatus, StepStatus, pending, running, timeout, Step,
}
use vibe_ocpp.Testsuite.Catalog.{
  Adapts, expected_actions, testsuite_step_catalog, planned_steps, planned_steps_lem,
}
use vibe_ocpp.Testsuite.PollUntil.{Ends, poll_until, poll_until_lem}
use vibe_ocpp.Testsuite.World.{Tables, World, Services, ServicesLaws, Follows}
use vibe_ocpp.Testsuite.World.Following.{Follows-refl, update-Follows}
use vibe_ocpp.Testsuite.Callback.{authorised, receive_callback, done}
use vibe_ocpp.Testsuite.Callback.Verdicts.{Written}
use vibe_ocpp.Testsuite.Callback.Outcomes.{receive_callback-Follows, receive_callback_replaces}
use vibe_ocpp.Testsuite.Executor.{execute}
use vibe_ocpp.Testsuite.Executor.Settles.{IsSettled, execute_settles}
use vibe_ocpp.Prelude.{map, List, String}
use mathlib.Core.List.{Memᴰ}
use vibe_ocpp.Prelude.{◌==◌}
use vibe_ocpp.Testsuite.Runs.{RunWithSteps, compatibility_matrix}
use vibe_ocpp.Testsuite.Runs.Matrix.{IsOnePerKey, combination, Stored, compatibility_matrix_lem}

abbrev tables : Tables
tables = record { Runs = shelf (λ r. r.id); Steps = shelf (λ r. r.id) }

abbrev run : Run
run = record {
  id = "run";
  tenant_id = "t";
  ocpp_connection_name = "CP1";
  manufacturer = none;
  model = none;
  firmware_version = none;
  ocpp_version = "2.0.1";
  status = RunStatus.running;
  started_by_id = none;
  started_at = 0;
  finished_at = none;
}

abbrev step : StepStatus → Step
step status = record {
  id = "step";
  run_id = "run";
  sequence_index = 0;
  action = "Reset";
  kind = command;
  status = status;
  request_payload = none;
  response_payload = none;
  error_message = none;
  started_at = none;
  finished_at = none;
  duration_ms = none;
}

abbrev world : StepStatus → World tables
world status = record {
  runs = record { keys = "run" ∷ []; row = λ k. some run };
  steps = record { keys = "step" ∷ []; row = λ k. some (step status) };
  clock = 5;
}

-- Nothing comes back: the step has to time out.
abbrev silent : Services tables
silent = record {
  trigger_message = λ t ids m w. (ok (true ∷ []), w);
  send = λ t ids c body url w. (ok (true ∷ []), w);
  get_webhook_base_url = λ t w. (ok "https://ocpp.example", w);
  get_webhook_secret = λ t w. (ok (some "whsec"), w);
  find_first_after = λ t c a o since w. (ok none, w);
  sleep = λ n w. record w { clock = w.clock + n };
  encode_uri_component = λ s. s;
}

silent-ServicesLaws : ServicesLaws tables silent
silent-ServicesLaws = record {
  trigger_message_follows = λ t ids m w. Follows-refl tables w;
  send_follows = λ t ids c body url w. Follows-refl tables w;
  get_webhook_base_url_follows = λ t w. Follows-refl tables w;
  get_webhook_secret_follows = λ t w. Follows-refl tables w;
  find_first_after_follows = λ t c a o since w. Follows-refl tables w;
  sleep_follows = λ n w. record { later = omega arith; kept = λ k s g. (s, g, inl refl) };
  sleep_time = λ n w. omega arith;
}

abbrev reset : StepDefinition
reset = record {
  action = "Reset";
  kind = command;
  requested_message = none;
  timeout_ms = 3;
  note = none;
}

abbrev no_params : RunParams
no_params = record {
  id_token = none;
  remote_start_id = none;
  evse_id = none;
  transaction_id = none;
  reset_type = none;
  component_name = none;
  variable_name = none;
  vendor_id = none;
}

execute_settles_example :
    (w' : World tables) × (execute tables silent run (step pending) reset no_params (world pending)
      ≡ (ok tt, w'))
    × IsSettled tables (shelf-TableLaws (λ r. r.id)) silent silent-ServicesLaws (step pending) w'
unfolding Shelf.get String_discrete
execute_settles_example =
    execute_settles tables (shelf-TableLaws (λ r. r.id)) silent silent-ServicesLaws (step pending)
      run reset no_params (world pending) (step pending, refl)

-- A counter that is asked until it is at least 4.
abbrev count : ℕ → Result (Option ℕ) × ℕ
count n = (ok (if leb 4 n then some n else none), n)

count-Ends :
    (n : ℕ)
    → Ends (λ m. m) (λ k m. m + k) count (λ m. Unit {0}) (λ a m. 4 ≤ m) (λ m. Unit {0}) (count n)
count-Ends n = elim (Bool-cases (leb 4 n)) [ inl e ↦ rw e (ground (arith, e)) | inr e ↦ rw e tt ]

poll_until_lem_example :
    Ends
      (λ m. m)
      (λ k m. m + k)
      count
      (λ m. Unit {0} × (1 + 10 ≤ m))
      (λ a m. 4 ≤ m)
      (λ m. Unit {0})
      (poll_until (λ m. m) (λ k m. m + k) count 10 2 1)
poll_until_lem_example =
    poll_until_lem (λ m. m) (λ k m. m + k) count (λ m. Unit {0}) (λ a m. 4 ≤ m) (λ m. Unit {0}) 2
      (omega arith) (λ n p. count-Ends n) (λ k n p. tt) (λ n. omega arith) (λ k n. omega arith) 10 1
      tt

planned_steps_lem_example :
    (map (λ d. d.action) (planned_steps "1.6J" (some 500))
      ≡ expected_actions (starts_with "1.6J" "1.6"))
    × Pairwise
        (Adapts (starts_with "1.6J" "1.6") (some 500))
        testsuite_step_catalog
        (planned_steps "1.6J" (some 500))
planned_steps_lem_example = planned_steps_lem "1.6J" (some 500)

receive_callback-Follows_example :
    Follows tables
      (world running)
      ((receive_callback tables silent "step" (some "whsec") null (world running)).1)
receive_callback-Follows_example =
    receive_callback-Follows tables (shelf-TableLaws (λ r. r.id)) silent silent-ServicesLaws "step"
      (some "whsec") null (world running)

-- The step times out while the secret is looked up.
abbrev timed_out : Step → Step
timed_out r = record r { status = timeout }

abbrev racing : Services tables
racing = record silent {
  get_webhook_secret = λ t w.
      (ok (some "whsec"), record w { steps = Shelf.update (λ r. r.id) "step" timed_out w.steps });
}

racing-ServicesLaws : ServicesLaws tables racing
racing-ServicesLaws = record {
  trigger_message_follows = λ t ids m w. Follows-refl tables w;
  send_follows = λ t ids c body url w. Follows-refl tables w;
  get_webhook_base_url_follows = λ t w. Follows-refl tables w;
  get_webhook_secret_follows = λ t w.
      update-Follows tables (shelf-TableLaws (λ r. r.id)) "step" timed_out w (λ r. refl)
        (λ r. refl);
  find_first_after_follows = λ t c a o since w. Follows-refl tables w;
  sleep_follows = λ n w. record { later = omega arith; kept = λ k s g. (s, g, inl refl) };
  sleep_time = λ n w. omega arith;
}

abbrev raced : World tables
raced = record (world running) {
  steps = Shelf.update (λ r. r.id) "step" timed_out (world running).steps;
}

receive_callback_replaces_example :
    (w2 : World tables) × (receive_callback tables racing "step" (some "whsec") null (world running)
      ≡ (ok done, w2))
    × ((q : Step) × (tables.Steps.get "step" w2.steps ≡ some q)
        × Written null 5 (step running) (step timeout) q)
unfolding Shelf.get Shelf.update authorised String_discrete
receive_callback_replaces_example =
    receive_callback_replaces tables (shelf-TableLaws (λ r. r.id)) racing racing-ServicesLaws "step"
      (some "whsec") null (world running) (step running) run (some "whsec") raced refl refl refl
      (step timeout) refl refl refl

-- Two runs of one combination, the newer one stored second.
abbrev tried : String → ℕ → Run
tried id at = record run {
  id = id;
  manufacturer = some "Wallbox";
  model = some "Pulsar";
  started_at = at;
}

abbrev tried_twice : World tables
tried_twice = record (world running) {
  runs = record {
    keys = "old" ∷ "new" ∷ [];
    row = λ k. if k == "old" then some (tried "old" 3) else some (tried "new" 7);
  };
}

compatibility_matrix_lem_example :
    (rows : List RunWithSteps) × (compatibility_matrix tables silent "t" tried_twice
      ≡ (ok rows, tried_twice))
    × IsOnePerKey combination (map (λ x. x.run) rows)
    × ((q : Run) × Memᴰ q (map (λ x. x.run) rows)
        × (combination q ≡ combination (tried "old" 3))
        × (3 ≤ q.started_at)
        × Stored tables silent "t" tried_twice q)
unfolding Shelf.get String_discrete
compatibility_matrix_lem_example =
    compatibility_matrix_lem tables silent (shelf-TableLaws (λ r. r.id)) "t" tried_twice "old"
      (tried "old" 3) refl refl refl refl
