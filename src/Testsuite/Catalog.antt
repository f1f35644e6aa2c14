-- ===== src/Testsuite/Catalog.antt =====
-- backend/src/testsuite/testsuite-step-catalog.ts, and the step list that `startRun` of
-- backend/src/testsuite/testsuite-run.service.ts makes of it.
use vibe_ocpp.Prelude.{
  ℕ, ◌*◌, ◌≤◌, min, get_or, Pairwise, map-Pairwise, String, String_discrete, ◌≡◌, refl, Bool, true,
  false, ◌&&◌, Option, none, some, List, [], ◌∷◌, map, arith, ◌==◌, if◌then◌else◌, Bool-cases, inl,
  inr,
}
use vibe_ocpp.Prelude.Text.{starts_with}
use vibe_ocpp.Testsuite.Rows.{StepDefinition, trigger, command, observe}

abbrev seconds : ℕ
seconds = 1000

triggered : String → Option String → StepDefinition
triggered action note = record {
  action = action;
  kind = trigger;
  requested_message = some action;
  timeout_ms = 30 * seconds;
  note = note;
}

observed : String → String → StepDefinition
observed action note = record {
  action = action;
  kind = observe;
  requested_message = none;
  timeout_ms = 120 * seconds;
  note = some note;
}

commanded : String → String → StepDefinition
commanded action note = record {
  action = action;
  kind = command;
  requested_message = none;
  timeout_ms = 30 * seconds;
  note = some note;
}

unfoldable pub testsuite_step_catalog : List StepDefinition
unfolding triggered observed commanded
testsuite_step_catalog =
    triggered "BootNotification" none
    ∷ triggered "Heartbeat" none
    ∷ triggered "StatusNotification" none
    ∷ observed "Authorize"
        "Waiting for the station to send Authorize — scan an RFID tag or start authorization on the station now."
    ∷ observed "TransactionEvent"
        "Waiting for the station to start a transaction — plug in and start charging now. (OCPP 1.6 sends StartTransaction instead; see testsuite-run.service.ts.)"
    ∷ triggered "MeterValues" (
        some
          "Only meaningful once a transaction is active — see the preceding TransactionEvent step.")
    ∷ commanded "RemoteStart"
        "Requires idToken + remoteStartId in the run parameters; skipped if not provided."
    ∷ commanded "RemoteStop"
        "Requires a transactionId in the run parameters (e.g. from the TransactionEvent step); skipped if not provided."
    ∷ commanded "Reset"
        "Uses type \"OnIdle\" by default so it does not interrupt a running charge; override via run parameters."
    ∷ commanded "GetVariables"
        "Requires componentName + variableName in the run parameters; skipped if not provided."
    ∷ commanded "DataTransfer" "Requires a vendorId in the run parameters; skipped if not provided."
    ∷ []

with_action : Bool → StepDefinition → StepDefinition
with_action old def =
    if old && def.action == "TransactionEvent"
    then record def { action = "StartTransaction" }
    else def

shortened : Option ℕ → StepDefinition → StepDefinition
shortened none def = def
shortened (some most) def = record def { timeout_ms = min def.timeout_ms most }

-- The definition that a run uses for a catalog entry; `old` says that the version starts with 1.6.
unfoldable pub adapted : Bool → Option ℕ → StepDefinition → StepDefinition
unfolding with_action shortened
adapted old most def = shortened most (with_action old def)

-- The definitions that `startRun` stores and executes, for the version and the `maxTimeoutMs`.
unfoldable pub planned_steps : String → Option ℕ → List StepDefinition
unfolding adapted testsuite_step_catalog
planned_steps ocpp_version most =
    map (adapted (starts_with ocpp_version "1.6") most) testsuite_step_catalog

abbrev pub Adapts : Bool → Option ℕ → StepDefinition → StepDefinition → Type 0
Adapts old most def made =
    (made.timeout_ms ≡ min def.timeout_ms (get_or most def.timeout_ms))
    × (made.timeout_ms ≤ def.timeout_ms)
    × (made.kind ≡ def.kind)
    × (made.requested_message ≡ def.requested_message)
    × (made.note ≡ def.note)

-- The actions of a run's steps in their order, for a version that starts with 1.6 or does not.
abbrev pub expected_actions : Bool → List String
expected_actions old =
    "BootNotification"
    ∷ "Heartbeat"
    ∷ "StatusNotification"
    ∷ "Authorize"
    ∷ (if old then "StartTransaction" else "TransactionEvent")
    ∷ "MeterValues"
    ∷ "RemoteStart"
    ∷ "RemoteStop"
    ∷ "Reset"
    ∷ "GetVariables"
    ∷ "DataTransfer"
    ∷ []

with_action-Adapts : (old : Bool) (def : StepDefinition) → Adapts old none def (with_action old def)
unfolding with_action
with_action-Adapts old def = elim (Bool-cases (old && def.action == "TransactionEvent")) [
  | inl e ↦ rw e (omega arith, omega arith, refl, refl, refl)
  | inr e ↦ rw e (omega arith, omega arith, refl, refl, refl)
]

adapted-Adapts :
    (old : Bool) (most : Option ℕ) (def : StepDefinition)
    → Adapts old most def (adapted old most def)
unfolding adapted
adapted-Adapts old none def = with_action-Adapts old def
adapted-Adapts old (some most) def =
    let (same, _, kind, message, note) = with_action-Adapts old def in
    (omega (arith, same), omega (arith, same), kind, message, note)

planned_actions :
    (old : Bool) (most : Option ℕ)
    → map (λ d. d.action) (map (adapted old most) testsuite_step_catalog) ≡ expected_actions old
unfolding testsuite_step_catalog adapted with_action shortened triggered observed commanded
    String_discrete
planned_actions true none = refl
planned_actions true (some most) = refl
planned_actions false none = refl
planned_actions false (some most) = refl

-- A run has eleven steps in a fixed order, from BootNotification to DataTransfer; the fifth waits
-- for TransactionEvent, or for StartTransaction exactly where the version starts with 1.6. Each
-- has the kind, the message and the note of its entry in the catalog, and the timeout of that
-- entry or `maxTimeoutMs`, where it is given and is less.
pub planned_steps_lem :
    (ocpp_version : String) (most : Option ℕ)
    → (map (λ d. d.action) (planned_steps ocpp_version most)
        ≡ expected_actions (starts_with ocpp_version "1.6"))
      × Pairwise
          (Adapts (starts_with ocpp_version "1.6") most)
          testsuite_step_catalog
          (planned_steps ocpp_version most)
unfolding planned_steps
planned_steps_lem ocpp_version most = (
  planned_actions (starts_with ocpp_version "1.6") most,
  map-Pairwise (Adapts (starts_with ocpp_version "1.6") most)
      (adapted (starts_with ocpp_version "1.6") most)
      (adapted-Adapts (starts_with ocpp_version "1.6") most) testsuite_step_catalog,
)
