-- ===== src/Testsuite/Rows.antt =====
-- The two tables of backend/prisma/schema.prisma that the test suite works on, and the types of
-- backend/src/testsuite/testsuite-step-catalog.ts, testsuite-run-params.ts and dto/start-run.dto.ts.
use vibe_ocpp.Prelude.{ℕ, String, Bool, true, false, Option}
use vibe_ocpp.Prelude.Json.{Json}

pub data StepKind : Type 0 where
  trigger command observe : StepKind

pub record StepDefinition : Type 0 where
  pub action : String
  pub kind : StepKind
  pub requested_message : Option String
  pub timeout_ms : ℕ
  pub note : Option String

pub data ResetType : Type 0 where
  immediate on_idle immediate_and_resume : ResetType

pub record IdToken : Type 0 where
  pub id_token : String
  pub type : String

pub record RunParams : Type 0 where
  pub id_token : Option IdToken
  pub remote_start_id : Option ℕ
  pub evse_id : Option ℕ
  pub transaction_id : Option String
  pub reset_type : Option ResetType
  pub component_name : Option String
  pub variable_name : Option String
  pub vendor_id : Option String

pub data RunStatus : Type 0 where
  running completed aborted : RunStatus

pub record Run : Type 0 where
  pub id : String
  pub tenant_id : String
  pub ocpp_connection_name : String
  pub manufacturer : Option String
  pub model : Option String
  pub firmware_version : Option String
  pub ocpp_version : String
  pub status : RunStatus
  pub started_by_id : Option String
  pub started_at : ℕ
  pub finished_at : Option ℕ

pub data StepStatus : Type 0 where
  pending running pass fail timeout skipped : StepStatus

pub record Step : Type 0 where
  pub id : String
  pub run_id : String
  pub sequence_index : ℕ
  pub action : String
  pub kind : StepKind
  pub status : StepStatus
  pub request_payload : Option Json
  pub response_payload : Option Json
  pub error_message : Option String
  pub started_at : Option ℕ
  pub finished_at : Option ℕ
  pub duration_ms : Option ℕ

abbrev pub is_running : StepStatus → Bool
is_running StepStatus.running = true
is_running _ = false

abbrev pub is_pending : StepStatus → Bool
is_pending pending = true
is_pending _ = false

-- A step that has its result.
abbrev pub settled : StepStatus → Bool
settled pending = false
settled StepStatus.running = false
settled _ = true
