-- ===== src/Testsuite/Commands.antt =====
-- `buildCommandRequest` of backend/src/testsuite/testsuite-step-executor.service.ts: the request of
-- a command step, or none where the run's parameters do not give what it needs.
use vibe_ocpp.Prelude.{ℕ, String, Option, none, some, get_or, truthy, ◌==◌, if◌then◌else◌}
use mathlib.Core.Option
use vibe_ocpp.Prelude.Json.{Json, Fields, str, num, arr, obj, end, field, nil, cons}
use vibe_ocpp.Testsuite.Rows.{
  ResetType, immediate, on_idle, immediate_and_resume, IdToken, RunParams,
}
use vibe_ocpp.Testsuite.World.{
  Command, request_start_transaction, request_stop_transaction, reset, get_variables, data_transfer,
}

unfoldable pub optional : String → Option Json → Fields → Fields
optional key none rest = rest
optional key (some v) rest = field key v rest

reset_name : ResetType → String
reset_name immediate = "Immediate"
reset_name on_idle = "OnIdle"
reset_name immediate_and_resume = "ImmediateAndResume"

token : IdToken → Json
token t = obj (field "idToken" (str t.id_token) (field "type" (str t.type) end))

remote_start : Option IdToken → Option ℕ → Option ℕ → Option (Command × Json)
unfolding token optional
remote_start (some t) (some start) evse = some (
  request_start_transaction,
  obj (
      field "idToken" (token t)
        (field "remoteStartId" (num start) (optional "evseId" (Option.map num evse) end))),
)
remote_start _ _ evse = none

-- A text that is given and not empty.
unfoldable pub given : Option String → Option String
given none = none
given (some s) = if truthy s then some s else none

remote_stop : Option String → Option (Command × Json)
remote_stop none = none
remote_stop (some id) = some (request_stop_transaction, obj (field "transactionId" (str id) end))

variables : Option String → Option String → Option (Command × Json)
variables (some component) (some variable) = some (
  get_variables,
  obj (
      field "getVariableData"
        (arr (
          cons
            (obj (
              field "component" (obj (field "name" (str component) end))
                (field "variable" (obj (field "name" (str variable) end)) end)))
            nil))
        end),
)
variables _ _ = none

transfer : Option String → Option (Command × Json)
transfer none = none
transfer (some vendor) = some (data_transfer, obj (field "vendorId" (str vendor) end))

unfoldable pub build_command_request : String → RunParams → Option (Command × Json)
unfolding remote_start remote_stop given reset_name variables transfer
build_command_request action params =
    if action == "RemoteStart"
    then remote_start params.id_token params.remote_start_id params.evse_id
    else if action == "RemoteStop"
    then remote_stop (given params.transaction_id)
    else if action == "Reset"
    then some (reset, obj (field "type" (str (reset_name (get_or params.reset_type on_idle))) end))
    else if action == "GetVariables"
    then variables (given params.component_name) (given params.variable_name)
    else if action == "DataTransfer"
    then transfer (given params.vendor_id)
    else none
