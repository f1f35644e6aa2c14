-- ===== src/Access/Routes.antt =====
-- The routes of the controllers under backend/src, by their decorators: which method and path they
-- answer, which roles they ask for, and under which action they are audited. `handler` is the name
-- of the method, which hands the request to its service.
use vibe_ocpp.Prelude.{String, Bool, true, false, Option, none, some, List, [], ◌∷◌, ◌++◌}
use vibe_ocpp.Users.{Role, super_admin, admin, mitarbeiter}

pub data Method : Type 0 where
  get post patch delete : Method

pub record Route : Type 0 where
  pub method : Method
  pub path : String
  -- `@Roles` of the handler itself
  pub roles : Option (List Role)
  -- `@Audited`
  pub audited : Option String
  pub handler : String

-- `guarded` is `@UseGuards(JwtAuthGuard, RolesGuard)`.
pub record Controller : Type 0 where
  pub prefix : String
  pub guarded : Bool
  pub roles : Option (List Role)
  pub routes : List Route

abbrev route : Method → String → Option (List Role) → Option String → String → Route
route method path roles audited handler = record {
  method = method;
  path = path;
  roles = roles;
  audited = audited;
  handler = handler;
}

abbrev controller : String → Bool → Option (List Role) → List Route → Controller
controller prefix guarded roles routes = record {
  prefix = prefix;
  guarded = guarded;
  roles = roles;
  routes = routes;
}

abbrev payment_operator_routes : List Route
payment_operator_routes =
    route get "health" (some (super_admin ∷ [])) none "health"
    ∷ route get "operators" none none "listOperators"
    ∷ route get "operators/:id" none none "getOperator"
    ∷ route post "operators" none (some "payment.operator.create") "createOperator"
    ∷ route patch "operators/:id" none (some "payment.operator.update") "updateOperator"
    ∷ route delete "operators/:id" none (some "payment.operator.delete") "deleteOperator"
    ∷ []

abbrev payment_location_routes : List Route
payment_location_routes =
    route get "locations" none none "listLocations"
    ∷ route get "locations/:id" none none "getLocation"
    ∷ route post "locations" none (some "payment.location.create") "createLocation"
    ∷ route patch "locations/:id" none (some "payment.location.update") "updateLocation"
    ∷ route delete "locations/:id" none (some "payment.location.delete") "deleteLocation"
    ∷ []

abbrev payment_evse_routes : List Route
payment_evse_routes =
    route get "evses" none none "listEvses"
    ∷ route get "evses/:id" none none "getEvse"
    ∷ route post "evses" none (some "payment.evse.create") "createEvse"
    ∷ route patch "evses/:id" none (some "payment.evse.update") "updateEvse"
    ∷ route delete "evses/:id" none (some "payment.evse.delete") "deleteEvse"
    ∷ []

abbrev payment_connector_routes : List Route
payment_connector_routes =
    route get "connectors" none none "listConnectors"
    ∷ route get "connectors/:id" none none "getConnector"
    ∷ route post "connectors" none (some "payment.connector.create") "createConnector"
    ∷ route patch "connectors/:id" none (some "payment.connector.update") "updateConnector"
    ∷ route delete "connectors/:id" none (some "payment.connector.delete") "deleteConnector"
    ∷ []

abbrev payment_tariff_routes : List Route
payment_tariff_routes =
    route get "tariffs" none none "listTariffs"
    ∷ route get "tariffs/:id" none none "getTariff"
    ∷ route post "tariffs" none (some "payment.tariff.create") "createTariff"
    ∷ route patch "tariffs/:id" none (some "payment.tariff.update") "updateTariff"
    ∷ route delete "tariffs/:id" none (some "payment.tariff.delete") "deleteTariff"
    ∷ []

abbrev payment_checkout_routes : List Route
payment_checkout_routes =
    route get "checkouts" none none "listCheckouts"
    ∷ route get "checkouts/:id" none none "getCheckout"
    ∷ []

abbrev pub payment_controller : Controller
payment_controller = controller "payment" true (some (super_admin ∷ admin ∷ [])) (
    payment_operator_routes ++ payment_location_routes ++ payment_evse_routes
    ++ payment_connector_routes ++ payment_tariff_routes ++ payment_checkout_routes)

abbrev pub location_controller : Controller
location_controller = controller "" true (some (super_admin ∷ admin ∷ [])) (
    route get "locations" none none "list"
    ∷ route post "locations" none (some "location.create") "create"
    ∷ route patch "locations/:id" none (some "location.update") "update"
    ∷ route delete "locations/:id" none (some "location.delete") "remove"
    ∷ route post "locations/:id/stations" none (some "station.create") "createStation"
    ∷ route post "stations/:id/connectors" none (some "connector.create") "createConnector"
    ∷ [])

abbrev pub settings_controller : Controller
settings_controller = controller "settings" true (some (super_admin ∷ [])) (
    route get "" none none "list"
    ∷ route post "rollback/:id" none (some "settings.rollback") "rollback"
    ∷ route post ":category/:key" none (some "settings.update") "upsert"
    ∷ [])

abbrev pub users_controller : Controller
users_controller = controller "users" true (some (super_admin ∷ admin ∷ [])) (
    route get "" none none "list"
    ∷ route post "" none (some "user.create") "create"
    ∷ route patch ":id/active" none (some "user.set-active") "setActive"
    ∷ [])

abbrev pub unknown_chargers_controller : Controller
unknown_chargers_controller = controller "unknown-chargers" true (some (super_admin ∷ admin ∷ [])) (
    route get "" none none "list"
    ∷ route post ":id/assign" none (some "unknown-charger.assign") "assign"
    ∷ route delete ":id" none (some "unknown-charger.dismiss") "dismiss"
    ∷ [])

abbrev pub commands_controller : Controller
commands_controller = controller "citrineos/commands" true none (
    route post "remote-start" (some (super_admin ∷ admin ∷ mitarbeiter ∷ []))
      (some "citrineos.command.remote-start") "remoteStart"
    ∷ route post "remote-stop" (some (super_admin ∷ admin ∷ mitarbeiter ∷ []))
        (some "citrineos.command.remote-stop") "remoteStop"
    ∷ route post "reset" (some (super_admin ∷ admin ∷ [])) (some "citrineos.command.reset") "reset"
    ∷ route post "trigger-message" (some (super_admin ∷ admin ∷ []))
        (some "citrineos.command.trigger-message") "triggerMessage"
    ∷ [])

abbrev pub admin_controller : Controller
admin_controller = controller "citrineos" true (some (super_admin ∷ [])) (
    route get "health" none none "health"
    ∷ route get "subscriptions" none none "listSubscriptions"
    ∷ route post "subscriptions" none (some "citrineos.subscription.create") "createSubscription"
    ∷ route delete "subscriptions/:id" none (some "citrineos.subscription.delete")
        "deleteSubscription"
    ∷ [])

abbrev pub messages_controller : Controller
messages_controller =
    controller "citrineos/messages" true (some (super_admin ∷ admin ∷ mitarbeiter ∷ []))
      (route get "" none none "list" ∷ [])

abbrev pub ops_controller : Controller
ops_controller = controller "ops" true (some (super_admin ∷ [])) (
    route get "status" none none "getAllStatus"
    ∷ route get "status/:service" none none "getStatus"
    ∷ route get "logs/:service" none none "getLogs"
    ∷ route post "restart/:service" none (some "ops.service.restart") "restart"
    ∷ [])

abbrev pub runs_controller : Controller
runs_controller = controller "testsuite" true (some (super_admin ∷ admin ∷ mitarbeiter ∷ [])) (
    route post "runs" none (some "testsuite.run.start") "startRun"
    ∷ route get "runs" none none "listRuns"
    ∷ route get "runs/:id" none none "getRun"
    ∷ route get "compatibility-matrix" none none "compatibilityMatrix"
    ∷ [])

abbrev pub auth_controller : Controller
auth_controller = controller "auth" false none (
    route post "login" none none "login"
    ∷ route post "refresh" none none "refresh"
    ∷ route post "logout" none none "logout"
    ∷ [])

abbrev pub webhook_controller : Controller
webhook_controller =
    controller "citrineos/webhooks" false none (route post "events" none none "receiveEvent" ∷ [])

abbrev pub callback_controller : Controller
callback_controller =
    controller "citrineos/webhooks/callback" false none
      (route post ":stepId" none none "receiveCallback" ∷ [])

abbrev pub app_controller : Controller
app_controller = controller "" false none (route get "health" none none "getHealth" ∷ [])

abbrev pub controllers : List Controller
controllers =
    payment_controller ∷ location_controller ∷ settings_controller ∷ users_controller
    ∷ unknown_chargers_controller ∷ commands_controller ∷ admin_controller ∷ messages_controller
    ∷ ops_controller ∷ runs_controller ∷ auth_controller ∷ webhook_controller ∷ callback_controller
    ∷ app_controller ∷ []
