-- ===== src/Citrineos/Api.antt =====
-- backend/src/citrineos/citrineos-message-api.service.ts and citrineos-data-api.service.ts. An error
-- of a call is thrown on with its message.
use vibe_ocpp.Prelude.{
  String, Option, none, some, List, [], ◌∷◌, Result, ok, err, failure, Action, ◌>>=◌, ◌>>◌, pure,
}
use vibe_ocpp.Prelude.Text.{◌+++◌}
use vibe_ocpp.Prelude.Json.{Json}
use vibe_ocpp.Database.{Table}
use vibe_ocpp.Settings.Encryption.{EncryptionService}
use vibe_ocpp.Settings.Rows.{Setting, SettingHistory}
use vibe_ocpp.Settings.Service
use vibe_ocpp.Citrineos.Http
use vibe_ocpp.Citrineos.Http.{
  Method, get, post, delete, QueryValue, undefined, single, several, RequestOptions, Sent, Web,
  CallError, api_error, other, Outcome, answered, thrown,
}
use vibe_ocpp.Citrineos.Config.{CitrineOsConfig, get_config}

-- The services that every call uses.
pub record Client : Type 1 where
  pub Settings : Table Setting (λ s. s.id)
  pub History : Table SettingHistory (λ h. h.id)
  pub encryption : EncryptionService
  pub number : String → String
  pub web : Web

module _ (C : Client) where
  -- The settings, and the requests sent to CitrineOS.
  pub record World : Type 0 where
    pub settings : Service.World C.Settings C.History
    pub sent : List Sent

  abbrev pub Act : Type 0 → Type 0
  Act A = Action World A

  abbrev pub on_settings : {A : Type 0} → Action (Service.World C.Settings C.History) A → Act A
  on_settings m w = ((m w.settings).0, record w { settings = (m w.settings).1 })

  outcome : Outcome → Result (Option Json)
  outcome (answered body) = ok body
  outcome (thrown (api_error text url status body)) = err (failure text)
  outcome (thrown (other text)) = err (failure text)

  unfoldable pub http : String → RequestOptions → Act (Option Json)
  unfolding outcome
  http base_url options w =
      let (o, sent) = Http.request C.web base_url options w.sent in
      (outcome o, record w { sent = sent })

  unfoldable pub config : String → Act CitrineOsConfig
  config tenant_id = on_settings (get_config C.Settings C.History C.encryption C.number tenant_id)

  abbrev pub optional : Option String → QueryValue
  optional none = undefined
  optional (some v) = single v

  unfoldable pub send_command :
      String → String → String → List String → Json → Option String → Act (Option Json)
  unfolding config http
  send_command tenant_id prefix action identifiers body callback_url = do
    cfg ← config tenant_id
    http cfg.message_api_url (record {
      method = post;
      path = "/ocpp/" +++ cfg.ocpp_version +++ "/" +++ prefix +++ "/" +++ action;
      query =
          ("identifier", several identifiers)
          ∷ ("tenantId", single cfg.citrineos_tenant_id)
          ∷ ("callbackUrl", optional callback_url)
          ∷ [];
      body = some body;
    })

  unfoldable pub request_start_transaction :
      String → List String → Json → Option String → Act (Option Json)
  unfolding send_command
  request_start_transaction tenant_id stations request callback_url =
      send_command tenant_id "evdriver" "requeststarttransaction" stations request callback_url

  unfoldable pub request_stop_transaction :
      String → List String → Json → Option String → Act (Option Json)
  unfolding send_command
  request_stop_transaction tenant_id stations request callback_url =
      send_command tenant_id "evdriver" "requeststoptransaction" stations request callback_url

  unfoldable pub reset : String → List String → Json → Option String → Act (Option Json)
  unfolding send_command
  reset tenant_id stations request callback_url =
      send_command tenant_id "configuration" "reset" stations request callback_url

  unfoldable pub trigger_message : String → List String → Json → Act (Option Json)
  unfolding send_command
  trigger_message tenant_id stations request =
      send_command tenant_id "configuration" "triggermessage" stations request none

  unfoldable pub get_variables : String → List String → Json → Option String → Act (Option Json)
  unfolding send_command
  get_variables tenant_id stations request callback_url =
      send_command tenant_id "monitoring" "getvariables" stations request callback_url

  unfoldable pub data_transfer : String → List String → Json → Option String → Act (Option Json)
  unfolding send_command
  data_transfer tenant_id stations request callback_url =
      send_command tenant_id "configuration" "datatransfer" stations request callback_url

  unfoldable pub data_request :
      String
      → Method
      → String
      → String
      → List (String × QueryValue)
      → Option Json
      → Act (Option Json)
  unfolding config http
  data_request tenant_id method prefix namespace query body = do
    cfg ← config tenant_id
    http cfg.data_api_url (record {
      method = method;
      path = "/data/" +++ prefix +++ "/" +++ namespace;
      query = query;
      body = body;
    })

  unfoldable pub list_subscriptions : String → String → Act (Option Json)
  unfolding config data_request
  list_subscriptions tenant_id connection_name = do
    cfg ← config tenant_id
    data_request tenant_id get "ocpprouter" "subscription"
        (("tenantId", single cfg.citrineos_tenant_id)
          ∷ ("ocppConnectionName", single connection_name)
          ∷ [])
        none

  unfoldable pub create_subscription : String → Json → Act (Option Json)
  unfolding config data_request
  create_subscription tenant_id dto = do
    cfg ← config tenant_id
    data_request tenant_id post "ocpprouter" "subscription"
        (("tenantId", single cfg.citrineos_tenant_id) ∷ []) (some dto)

  -- `id` as a query writes it.
  unfoldable pub delete_subscription : String → String → Act (Option Json)
  unfolding config data_request
  delete_subscription tenant_id id = do
    cfg ← config tenant_id
    data_request tenant_id delete "ocpprouter" "subscription"
        (("tenantId", single cfg.citrineos_tenant_id) ∷ ("id", single id) ∷ []) none

  unfoldable pub ping : String → Act (Unit {0})
  unfolding data_request
  ping tenant_id = do data_request tenant_id get "ocpprouter" "systemConfig" [] none; pure tt
