-- ===== src/Citrineos/Config.antt =====
-- backend/src/citrineos/citrineos-config.service.ts, on the settings store of Settings.
use vibe_ocpp.Prelude.{
  String, ◌&&◌, Option, none, some, List, [], ◌∷◌, Result, ok, err, internal, Action, ◌>>=◌, get_or,
  present, ◌==◌, if◌then◌else◌, is_some,
}
use vibe_ocpp.Prelude.Text.{◌+++◌, without_trailing_slashes}
use vibe_ocpp.Database.{Table}
use vibe_ocpp.Settings.Encryption.{EncryptionService}
use vibe_ocpp.Settings.Rows.{Setting, SettingHistory, SettingView}
use vibe_ocpp.Settings.Service.{World, list, get_plaintext}

-- `citrineos_tenant_id` is the number as a query writes it.
pub record CitrineOsConfig : Type 0 where
  pub data_api_url : String
  pub message_api_url : String
  pub citrineos_tenant_id : String
  pub ocpp_version : String
  pub webhook_base_url : String

-- `new Map(settings.map((s) => [s.key, s]))` at a key: the last setting of the key.
abbrev pub value_at : List SettingView → String → Option String
value_at [] key = none
value_at (s ∷ rest) key =
    let later = value_at rest key in
    if is_some later then later else if s.key == key then some s.value else none

module _ (Settings : Table Setting (λ s. s.id)) (History : Table SettingHistory (λ h. h.id))
    (e : EncryptionService) (number : String → String) where
  -- `number` is `String(Number(s))`.
  config_of : List SettingView → CitrineOsConfig
  config_of views = record {
    data_api_url = without_trailing_slashes (get_or (value_at views "dataApiUrl") "");
    message_api_url = without_trailing_slashes (get_or (value_at views "messageApiUrl") "");
    citrineos_tenant_id = number (get_or (value_at views "citrineosTenantId") "1");
    ocpp_version = get_or (value_at views "ocppVersion") "2";
    webhook_base_url = without_trailing_slashes (get_or (value_at views "webhookBaseUrl") "");
  }

  configured : List SettingView → Result CitrineOsConfig
  unfolding config_of
  configured views =
      if present (value_at views "dataApiUrl") && present (value_at views "messageApiUrl")
      then ok (config_of views)
      else err (
          internal (
            "CitrineOS connection is not configured yet — set settings/citrineos/dataApiUrl "
            +++ "and settings/citrineos/messageApiUrl first (SuperAdmin > CitrineOS-Verbindung)."))

  unfoldable pub get_config : String → Action (World Settings History) CitrineOsConfig
  unfolding configured
  get_config tenant_id = do
    views ← list Settings History e tenant_id (some "citrineos")
    λ w. (configured views, w)

  unfoldable pub get_webhook_secret : String → Action (World Settings History) (Option String)
  get_webhook_secret tenant_id =
      get_plaintext Settings History e tenant_id "citrineos" "webhookSecret"
