-- ===== src/Citrineos/Subscription.antt =====
-- backend/src/citrineos/citrineos-subscription.service.ts.
pub mod Idempotence
use vibe_ocpp.Prelude.{
  ℕ, String, Bool, true, false, ◌&&◌, Option, none, some, List, [], ◌∷◌, Result, ok, err, failure,
  bad_request, Action, ◌>>=◌, ◌>>◌, and_then, pure, throw, truthy, present, get_or, opt_eq, nat_eq,
  not, if◌then◌else◌,
}
use vibe_ocpp.Prelude.Text.{◌+++◌}
use vibe_ocpp.Prelude.Json.{
  Json, null, bool, num, str, arr, obj, Items, nil, cons, Fields, end, field, property, as_text,
}
use vibe_ocpp.Citrineos.Config.{CitrineOsConfig, get_webhook_secret}
use vibe_ocpp.Citrineos.Api.{
  Client, World, Act, on_settings, config, list_subscriptions, create_subscription,
}

-- A value as a condition.
abbrev pub truthy_json : Option Json → Bool
truthy_json none = false
truthy_json (some null) = false
truthy_json (some (bool b)) = b
truthy_json (some (num n)) = not (nat_eq n 0)
truthy_json (some (str s)) = truthy s
truthy_json (some _) = true

abbrev pub subscribed : String → Fields → Bool
subscribed url s =
    opt_eq (as_text (property s "url")) (some url)
    && truthy_json (property s "onMessage")
    && truthy_json (property s "onConnect")
    && truthy_json (property s "onClose")

-- The fields of a value that is read as an object; reading one of `null` throws.
abbrev pub fields_of : Json → Option Fields
fields_of null = none
fields_of (obj fs) = some fs
fields_of _ = some end

-- `existing.find(…)`, as the `id` of what is found; an `id` that is missing stands as `null`.
unfoldable pub find_match : String → Items → Result (Option Json)
find_match url nil = ok none
find_match url (cons s rest) =
    let more = find_match url rest in
    elim (fields_of s) [
      | none ↦ err (failure "Cannot read properties of null (reading 'url')")
      | some fs ↦ if subscribed url fs then ok (some (get_or (property fs "id") null)) else more
    ]

-- The answer of the list, used as an array.
unfoldable pub found_in : String → Option Json → Result (Option Json)
unfolding find_match
found_in url (some (arr items)) = find_match url items
found_in url _ = err (failure "existing.find is not a function")

abbrev pub body_of : String → String → Fields
body_of connection_name url = field "ocppConnectionName" (str connection_name) (
    field "onConnect" (bool true)
      (field "onClose" (bool true) (field "onMessage" (bool true) (field "url" (str url) end))))

abbrev pub subscription : String → String → Json
subscription connection_name url = obj (body_of connection_name url)

module _ (C : Client) (encode : String → String) where
  -- `encode` is `encodeURIComponent`.
  abbrev pub webhook_url : String → String → String
  webhook_url base_url secret = base_url +++ "/citrineos/webhooks/events?secret=" +++ encode secret

  secret_or_throw : Option String → Act C String
  secret_or_throw secret =
      if present secret
      then pure (get_or secret "")
      else throw (
          bad_request (
            "settings/citrineos/webhookSecret is not configured — generate one before "
            +++ "registering subscriptions."))

  unfoldable pub get_required_secret : String → Act C String
  unfolding secret_or_throw
  get_required_secret tenant_id = do
    secret ← on_settings C (get_webhook_secret C.Settings C.History C.encryption C.number tenant_id)
    secret_or_throw secret

  base_or_throw : String → Act C (Unit {0})
  base_or_throw base_url =
      if truthy base_url
      then pure tt
      else throw (
          bad_request (
            "settings/citrineos/webhookBaseUrl is not configured — CitrineOS needs a reachable "
            +++ "URL to call back into for subscriptions."))

  create_unless : String → String → String → Option Json → Act C (Option Json)
  create_unless tenant_id connection_name url (some id) = pure (some id)
  create_unless tenant_id connection_name url none =
      create_subscription C tenant_id (subscription connection_name url)

  -- What the subscription is registered with: the URL of the webhook and its secret.
  unfoldable pub required_url : String → Act C String
  unfolding base_or_throw get_required_secret
  required_url tenant_id = do
    cfg ← config C tenant_id
    base_or_throw cfg.webhook_base_url
    secret ← get_required_secret tenant_id
    pure (webhook_url cfg.webhook_base_url secret)

  -- From the list on.
  unfoldable pub register : String → String → String → Act C (Option Json)
  unfolding found_in create_unless
  register tenant_id connection_name url = do
    existing ← list_subscriptions C tenant_id connection_name
    match ← λ w. (found_in url existing, w)
    create_unless tenant_id connection_name url match

  unfoldable pub ensure_subscribed : String → String → Act C (Option Json)
  unfolding required_url register
  ensure_subscribed tenant_id connection_name = do
    url ← required_url tenant_id
    register tenant_id connection_name url
