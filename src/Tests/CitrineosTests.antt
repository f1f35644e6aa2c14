-- ===== src/Tests/CitrineosTests.antt =====
-- Calls of CitrineOS that fail once, an event, an export and a subscription.
use vibe_ocpp.Prelude.{String_discrete, String, ◌≡◌, true, ◌⊎◌, none, some, [], ◌∷◌, map, arith}
use vibe_ocpp.Prelude.Text.{◌+++◌}
use vibe_ocpp.Prelude.Json.{Json, Fields, str, arr, obj, nil, cons, end, field, num, bool}
use vibe_ocpp.Database.Shelf
use vibe_ocpp.Database.Shelf.{shelf, empty}
use vibe_ocpp.Settings.Encryption.{EncryptionService}
use vibe_ocpp.Settings.Encryption.Plain.{plain}
use vibe_ocpp.Settings.Rows.{Setting, string}
use vibe_ocpp.Settings.Service
use vibe_ocpp.Tests.ProvisioningTests.{tables, empty_world}
use vibe_ocpp.Citrineos.Http.{
  Web, RequestOptions, get, network_failure, responded, thrown, other, HttpResponse, build_url,
  sent, request,
}
use vibe_ocpp.Citrineos.Http.Retry.{cut_off, sends, request_lem}
use vibe_ocpp.Citrineos.Log.{IncomingEvent, MessageLog, message}
use vibe_ocpp.Citrineos.Webhook.{Services, World, receive_event}
use vibe_ocpp.Citrineos.Webhook.Events.{Received, receive_event-Received}
use vibe_ocpp.Citrineos.Api
use vibe_ocpp.Citrineos.Api.{Client, list_subscriptions}
use vibe_ocpp.Citrineos.Csv.{to_csv, header, fields}
use vibe_ocpp.Citrineos.Csv.Reading.{read_lines, to_csv-read_lines}

abbrev answer : HttpResponse
answer = record { is_ok = true; status = 200; status_text = "OK"; text = some "[]" }

-- The first request fails, and every later one is answered.
abbrev web : Web
web = record {
  fetch = λ s r. elim s [ [] ↦ network_failure "fetch failed" | _ ↦ responded answer ];
  url = λ base path pairs. some (base +++ path);
  stringify = λ j. "{}";
  parse = λ text. some (arr nil);
  show = λ n. "200";
}

abbrev options : RequestOptions
options = record { method = get; path = "/data/x"; query = []; body = none }

request_lem_example :
    ((build_url web "http://c" "/data/x" [] ≡ none)
      × (request web "http://c" options [] ≡ (thrown (other "Invalid URL"), [])))
    ⊎ ((url : String) × (build_url web "http://c" "/data/x" [] ≡ some url)
        × (request web "http://c" options []
            ≡ sends web url
                (sent web url options)
                []
                (cut_off (web.fetch [] (sent web url options)))))
unfolding build_url String_discrete
request_lem_example = request_lem web "http://c" options []

abbrev encryption : EncryptionService
encryption = record { crypto = plain; key = [] }

abbrev services : Services
services = record {
  Tenants = shelf (λ t. t.id);
  Settings = shelf (λ s. s.id);
  History = shelf (λ h. h.id);
  Log = shelf (λ m. m.id);
  provisioning = tables;
  encryption = encryption;
  number = λ s. s;
}

abbrev secret_setting : Setting
secret_setting = record {
  id = "s";
  tenant_id = "t";
  category = "citrineos";
  key = "webhookSecret";
  type = string;
  value = some "hook";
  encrypted_value = none;
  encryption_iv = none;
  encryption_tag = none;
  version = 1;
  updated_by = none;
  updated_at = 1;
}

abbrev world : World services
world = record {
  tenants = services.Tenants.create (record { id = "t"; slug = "default"; name = "T" }) empty;
  settings = record { settings = services.Settings.create secret_setting empty; history = empty };
  log = empty;
  stations = empty_world;
}

abbrev boot : IncomingEvent
boot = record {
  ocpp_connection_name = "CP1";
  event = message;
  origin = some "ChargingStation";
  message = none;
  info = some (field "action" (str "BootNotification") end);
}

receive_event-Received_example :
    Received services
      (some "hook")
      boot
      "m"
      "u"
      10
      world
      (receive_event services (some "hook") boot "m" "u" 10 world)
receive_event-Received_example = receive_event-Received services (some "hook") boot "m" "u" 10 world

abbrev entry : MessageLog
entry = record {
  id = "m";
  tenant_id = "t";
  ocpp_connection_name = "CP,1";
  event = message;
  origin = none;
  raw_message = some "say \"hi\"\n";
  info = none;
  received_at = 10;
}

to_csv-read_lines_example :
    (body : String) × (to_csv (λ t. "now") (entry ∷ []) ≡ header +++ body)
    × (read_lines 6 1 body ≡ some (map (fields (λ t. "now")) (entry ∷ [])))
to_csv-read_lines_example = to_csv-read_lines (λ t. "now") 6 (omega arith) entry [] 1 (omega arith)

-- CitrineOS lists a subscription of our URL.
abbrev our_url : String
our_url = "http://me/citrineos/webhooks/events?secret=hook"

abbrev ours : Fields
ours = field "url" (str our_url) (
    field "onMessage" (bool true)
      (field "onConnect" (bool true) (field "onClose" (bool true) (field "id" (num 7) end))))

abbrev client : Client
client = record {
  Settings = shelf (λ s. s.id);
  History = shelf (λ h. h.id);
  encryption = encryption;
  number = λ s. s;
  web = record web {
    fetch = λ s r. responded answer;
    parse = λ text. some (arr (cons (obj ours) nil));
  };
}

abbrev setting : String → String → String → Setting
setting id key value = record secret_setting { id = id; key = key; value = some value }

abbrev configured : Api.World client
configured = record {
  settings = record {
    settings = client.Settings.create (setting "1" "dataApiUrl" "http://c") (
        client.Settings.create (setting "2" "messageApiUrl" "http://c/") (
          client.Settings.create (setting "3" "webhookBaseUrl" "http://me/")
            (client.Settings.create secret_setting empty)));
    history = empty;
  };
  sent = [];
}

abbrev asked : Api.World client
asked = (list_subscriptions client "t" "CP1" configured).1
