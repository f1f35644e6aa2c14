-- ===== src/Citrineos/Http.antt =====
-- backend/src/citrineos/citrineos-http-client.ts with citrineos-api.error.ts. What `fetch` comes to
-- may depend on all requests before; the state is the list of the requests sent, the latest
-- first. JSON and the joining of URLs are parameters.
pub mod Retry
use vibe_ocpp.Prelude.{
  ℕ, String, Bool, true, false, Option, none, some, List, [], ◌∷◌, ◌++◌, map, truthy, if◌then◌else◌,
  get_or,
}
use mathlib.Core.Option
use vibe_ocpp.Prelude.Text.{◌+++◌, without_leading_slashes}
use vibe_ocpp.Prelude.Json.{Json, str}

pub data Method : Type 0 where
  get put post delete : Method

-- A number or a Boolean stands here as `String(v)` writes it.
pub data QueryValue : Type 0 where
  undefined : QueryValue
  single : String → QueryValue
  several : List String → QueryValue

pub record RequestOptions : Type 0 where
  pub method : Method
  pub path : String
  pub query : List (String × QueryValue)
  pub body : Option Json

-- What reaches `fetch`: the body as JSON text.
pub record Sent : Type 0 where
  pub method : Method
  pub url : String
  pub body : Option String

-- `text` is none where the body breaks off after the response's head.
pub record HttpResponse : Type 0 where
  pub is_ok : Bool
  pub status : ℕ
  pub status_text : String
  pub text : Option String

pub data Fetched : Type 0 where
  network_failure : String → Fetched
  aborted : Fetched
  responded : HttpResponse → Fetched

pub record Web : Type 0 where
  pub fetch : List Sent → Sent → Fetched
  -- `new URL(path, base)` with the parameters appended, as text; none where it throws
  pub url : String → String → List (String × String) → Option String
  pub stringify : Json → String
  pub parse : String → Option Json
  -- `${status}`
  pub show : ℕ → String

-- `CitrineOsApiError`, and any other error.
pub data CallError : Type 0 where
  api_error : String → String → Option ℕ → Option Json → CallError
  other : String → CallError

pub data Outcome : Type 0 where
  answered : Option Json → Outcome
  thrown : CallError → Outcome

abbrev pub values : String × QueryValue → List (String × String)
values (key, undefined) = []
values (key, single v) = (key, v) ∷ []
values (key, several vs) = map (λ v. (key, v)) vs

abbrev pub pairs : List (String × QueryValue) → List (String × String)
pairs [] = []
pairs (q ∷ rest) = values q ++ pairs rest

module _ (N : Web) where
  unfoldable pub build_url : String → String → List (String × QueryValue) → Option String
  build_url base_url path query =
      N.url (base_url +++ "/") (without_leading_slashes path) (pairs query)

  try_parse_json : String → Json
  try_parse_json text = get_or (N.parse text) (str text)

  -- `text ? this.tryParseJson(text) : undefined`
  parsed : String → Option Json
  unfolding try_parse_json
  parsed text = if truthy text then some (try_parse_json text) else none

  status_message : HttpResponse → String → String
  status_message r url =
      "CitrineOS responded " +++ N.show r.status +++ " " +++ r.status_text +++ " for " +++ url

  read_text : String → HttpResponse → Option String → Outcome
  unfolding parsed status_message
  read_text url r none = thrown (other "terminated")
  read_text url r (some text) =
      if r.is_ok
      then answered (parsed text)
      else thrown (
          api_error (status_message r url) url (some r.status)
            (some (get_or (parsed text) (str text))))

  -- What an attempt makes of `fetch`.
  unfoldable pub conclude : String → Fetched → Outcome
  unfolding read_text
  conclude url (network_failure text) = thrown (other text)
  conclude url aborted = thrown (api_error ("Request to " +++ url +++ " timed out") url none none)
  conclude url (responded r) = read_text url r r.text

  abbrev pub sent : String → RequestOptions → Sent
  sent url options = record {
    method = options.method;
    url = url;
    body = Option.map N.stringify options.body;
  }

  unfoldable pub attempt : String → RequestOptions → List Sent → Outcome × List Sent
  unfolding conclude
  attempt url options s = (conclude url (N.fetch s (sent url options)), sent url options ∷ s)

  -- `catch`: an error of CitrineOS is thrown on, any other tried again.
  unfoldable pub retried : String → RequestOptions → Outcome × List Sent → Outcome × List Sent
  unfolding attempt
  retried url options (thrown (other text), s) = attempt url options s
  retried url options o = o

  request_to : Option String → RequestOptions → List Sent → Outcome × List Sent
  unfolding attempt retried
  request_to none options s = (thrown (other "Invalid URL"), s)
  request_to (some url) options s = retried url options (attempt url options s)

  unfoldable pub request : String → RequestOptions → List Sent → Outcome × List Sent
  unfolding build_url request_to
  request base_url options s = request_to (build_url base_url options.path options.query) options s
