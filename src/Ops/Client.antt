-- ===== src/Ops/Client.antt =====
-- backend/src/ops/ops.service.ts, the client of the agent. `fetch` and `encodeURIComponent` are
-- parameters; the state is whatever `fetch` works on.
use vibe_ocpp.Prelude.{
  ℕ, String, Bool, Option, none, some, List, [], ◌∷◌, internal, Action, ◌>>=◌, pure, throw, present,
  get_or, nat_eq, if◌then◌else◌,
}
use vibe_ocpp.Prelude.Text.{◌+++◌}
use vibe_ocpp.Prelude.Json.{Json, obj, property, as_text}

unfoldable pub ops_services : List String
ops_services = "product-db" ∷ "backend" ∷ "citrineos-payment" ∷ "directus" ∷ "hasura" ∷ []

pub record HttpReply : Type 0 where
  pub is_ok : Bool
  pub status : ℕ
  -- `none` where it is no JSON
  pub body : Option Json

-- The URL and the secret of the environment, and a request with its method, URL and secret.
pub record Environment (S : Type 0) : Type 0 where
  pub ops_agent_url : Option String
  pub shared_secret : Option String
  pub fetch : String → String → String → Action S HttpReply
  pub encode : String → String
  -- `String(n)`
  pub show : ℕ → String

abbrev pub error_of : Option Json → Option String
error_of (some (obj fields)) = as_text (property fields "error")
error_of _ = none

module _ {S : Type 0} (E : Environment S) where
  abbrev pub base_url : String
  base_url = get_or E.ops_agent_url "http://ops-agent:3100"

  secret_or_throw : Action S String
  secret_or_throw =
      if present E.shared_secret
      then pure (get_or E.shared_secret "")
      else throw (internal "OPS_AGENT_SHARED_SECRET is not configured")

  reason : Option String → String
  reason error = if present error then ": " +++ get_or error "" else ""

  checked : String → String → HttpReply → Action S (Option Json)
  unfolding reason
  checked method path reply =
      if reply.is_ok
      then pure reply.body
      else throw (
          internal (
            "ops-agent responded "
            +++ E.show reply.status
            +++ " for "
            +++ method
            +++ " "
            +++ path
            +++ reason (error_of reply.body)))

  unfoldable pub call : String → String → Action S (Option Json)
  unfolding secret_or_throw checked
  call method path = do
    secret ← secret_or_throw
    reply ← E.fetch method (base_url +++ path) secret
    checked method path reply

  unfoldable pub get_all_status : Action S (Option Json)
  unfolding call
  get_all_status = call "GET" "/ops/status"

  unfoldable pub get_status : String → Action S (Option Json)
  unfolding call
  get_status service = call "GET" ("/ops/status/" +++ E.encode service)

  -- `tail ? … : ''`, where 0 is no tail either.
  abbrev pub tail_query : Option ℕ → String
  tail_query none = ""
  tail_query (some n) = if nat_eq n 0 then "" else "?tail=" +++ E.encode (E.show n)

  unfoldable pub get_logs : String → Option ℕ → Action S (Option Json)
  unfolding call
  get_logs service tail = call "GET" ("/ops/logs/" +++ E.encode service +++ tail_query tail)

  unfoldable pub restart : String → Action S (Option Json)
  unfolding call
  restart service = call "POST" ("/ops/restart/" +++ E.encode service)
