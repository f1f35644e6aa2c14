-- ===== src/Ops/Agent.antt =====
-- `handleRequest` of ops-agent/src/main.ts. Reading a URL and UTF-8 are parameters; `sendJson` is the
-- response that the function returns, and the console is left out.
pub mod Permissions
use vibe_ocpp.Prelude.{
  ℕ, String, Bool, true, false, not, ◌&&◌, Option, none, some, List, [], ◌∷◌, get_elem?, select,
  get_or, present, truthy, opt_eq, ◌==◌, if◌then◌else◌,
}
use vibe_ocpp.Prelude.Text.{split_at_slash}
use vibe_ocpp.Settings.Encryption.{Bytes}
use vibe_ocpp.Ops.Whitelist.{Header, is_authorized}
use vibe_ocpp.Ops.Docker.{
  OpsError, unknown_service, container_not_found, other, error_message, Outcome, done, thrown, Call,
  Docker, Act, ◌>>=◌, ◌>>◌, pure, ServiceStatus, get_status, get_status_all, get_logs, restart,
}

pub record Request : Type 0 where
  pub method : String
  pub secret : Header
  -- `new URL(req.url ?? '/', 'http://ops-agent')`: its path, and its search parameter `tail`.
  pub pathname : String
  pub tail : Option String

pub data Body : Type 0 where
  status_list : List ServiceStatus → Body
  one_status : ServiceStatus → Body
  service_logs : String → String → Body
  restarted_service : String → Body
  failed : String → Body

pub record Response : Type 0 where
  pub status_code : ℕ
  pub body : Body

abbrev pub response : ℕ → Body → Response
response status_code body = record { status_code = status_code; body = body }

abbrev pub segments : Request → List String
segments req = select truthy (split_at_slash req.pathname)

abbrev pub has_segment : Request → ℕ → String → Bool
has_segment req i name = opt_eq (get_elem? (segments req) i) (some name)

-- `segments[2]`
abbrev pub target : Request → Option String
target req = get_elem? (segments req) 2

-- The test of a route: its method and its first two segments.
abbrev pub is_route : Request → String → String → Bool
is_route req method name = req.method == method && has_segment req 0 "ops" && has_segment req 1 name

-- What `catch` sends.
abbrev pub error_response : OpsError → Response
error_response (unknown_service name) = response 400 (failed (error_message (unknown_service name)))
error_response (container_not_found service) =
    response 404 (failed (error_message (container_not_found service)))
error_response (other text) = response 500 (failed "internal_error")

abbrev pub caught : Outcome Response × List Call → Response × List Call
caught (done r, s) = (r, s)
caught (thrown e, s) = (error_response e, s)

module _ (D : Docker) where
  -- `tailParam ? Number(tailParam) : undefined`
  abbrev pub tail_of : Option String → Option (Option ℕ)
  tail_of none = none
  tail_of (some text) = if truthy text then some (D.number text) else none

  -- The body of the `try` for a request whose third segment is there, or not.
  routed : Request → Option String → Act Response
  routed req none =
      if is_route req "GET" "status"
      then (do list ← get_status_all D; pure (response 200 (status_list list)))
      else pure (response 404 (failed "not_found"))
  routed req (some service) =
      if is_route req "GET" "status"
      then (do status ← get_status D service; pure (response 200 (one_status status)))
      else if is_route req "GET" "logs"
      then (do
        logs ← get_logs D service (tail_of req.tail)
        pure (response 200 (service_logs service logs)))
      else if is_route req "POST" "restart"
      then (do restart D service; pure (response 200 (restarted_service service)))
      else pure (response 404 (failed "not_found"))

  unfoldable pub handle_request :
      (String → Bytes) → String → Request → List Call → Response × List Call
  unfolding routed
  handle_request utf8 shared_secret req s =
      if is_authorized utf8 req.secret shared_secret
      then caught (routed req (target req) s)
      else (response 401 (failed "unauthorized"), s)
