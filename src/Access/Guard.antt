-- ===== src/Access/Guard.antt =====
-- backend/src/common/guards/roles.guard.ts and backend/src/audit, in the order in which a request
-- passes them: the token, the role, then the handler with the interceptor round it.
use vibe_ocpp.Prelude.{
  String, Bool, true, false, Option, none, some, List, [], ◌∷◌, any, Result, ok, err, unauthorized,
  forbidden, Action, ◌==◌,
}
use vibe_ocpp.Prelude.Text.{◌+++◌}
use vibe_ocpp.Prelude.Json.{Json}
use vibe_ocpp.Database.{Table}
use vibe_ocpp.Users.{Role, role_name}
use vibe_ocpp.Auth.Types.{AuthenticatedUser}
use vibe_ocpp.Access.Routes.{Route, Controller}

-- `Reflector.getAllAndOverride`: the handler's metadata, or else the class's.
abbrev pub override : {A : Type 0} → Option A → Option A → Option A
override (some a) class_value = some a
override none class_value = class_value

abbrev pub required_roles : Controller → Route → Option (List Role)
required_roles c r = override r.roles c.roles

abbrev pub names_role : List Role → String → Bool
names_role roles role = any (λ r. role_name r == role) roles

join_roles : List Role → String
join_roles [] = ""
join_roles (r ∷ []) = role_name r
join_roles (r ∷ q ∷ rest) = role_name r +++ ", " +++ join_roles (q ∷ rest)

includes_or_throw : Bool → List Role → Result Bool
unfolding join_roles
includes_or_throw true roles = ok true
includes_or_throw false roles = err (forbidden ("Requires one of roles: " +++ join_roles roles))

user_may : List Role → Option AuthenticatedUser → Result Bool
unfolding includes_or_throw
user_may roles none = ok false
user_may roles (some u) = includes_or_throw (names_role roles u.role) roles

unfoldable pub can_activate : Option (List Role) → Option AuthenticatedUser → Result Bool
unfolding user_may
can_activate none user = ok true
can_activate (some []) user = ok true
can_activate (some (r ∷ rest)) user = user_may (r ∷ rest) user

pub record AuditLog : Type 0 where
  pub id : String
  pub tenant_id : String
  pub actor_id : Option String
  pub action : String
  pub target_id : Option String
  pub new_value : Json

-- What of a request the interceptor reads.
pub record Request : Type 0 where
  pub user : Option AuthenticatedUser
  pub params_id : Option String

abbrev pub audit_entry : AuthenticatedUser → String → Option String → Json → String → AuditLog
audit_entry u action target response fresh = record {
  id = fresh;
  tenant_id = u.tenant_id;
  actor_id = some u.id;
  action = action;
  target_id = target;
  new_value = response;
}

module _ (Audit : Table AuditLog (λ a. a.id)) (S : Type 0) where
  -- The audit log beside what the handlers work on.
  pub record World : Type 0 where
    pub audit : Audit.Store
    pub rest : S

  abbrev pub lifted : Action S Json → Action World Json
  lifted handler w = ((handler w.rest).0, record w { rest = (handler w.rest).1 })

  -- The `tap`, which runs only on a response.
  recorded :
      Option AuthenticatedUser
      → String
      → Option String
      → String
      → Result Json × World
      → Result Json × World
  recorded none action target fresh o = o
  recorded (some u) action target fresh (err e, w) = (err e, w)
  recorded (some u) action target fresh (ok response, w) = (
    ok response,
    record w { audit = Audit.create (audit_entry u action target response fresh) w.audit },
  )

  unfoldable pub intercept : Option String → Request → String → Action S Json → Action World Json
  unfolding recorded
  intercept none req fresh handler w = lifted handler w
  intercept (some action) req fresh handler w =
      recorded req.user action req.params_id fresh (lifted handler w)

  -- What the framework makes of the guard's answer: `false` is a ForbiddenException too.
  guarded_by : Result Bool → Action World Json → Action World Json
  guarded_by (ok true) rest w = rest w
  guarded_by (ok false) rest w = (err (forbidden "Forbidden resource"), w)
  guarded_by (err e) rest w = (err e, w)

  authenticated_by :
      Bool → Option AuthenticatedUser → Option (List Role) → Action World Json → Action World Json
  unfolding guarded_by
  authenticated_by false user roles rest w = rest w
  authenticated_by true none roles rest w = (err (unauthorized "Unauthorized"), w)
  authenticated_by true (some u) roles rest w = guarded_by (can_activate roles (some u)) rest w

  -- One request to a route; `fresh` is the id that an audit entry gets.
  unfoldable pub serve : Controller → Route → Request → String → Action S Json → Action World Json
  unfolding authenticated_by
  serve c r req fresh handler =
      authenticated_by c.guarded req.user (required_roles c r)
        (intercept r.audited req fresh handler)
