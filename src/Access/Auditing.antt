-- ===== src/Access/Auditing.antt =====
-- What a request to a guarded route of backend/src leaves in the audit log.
use vibe_ocpp.Prelude.{
  String, ◌≡◌, refl, sym, ap, Bool, true, false, not, ◌⊎◌, inl, inr, none, some, List, All, every,
  every-All, &&-true, select, Result, ok, err, Error, unauthorized, forbidden, Action, is_some,
  ◌&&◌, Option-cases,
}
use mathlib.Core.Path.{subst}
use vibe_ocpp.Prelude.Json.{Json}
use vibe_ocpp.Database.{Table}
use vibe_ocpp.Auth.Types.{AuthenticatedUser}
use vibe_ocpp.Access.Routes.{Method, get, Controller, Route, controllers}
use vibe_ocpp.Access.Guard.{
  AuditLog, Request, World, audit_entry, can_activate, required_roles, intercept, serve,
}
use vibe_ocpp.Access.Ranks.{granted}

abbrev pub is_get : Method → Bool
is_get get = true
is_get _ = false

-- The routes of a controller that are not for reading.
abbrev pub mutating : Controller → List Route
mutating c = select (λ r. not (is_get r.method)) c.routes

module _ (Audit : Table AuditLog (λ a. a.id)) (S : Type 0) (req : Request) (fresh : String)
    (handler : Action S Json) (w : World Audit S) where
  -- What `serve` leaves: a request with no user, or a user whom the guard refuses, changes nothing;
  -- the handler's error writes no entry; its response writes one, of the user and the action.
  pub data Served (c : Controller) (r : Route) : Result Json × World Audit S → Type 0 where
    refused :
        (e : Error)
        → (req.user ≡ none)
          ⊎ ((u : AuthenticatedUser) × (req.user ≡ some u)
              × (granted (can_activate (required_roles c r) (some u)) ≡ false))
        → Served c r (err e, w)
    handler_failed :
        (u : AuthenticatedUser) (e : Error)
        → req.user ≡ some u
        → granted (can_activate (required_roles c r) (some u)) ≡ true
        → (handler w.rest).0 ≡ err e
        → Served c r (err e, record w { rest = (handler w.rest).1 })
    answered :
        (u : AuthenticatedUser) (action : String) (response : Json) (entry : AuditLog)
        → req.user ≡ some u
        → granted (can_activate (required_roles c r) (some u)) ≡ true
        → r.audited ≡ some action
        → (handler w.rest).0 ≡ ok response
        → entry.id ≡ fresh
        → entry.tenant_id ≡ u.tenant_id
        → entry.actor_id ≡ some u.id
        → entry.action ≡ action
        → entry.target_id ≡ req.params_id
        → entry.new_value ≡ response
        → Served c r
            (ok response, record { audit = Audit.create entry w.audit; rest = (handler w.rest).1 })

  handled :
      (c : Controller) (r : Route) (u : AuthenticatedUser) (action : String) (o : Result Json)
      → c.guarded ≡ true
      → req.user ≡ some u
      → can_activate (required_roles c r) (some u) ≡ ok true
      → r.audited ≡ some action
      → (handler w.rest).0 ≡ o
      → Served c r (serve Audit S c r req fresh handler w)
  unfolding serve intercept
  handled c r u action (ok response) g a b d h =
      let e : serve Audit S c r req fresh handler w ≡ (
        ok response,
        record {
          audit = Audit.create (audit_entry u action req.params_id response fresh) w.audit;
          rest = (handler w.rest).1;
        },
      ) =
        rw (g, a, b, d, h) refl in
      subst (Served c r) (sym e) (
        answered u action response (audit_entry u action req.params_id response fresh) a
          (ap granted b) d h refl refl refl refl refl refl)
  handled c r u action (err x) g a b d h =
      let e : serve Audit S c r req fresh handler w
          ≡ (err x, record w { rest = (handler w.rest).1 }) =
        rw (g, a, b, d, h) refl in
      subst (Served c r) (sym e) (handler_failed u x a (ap granted b) h)

  activated :
      (c : Controller) (r : Route) (u : AuthenticatedUser) (action : String) (o : Result Bool)
      → c.guarded ≡ true
      → req.user ≡ some u
      → r.audited ≡ some action
      → can_activate (required_roles c r) (some u) ≡ o
      → Served c r (serve Audit S c r req fresh handler w)
  unfolding serve
  activated c r u action (ok true) g a d b = handled c r u action (handler w.rest).0 g a b d refl
  activated c r u action (ok false) g a d b =
      let e : serve Audit S c r req fresh handler w ≡ (err (forbidden "Forbidden resource"), w) =
        rw (g, a, b) refl in
      subst (Served c r) (sym e) (refused _ (inr (u, a, ap granted b)))
  activated c r u action (err x) g a d b =
      let e : serve Audit S c r req fresh handler w ≡ (err x, w) = rw (g, a, b) refl in
      subst (Served c r) (sym e) (refused x (inr (u, a, ap granted b)))

  served :
      (c : Controller) (r : Route) (action : String)
      → c.guarded ≡ true
      → r.audited ≡ some action
      → Served c r (serve Audit S c r req fresh handler w)
  unfolding serve
  served c r action g d = elim (Option-cases req.user) [
    | inl a ↦
        let e : serve Audit S c r req fresh handler w ≡ (err (unauthorized "Unauthorized"), w) =
          rw (g, a) refl in
        subst (Served c r) (sym e) (refused _ (inl a))
    | inr (u, a) ↦ activated c r u action (can_activate (required_roles c r) (some u)) g a d refl
  ]

  -- At every guarded route that is not for reading, a request without a user and one whose user
  -- the guard refuses change nothing, a handler that throws writes no audit entry, and one that
  -- answers writes exactly one, with the user, the tenant, the route's action, the id in the path
  -- and the response.
  pub serve-Served :
      All
        (λ c. All (λ r. Served c r (serve Audit S c r req fresh handler w)) (mutating c))
        (select (λ c. c.guarded) controllers)
  serve-Served =
      every-All (λ c. All (λ r. Served c r (serve Audit S c r req fresh handler w)) (mutating c))
        (λ c. c.guarded && every (λ r. is_some r.audited) (mutating c))
        (select (λ c. c.guarded) controllers) refl
        (λ c h.
          every-All (λ r. Served c r (serve Audit S c r req fresh handler w))
            (λ r. is_some r.audited) (mutating c) (&&-true _ _ h).1
            (λ r g. elim (Option-cases r.audited) [
              | inl a ↦ cc (rw a at g)
              | inr (action, a) ↦ served c r action (&&-true _ _ h).0 a
            ]))
