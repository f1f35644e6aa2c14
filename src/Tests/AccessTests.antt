-- ===== src/Tests/AccessTests.antt =====
-- A user's request at the guarded routes.
use vibe_ocpp.Prelude.{All, select, some, ok, Action}
use vibe_ocpp.Prelude.Json.{Json, null}
use vibe_ocpp.Database.{Table}
use vibe_ocpp.Database.Shelf.{shelf, empty}
use vibe_ocpp.Auth.Types.{AuthenticatedUser}
use vibe_ocpp.Access.Routes.{controllers}
use vibe_ocpp.Access.Guard.{AuditLog, Request, World, serve}
use vibe_ocpp.Access.Auditing.{mutating, Served, serve-Served}

abbrev someone : AuthenticatedUser
someone = record { id = "u"; tenant_id = "t"; email = "u@example.org"; role = "Admin" }

abbrev audit : Table AuditLog (λ a. a.id)
audit = shelf (λ a. a.id)

abbrev request : Request
request = record { user = some someone; params_id = some "1" }

abbrev handler : Action Json Json
handler s = (ok s, null)

abbrev world : World audit Json
world = record { audit = empty; rest = null }

serve-Served_example :
    All
      (λ c.
        All
          (λ r.
            Served audit Json request "a" handler world c r
              (serve audit Json c r request "a" handler world))
          (mutating c))
      (select (λ c. c.guarded) controllers)
serve-Served_example = serve-Served audit Json request "a" handler world
