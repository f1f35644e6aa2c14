-- ===== src/Tests/FrontendTests.antt =====
-- A page that asks to refresh while it is signed out, and signs in afterwards.
use vibe_ocpp.Prelude.{String, ◌≡◌, refl, Option, none, some, []}
use vibe_ocpp.Frontend.Session.{
  AccessTokenClaims, TokenPair, Session, unauthenticated, promise, resolved_null, refresh_session,
  finish_login,
}
use vibe_ocpp.Frontend.Session.Stuck
use vibe_ocpp.Frontend.Session.Stuck.{refresh_session_stuck}

abbrev decode : String → Option AccessTokenClaims
decode t =
    some (record { sub = "u"; tenant_id = "t"; email = "u@example.org"; role = "Admin"; exp = 0 })

abbrev signed_out : Session
signed_out = record {
  stored = none;
  access_token = none;
  user = none;
  status = unauthenticated;
  refresh_in_flight = none;
  refreshes = [];
}

abbrev pair : TokenPair
pair = record { access_token = "a"; refresh_token = "r" }

abbrev signed_in : Session
signed_in = finish_login decode (some pair) (refresh_session decode signed_out).1

refresh_session_stuck_example :
    (signed_in.refreshes ≡ [])
    × (refresh_session decode signed_in ≡ (promise resolved_null, signed_in))
refresh_session_stuck_example =
    refresh_session_stuck decode signed_out signed_in refl refl
      (Stuck.next Stuck.here (Stuck.logs_in (some pair)))
