-- ===== src/Frontend/Session.antt =====
-- frontend/src/auth/auth-context.tsx with frontend/src/lib/jwt.ts. Every function runs up to its
-- first await, and what follows a call of the backend is a step of its own. The state of the
-- component and what is in the local storage are one record; decoding a token is a parameter.
pub mod Stuck
use vibe_ocpp.Prelude.{
  ℕ, ◌+◌, ◌*◌, String, Bool, true, false, not, ◌&&◌, Option, none, some, List, [], ◌∷◌, present,
  get_or, leb, if◌then◌else◌,
}

pub record AccessTokenClaims : Type 0 where
  pub sub : String
  pub tenant_id : String
  pub email : String
  pub role : String
  -- in seconds
  pub exp : ℕ

pub record AuthUser : Type 0 where
  pub id : String
  pub tenant_id : String
  pub email : String
  pub role : String

pub record TokenPair : Type 0 where
  pub access_token : String
  pub refresh_token : String

pub data Status : Type 0 where
  loading authenticated unauthenticated : Status

-- The promise in `refreshInFlight.current`: waiting for the backend, or already resolved to `null`.
pub data Flight : Type 0 where
  waiting : Flight
  resolved_null : Flight

pub record Session : Type 0 where
  -- the local storage's refresh token
  pub stored : Option String
  pub access_token : Option String
  pub user : Option AuthUser
  pub status : Status
  pub refresh_in_flight : Option Flight
  -- the refresh tokens sent to `/auth/refresh`, the latest first
  pub refreshes : List String

-- What a caller of `getAccessToken` gets.
pub data Answer : Type 0 where
  token : String → Answer
  promise : Flight → Answer

abbrev pub to_user : AccessTokenClaims → AuthUser
to_user claims = record {
  id = claims.sub;
  tenant_id = claims.tenant_id;
  email = claims.email;
  role = claims.role;
}

-- With the default skew of 10 seconds; `now` is in milliseconds.
abbrev pub is_expired : AccessTokenClaims → ℕ → Bool
is_expired claims now = leb (claims.exp * 1000) (now + 10000)

abbrev pub clear_session : Session → Session
clear_session s = record s {
  stored = none;
  access_token = none;
  user = none;
  status = unauthenticated;
}

module _ (decode : String → Option AccessTokenClaims) where
  accept : Option AccessTokenClaims → TokenPair → Session → Option Session
  accept none tokens s = none
  accept (some claims) tokens s = some (record s {
    stored = some tokens.refresh_token;
    access_token = some tokens.access_token;
    user = some (to_user claims);
    status = authenticated;
  })

  -- `none` for the exception on an unreadable token.
  unfoldable pub apply_token_pair : TokenPair → Session → Option Session
  unfolding accept
  apply_token_pair tokens s = accept (decode tokens.access_token) tokens s

  -- `run()` up to its first await; without a token it has returned before its `try`.
  start_run : Bool → String → Session → Answer × Session
  start_run false stored s =
      (promise resolved_null, record (clear_session s) { refresh_in_flight = some resolved_null })
  start_run true stored s = (
    promise waiting,
    record s { refresh_in_flight = some waiting; refreshes = stored ∷ s.refreshes },
  )

  joined : Option Flight → Session → Answer × Session
  unfolding start_run
  joined (some f) s = (promise f, s)
  joined none s = start_run (present s.stored) (get_or s.stored "") s

  unfoldable pub refresh_session : Session → Answer × Session
  unfolding joined
  refresh_session s = joined s.refresh_in_flight s

  -- The rest of `run` on the backend's answer, `none` for an error; `finally` included.
  unfoldable pub finish_refresh : Option TokenPair → Session → Session
  unfolding apply_token_pair
  finish_refresh none s = record (clear_session s) { refresh_in_flight = none }
  finish_refresh (some tokens) s = record (get_or (apply_token_pair tokens s) (clear_session s)) {
    refresh_in_flight = none;
  }

  usable : Option AccessTokenClaims → ℕ → Bool
  usable none now = false
  usable (some claims) now = not (is_expired claims now)

  held : Option String → ℕ → Session → Answer × Session
  unfolding usable refresh_session
  held none now s = refresh_session s
  held (some access_token) now s =
      if usable (decode access_token) now then (token access_token, s) else refresh_session s

  unfoldable pub get_access_token : ℕ → Session → Answer × Session
  unfolding held
  get_access_token now s = held s.access_token now s

  -- `login` on the backend's answer; an error leaves the session as it is.
  unfoldable pub finish_login : Option TokenPair → Session → Session
  unfolding apply_token_pair
  finish_login none s = s
  finish_login (some tokens) s = get_or (apply_token_pair tokens s) s

  -- `logout`; what the backend answers changes nothing.
  unfoldable pub logout : Session → Session
  logout s = clear_session s
