-- ===== src/Auth/Types.antt =====
-- backend/src/auth/auth.types.ts, the rows that signing in reads, and the functions of the
-- libraries that it calls: @nestjs/jwt, node:crypto and argon2 are a parameter.
use vibe_ocpp.Prelude.{
  ℕ, ◌+◌, ◌<◌, String, ◌≡◌, Bool, List, [], ◌∷◌, Option, some, ◌==◌, if◌then◌else◌,
}
use vibe_ocpp.Users.{User, role_name}

pub record Tenant : Type 0 where
  pub id : String
  pub slug : String
  pub name : String

pub record RefreshToken : Type 0 where
  pub id : String
  pub user_id : String
  pub token_hash : String
  pub expires_at : ℕ
  pub revoked_at : Option ℕ

pub record AuthenticatedUser : Type 0 where
  pub id : String
  pub tenant_id : String
  pub email : String
  pub role : String

pub record HasuraClaims : Type 0 where
  pub allowed_roles : List String
  pub default_role : String
  pub user_id : String

pub record JwtAccessPayload : Type 0 where
  pub sub : String
  pub tenant_id : String
  pub email : String
  pub role : String
  pub claims : HasuraClaims

-- The payload of a refresh token.
pub record JwtRefreshPayload : Type 0 where
  pub sub : String
  pub jti : String

pub record TokenPair : Type 0 where
  pub access_token : String
  pub refresh_token : String

-- `signAsync` and `verifyAsync` with a secret, at an instant in milliseconds; verifying fails for
-- a token that is malformed, of another secret or expired. `digest` is SHA-256 in hexadecimal,
-- `verify_password` is `argon2.verify`, `lower` is `toLowerCase`.
pub record Libraries : Type 0 where
  pub sign_access : JwtAccessPayload → String → ℕ → String
  pub sign_refresh : JwtRefreshPayload → String → ℕ → String
  pub verify : String → String → ℕ → Option String
  pub digest : String → String
  pub verify_password : String → String → Bool
  pub lower : String → String

-- 30 days.
abbrev pub refresh_token_ttl_ms : ℕ
refresh_token_ttl_ms = 2592000000

-- A signed token is read until it expires. The library counts whole seconds.
pub record LibraryLaws (l : Libraries) : Type 0 where
  pub verify-sign :
      (p : JwtRefreshPayload) (secret : String) (now later : ℕ)
      → later + 1000 < now + refresh_token_ttl_ms
      → l.verify (l.sign_refresh p secret now) secret later ≡ some p.sub

unfoldable pub to_hasura_role : Libraries → String → String
to_hasura_role l role =
    if role == "SuperAdmin"
    then "superadmin"
    else if role == "Admin"
    then "csms_admin"
    else if role == "Mitarbeiter"
    then "mitarbeiter"
    else if role == "Driver"
    then "driver"
    else l.lower role

-- The four fields that the guard's strategy and the service take of a row.
abbrev pub authenticated : User → AuthenticatedUser
authenticated u = record {
  id = u.id;
  tenant_id = u.tenant_id;
  email = u.email;
  role = role_name u.role;
}

unfoldable pub access_payload : Libraries → AuthenticatedUser → JwtAccessPayload
unfolding to_hasura_role
access_payload l u = record {
  sub = u.id;
  tenant_id = u.tenant_id;
  email = u.email;
  role = u.role;
  claims = record {
    allowed_roles = to_hasura_role l u.role ∷ [];
    default_role = to_hasura_role l u.role;
    user_id = u.id;
  };
}

-- `JwtStrategy.validate`.
unfoldable pub validate : JwtAccessPayload → AuthenticatedUser
validate p = record { id = p.sub; tenant_id = p.tenant_id; email = p.email; role = p.role }
