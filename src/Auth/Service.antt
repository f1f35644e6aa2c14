-- ===== src/Auth/Service.antt =====
-- backend/src/auth/auth.service.ts with backend/src/auth/auth.controller.ts and
-- backend/src/tenants/tenants.service.ts. A request reads the clock once.
use vibe_ocpp.Prelude.{
  ℕ, ◌+◌, String, Bool, true, false, not, ◌&&◌, ◌||◌, Option, none, some, unauthorized, internal,
  failure, Action, ◌>>=◌, ◌>>◌, pure, throw, asks, modify, ◌==◌, ltb, is_some,
}
use vibe_ocpp.Database.{Table}
use vibe_ocpp.Users.{User, user_at}
use vibe_ocpp.Auth.Types.{
  Tenant, RefreshToken, AuthenticatedUser, TokenPair, Libraries, refresh_token_ttl_ms,
  access_payload, authenticated,
}

pub record Tables : Type 1 where
  pub Tenants : Table Tenant (λ t. t.id)
  pub Users : Table User (λ u. u.id)
  pub Tokens : Table RefreshToken (λ t. t.id)

-- The injected services: the libraries and the two secrets of the environment.
pub record AuthService : Type 0 where
  pub libraries : Libraries
  pub jwt_access_secret : String
  pub jwt_refresh_secret : String

abbrev pub has_hash : String → RefreshToken → Bool
has_hash token_hash t = t.token_hash == token_hash

abbrev pub clashes : RefreshToken → RefreshToken → Bool
clashes t other = other.id == t.id || other.token_hash == t.token_hash

abbrev pub is_usable : String → ℕ → RefreshToken → Bool
is_usable user_id now t =
    not (is_some t.revoked_at) && not (ltb t.expires_at now) && t.user_id == user_id

abbrev pub revoked : ℕ → RefreshToken → RefreshToken
revoked now t = record t { revoked_at = some now }

module _ (T : Tables) where
  open T use {Tenants, Users, Tokens}

  pub record World : Type 0 where
    pub tenants : Tenants.Store
    pub users : Users.Store
    pub tokens : Tokens.Store

  abbrev pub Act : Type 0 → Type 0
  Act A = Action World A

  tenant_or_throw : Option Tenant → Act Tenant
  tenant_or_throw none =
      throw (internal "Default tenant not found — run the bootstrap seed before starting the app")
  tenant_or_throw (some t) = pure t

  unfoldable pub get_default_tenant : Act Tenant
  unfolding tenant_or_throw
  get_default_tenant = do
    tenant ← asks (λ w. Tenants.find (λ t. t.slug == "default") w.tenants)
    tenant_or_throw tenant

  -- `create` on a table with a primary key and a unique column: a clash is thrown.
  store_token : Option RefreshToken → RefreshToken → Act (Unit {0})
  store_token (some clash) t = throw (failure "Unique constraint failed on the fields")
  store_token none t = modify (λ w. record w { tokens = Tokens.create t w.tokens })

  unfoldable pub create_token : RefreshToken → Act (Unit {0})
  unfolding store_token
  create_token t = do clash ← asks (λ w. Tokens.find (clashes t) w.tokens); store_token clash t

  module _ (e : AuthService) where
    abbrev pub refused : {A : Type 0} → Act A
    refused = throw (unauthorized "Invalid refresh token")

    checked_password : Bool → User → Act AuthenticatedUser
    checked_password false u = throw (unauthorized "Invalid credentials")
    checked_password true u = pure (authenticated u)

    checked_user : Option User → String → Act AuthenticatedUser
    unfolding checked_password
    checked_user none plain_password = throw (unauthorized "Invalid credentials")
    checked_user (some u) plain_password =
        checked_password (u.is_active && e.libraries.verify_password u.password_hash plain_password)
          u

    unfoldable pub validate_credentials : String → String → String → Act AuthenticatedUser
    unfolding checked_user
    validate_credentials tenant_id email plain_password = do
      user ← asks (λ w. Users.find (user_at tenant_id email) w.users)
      checked_user user plain_password

    abbrev pub refresh_text : String → String → ℕ → String
    refresh_text user_id jti now =
        e.libraries.sign_refresh (record { sub = user_id; jti = jti }) e.jwt_refresh_secret now

    abbrev pub token_row : AuthenticatedUser → String → String → ℕ → RefreshToken
    token_row user jti fresh now = record {
      id = fresh;
      user_id = user.id;
      token_hash = e.libraries.digest (refresh_text user.id jti now);
      expires_at = now + refresh_token_ttl_ms;
      revoked_at = none;
    }

    unfoldable pub token_pair : AuthenticatedUser → String → ℕ → TokenPair
    unfolding access_payload
    token_pair user jti now = record {
      access_token =
          e.libraries.sign_access (access_payload e.libraries user) e.jwt_access_secret now;
      refresh_token = refresh_text user.id jti now;
    }

    -- `jti` is the random identifier, `fresh` the `id` that the new row gets.
    unfoldable pub issue_token_pair : AuthenticatedUser → String → String → ℕ → Act TokenPair
    unfolding token_pair
    issue_token_pair user jti fresh now = do
      create_token (token_row user jti fresh now)
      pure (token_pair user jti now)

    only_if : {A : Type 0} → Bool → A → Act A
    only_if false a = refused
    only_if true a = pure a

    usable_token : String → ℕ → Option RefreshToken → Act RefreshToken
    unfolding only_if
    usable_token user_id now none = refused
    usable_token user_id now (some t) = only_if (is_usable user_id now t) t

    active_user : Option User → Act User
    unfolding only_if
    active_user none = refused
    active_user (some u) = only_if u.is_active u

    -- What `refresh` reads once the token is verified as one of the user `user_id`.
    check_stored : String → ℕ → Option String → Act (RefreshToken × User)
    unfolding usable_token active_user
    check_stored presented now none = refused
    check_stored presented now (some user_id) = do
      found ← asks (λ w. Tokens.find (has_hash (e.libraries.digest presented)) w.tokens)
      stored ← usable_token user_id now found
      owner ← asks (λ w. Users.get user_id w.users)
      user ← active_user owner
      pure (stored, user)

    -- `refresh` up to its last read: the checks, which write nothing.
    unfoldable pub check : String → ℕ → Act (RefreshToken × User)
    unfolding check_stored
    check presented now =
        check_stored presented now (e.libraries.verify presented e.jwt_refresh_secret now)

    -- `refresh` from its first write.
    unfoldable pub rotate : RefreshToken × User → String → String → ℕ → Act TokenPair
    unfolding issue_token_pair
    rotate c jti fresh now = do
      modify (λ w. record w { tokens = Tokens.update (c.0).id (revoked now) w.tokens })
      issue_token_pair (authenticated c.1) jti fresh now

    unfoldable pub refresh : String → String → String → ℕ → Act TokenPair
    unfolding check rotate
    refresh presented jti fresh now = do checked ← check presented now; rotate checked jti fresh now

    unfoldable pub revoke_refresh_token : String → ℕ → Act (Unit {0})
    revoke_refresh_token presented now = modify (λ w. record w {
      tokens =
          Tokens.update_many
            (λ t. has_hash (e.libraries.digest presented) t && not (is_some t.revoked_at))
            (revoked now) w.tokens;
    })

    -- `POST /auth/login`; `refresh` and `logout` call the service's method only.
    unfoldable pub login : String → String → String → String → ℕ → Act TokenPair
    unfolding validate_credentials issue_token_pair
    login email password jti fresh now = do
      tenant ← get_default_tenant
      user ← validate_credentials tenant.id email password
      issue_token_pair user jti fresh now
