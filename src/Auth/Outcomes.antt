-- ===== src/Auth/Outcomes.antt =====
-- What signing in and refreshing answer, and two requests with one token at a time.
use vibe_ocpp.Prelude.{
  ℕ, ◌+◌, ◌<◌, String, ◌≡◌, refl, true, false, none, some, Result, ok, err, unauthorized, arith,
  ◌⊎◌, inl, inr, Option-cases, ◌==◌, ◌>>=◌, pure, ap, ◌∙◌,
}
use vibe_ocpp.Database.{TableLaws}
use vibe_ocpp.Users.{User, user_at, set_active}
use vibe_ocpp.Users.Invariant.{set_active-get}
use vibe_ocpp.Auth.Types.{
  Tenant, RefreshToken, TokenPair, AuthenticatedUser, authenticated, LibraryLaws,
  refresh_token_ttl_ms,
}
use vibe_ocpp.Auth.Service.{
  Tables, AuthService, World, has_hash, clashes, revoked, create_token, token_row, token_pair,
  check, rotate, refresh, login, get_default_tenant, issue_token_pair, refresh_text,
}
use vibe_ocpp.Auth.Spent.{no_clash, free_id, create_origin}
use vibe_ocpp.Auth.Checks.{check-IsChecked, check_cases, credentials_cases}

module _ (T : Tables) (e : AuthService) where
  open T use {Tenants, Users, Tokens}

  issue_lem :
      (user : AuthenticatedUser) (jti fresh : String) (now : ℕ) (w : World T)
      → Tokens.find (clashes (token_row T e user jti fresh now)) w.tokens ≡ none
      → issue_token_pair T e user jti fresh now w ≡ (
        ok (token_pair T e user jti now),
        record w { tokens = Tokens.create (token_row T e user jti fresh now) w.tokens },
      )
  unfolding issue_token_pair create_token
  issue_lem user jti fresh now w n = rw n refl

  -- Two requests with one token: each does its checks before the other writes.
  abbrev pub interleaved :
      String
      → String
      → String
      → String
      → String
      → ℕ
      → World T
      → Result (TokenPair × TokenPair) × World T
  interleaved presented jti fresh jti' fresh' now = do
    first ← check T e presented now
    second ← check T e presented now
    pair ← rotate T e first jti fresh now
    pair' ← rotate T e second jti' fresh' now
    pure (pair, pair')

  abbrev pub rotated_tokens :
      RefreshToken × User → String → String → ℕ → Tokens.Store → Tokens.Store
  rotated_tokens c jti fresh now s =
      Tokens.create (token_row T e (authenticated c.1) jti fresh now)
        (Tokens.update (c.0).id (revoked now) s)

  -- Two requests with one refresh token that both do their checks before either writes both get a
  -- new pair, where the token passes the checks and the new rows do not clash.
  pub refresh_twice :
      (presented jti fresh jti' fresh' : String) (now : ℕ) (w : World T) (c : RefreshToken × User)
      → (check T e presented now w).0 ≡ ok c
      → Tokens.find
          (clashes (token_row T e (authenticated c.1) jti fresh now))
          (Tokens.update (c.0).id (revoked now) w.tokens)
        ≡ none
      → Tokens.find
          (clashes (token_row T e (authenticated c.1) jti' fresh' now))
          (Tokens.update (c.0).id (revoked now) (rotated_tokens c jti fresh now w.tokens))
        ≡ none
      → (interleaved presented jti fresh jti' fresh' now w).0
        ≡ ok (
          token_pair T e (authenticated c.1) jti now,
          token_pair T e (authenticated c.1) jti' now,
        )
  unfolding rotate
  refresh_twice presented jti fresh jti' fresh' now w c h n m =
      elim (check_cases T e presented now w) [
        | inr a ↦ cc (rw a at h)
        | inl (t, u, a, k) ↦
            let d : (t, u) ≡ c = cc (rw a at h) in
            let f : check T e presented now w ≡ (ok c, w) = rw (← d) a in
            rw
              (
                f,
                f,
                issue_lem (authenticated c.1) jti fresh now
                    (record w { tokens = Tokens.update (c.0).id (revoked now) w.tokens }) n,
                issue_lem (authenticated c.1) jti' fresh' now
                    (record w {
                      tokens =
                          Tokens.update (c.0).id (revoked now)
                            (rotated_tokens c jti fresh now w.tokens);
                    })
                    m,
              )
              refl
      ]

  -- Signing in, where the default tenant is there, answers a wrong email, a user who is not
  -- active and a wrong password alike, and writes nothing then; else the credentials fit.
  pub login_refused :
      (email password jti fresh : String) (now : ℕ) (w : World T) (tenant : Tenant)
      → Tenants.find (λ t. t.slug == "default") w.tenants ≡ some tenant
      → (login T e email password jti fresh now w ≡ (err (unauthorized "Invalid credentials"), w))
        ⊎ ((u : User) × (Users.find (user_at tenant.id email) w.users ≡ some u)
            × (u.is_active ≡ true)
            × (e.libraries.verify_password u.password_hash password ≡ true)
            × (login T e email password jti fresh now w
                ≡ issue_token_pair T e (authenticated u) jti fresh now w))
  unfolding login get_default_tenant
  login_refused email password jti fresh now w tenant h =
      elim (credentials_cases T e tenant.id email password w) [
        | inr a ↦ inl (rw (h, a) refl)
        | inl (u, a, b, c, d) ↦ inr (u, b, c, d, rw (h, a) refl)
      ]

  -- The token of a user whom an administrator has switched off is refused, and nothing is written.
  pub set_active-refresh :
      (L : TableLaws Users) (hash : String → String) (w : World T)
      (tenant_id user_id presented jti fresh : String) (now : ℕ) (u : User)
      → (set_active Users hash tenant_id user_id false w.users).0 ≡ ok u
      → e.libraries.verify presented e.jwt_refresh_secret now ≡ some user_id
      → refresh T e presented jti fresh now
          (record w { users = (set_active Users hash tenant_id user_id false w.users).1 })
        ≡ (
          err (unauthorized "Invalid refresh token"),
          record w { users = (set_active Users hash tenant_id user_id false w.users).1 },
        )
  unfolding refresh
  set_active-refresh L hash w tenant_id user_id presented jti fresh now u h v =
      elim (check_cases T e presented now
        (record w { users = (set_active Users hash tenant_id user_id false w.users).1 })) [
          | inr a ↦ rw a refl
          | inl (t, r, a, c) ↦ ground (
            arith,
            c.active,
            c.verified,
            v,
            c.user,
            set_active-get Users L hash w.users tenant_id user_id false u r h,
          )
        ]

  live_token :
      (L : TableLaws Tokens) (user : AuthenticatedUser) (jti fresh : String) (now : ℕ)
      (s : Tokens.Store) (t : RefreshToken)
      → Tokens.find (clashes (token_row T e user jti fresh now)) s ≡ none
      → Tokens.find
          (has_hash (e.libraries.digest (refresh_text T e user.id jti now)))
          (Tokens.create (token_row T e user jti fresh now) s)
        ≡ some t
      → t ≡ token_row T e user jti fresh now
  live_token L user jti fresh now s t n f =
      elim (create_origin Tokens L (token_row T e user jti fresh now) t s t.id n
        (L.find_sound _ _ t f).1) [
          | inl (_, a) ↦ a
          | inr a ↦ absurd (
              (no_clash Tokens L (token_row T e user jti fresh now) t s t.id n a).1
                (ground (arith, (L.find_sound _ _ t f).0)))
        ]

  stored_token :
      (L : TableLaws Tokens) (user : AuthenticatedUser) (jti fresh : String) (now : ℕ)
      (s : Tokens.Store)
      → Tokens.find (clashes (token_row T e user jti fresh now)) s ≡ none
      → Tokens.find
          (has_hash (e.libraries.digest (refresh_text T e user.id jti now)))
          (Tokens.create (token_row T e user jti fresh now) s)
        ≡ some (token_row T e user jti fresh now)
  stored_token L user jti fresh now s n =
      let r = token_row T e user jti fresh now in
      elim (Option-cases (Tokens.find (has_hash r.token_hash) (Tokens.create r s))) [
        | inr (t, a) ↦ a ∙ ap some (live_token L user jti fresh now s t n a)
        | inl a ↦ ground (
          arith,
          L.find_complete (has_hash r.token_hash) (Tokens.create r s) fresh r a,
          L.get-create fresh r s (free_id Tokens L r s n),
        )
      ]

  -- The refresh token that a user gets passes the checks of `refresh` until its 30 days are over,
  -- to the second that the library counts by, while the user may sign in and no other request
  -- comes in between.
  pub issue_token_pair-check :
      (L : TableLaws Tokens) (l : LibraryLaws e.libraries) (u : User) (jti fresh : String)
      (now later : ℕ) (w : World T)
      → Users.get u.id w.users ≡ some u
      → u.is_active ≡ true
      → Tokens.find (clashes (token_row T e (authenticated u) jti fresh now)) w.tokens ≡ none
      → later + 1000 < now + refresh_token_ttl_ms
      → (p : TokenPair) × (w' : World T) × (issue_token_pair T e (authenticated u) jti fresh now w
          ≡ (ok p, w'))
        × (check T e p.refresh_token later w'
            ≡ (ok (token_row T e (authenticated u) jti fresh now, u), w'))
  unfolding token_pair
  issue_token_pair-check L l u jti fresh now later w g a n h = (
    token_pair T e (authenticated u) jti now,
    record w { tokens = Tokens.create (token_row T e (authenticated u) jti fresh now) w.tokens },
    issue_lem (authenticated u) jti fresh now w n,
    check-IsChecked T e (refresh_text T e u.id jti now) later _
        (token_row T e (authenticated u) jti fresh now) u
        (record {
          verified = l.verify-sign _ _ now later h;
          stored = stored_token L (authenticated u) jti fresh now w.tokens n;
          unrevoked = refl;
          unexpired = ground (arith, h);
          user = g;
          active = a;
        }),
  )
