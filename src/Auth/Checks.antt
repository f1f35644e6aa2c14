-- ===== src/Auth/Checks.antt =====
-- What signing in and refreshing of backend/src/auth/auth.service.ts come to, case by case.
use vibe_ocpp.Prelude.{
  ℕ, String, ◌≡◌, refl, true, false, none, some, ok, err, unauthorized, arith, ◌⊎◌, inl, inr,
  Option-cases, Bool-cases, ◌==◌, is_some, ltb,
}
use vibe_ocpp.Users.{User, user_at}
use vibe_ocpp.Auth.Types.{RefreshToken, AuthenticatedUser, authenticated}
use vibe_ocpp.Auth.Service.{
  Tables, AuthService, World, has_hash, clashes, is_usable, revoked, create_token, token_row, check,
  rotate, refresh, login, validate_credentials, get_default_tenant, issue_token_pair,
}

module _ (T : Tables) (e : AuthService) where
  open T use {Tenants, Users, Tokens}

  -- What the checks of `refresh` ask for: the token is one of ours, its row is live, and its user
  -- may still sign in.
  pub record IsChecked (presented : String) (now : ℕ) (w : World T) (t : RefreshToken) (u : User)
      : Type 0 where
    pub verified : e.libraries.verify presented e.jwt_refresh_secret now ≡ some t.user_id
    pub stored : Tokens.find (has_hash (e.libraries.digest presented)) w.tokens ≡ some t
    pub unrevoked : is_some t.revoked_at ≡ false
    pub unexpired : ltb t.expires_at now ≡ false
    pub user : Users.get t.user_id w.users ≡ some u
    pub active : u.is_active ≡ true

  usable_parts :
      (i : String) (now : ℕ) (t : RefreshToken)
      → is_usable i now t ≡ true
      → (is_some t.revoked_at ≡ false) × (ltb t.expires_at now ≡ false) × (i ≡ t.user_id)
  usable_parts i now t h = ground arith

  pub check_cases :
      (presented : String) (now : ℕ) (w : World T)
      → ((t : RefreshToken) × (u : User) × (check T e presented now w ≡ (ok (t, u), w))
          × IsChecked presented now w t u)
        ⊎ (check T e presented now w ≡ (err (unauthorized "Invalid refresh token"), w))
  unfolding check
  check_cases presented now w =
      elim (Option-cases (e.libraries.verify presented e.jwt_refresh_secret now)) [
        | inl a ↦ inr (rw a refl)
        | inr (i, a) ↦
            elim (Option-cases (Tokens.find (has_hash (e.libraries.digest presented)) w.tokens)) [
              | inl b ↦ inr (rw (a, b) refl)
              | inr (t, b) ↦ elim (Bool-cases (is_usable i now t)) [
                | inr c ↦ inr (rw (a, b, c) refl)
                | inl c ↦ elim (Option-cases (Users.get i w.users)) [
                  | inl d ↦ inr (rw (a, b, c, d) refl)
                  | inr (u, d) ↦ elim (Bool-cases u.is_active) [
                    | inr f ↦ inr (rw (a, b, c, d, f) refl)
                    | inl f ↦
                        let (g, h, k) = usable_parts i now t c in
                        inl (
                          t,
                          u,
                          rw (a, b, c, d, f) refl,
                          record {
                            verified = rw (a, k) refl;
                            stored = b;
                            unrevoked = g;
                            unexpired = h;
                            user = rw (← k) d;
                            active = f;
                          },
                        )
                  ]
                ]
              ]
            ]
      ]

  -- The checks let every such token pass.
  pub check-IsChecked :
      (presented : String) (now : ℕ) (w : World T) (t : RefreshToken) (u : User)
      → IsChecked presented now w t u
      → check T e presented now w ≡ (ok (t, u), w)
  unfolding check
  check-IsChecked presented now w t u c =
      let h : is_usable t.user_id now t ≡ true = ground (arith, c.unrevoked, c.unexpired) in
      rw (c.verified, c.stored, h, c.user, c.active) refl

  pub issue_cases {ℓ} :
      (P : Tokens.Store → Type ℓ) (user : AuthenticatedUser) (jti fresh : String) (now : ℕ)
      (w : World T)
      → P w.tokens
      → (Tokens.find (clashes (token_row T e user jti fresh now)) w.tokens ≡ none
          → P (Tokens.create (token_row T e user jti fresh now) w.tokens))
      → P (issue_token_pair T e user jti fresh now w).1.tokens
  unfolding issue_token_pair create_token
  issue_cases P user jti fresh now w kept made =
      elim (Option-cases (Tokens.find (clashes (token_row T e user jti fresh now)) w.tokens)) [
        | inl a ↦ rw a (made a)
        | inr (_, a) ↦ rw a kept
      ]

  -- Checking the credentials against a user that was found, or not.
  pub credentials_cases :
      (tenant_id email password : String) (w : World T)
      → ((u : User) × (validate_credentials T e tenant_id email password w
            ≡ (ok (authenticated u), w))
          × (Users.find (user_at tenant_id email) w.users ≡ some u)
          × (u.is_active ≡ true)
          × (e.libraries.verify_password u.password_hash password ≡ true))
        ⊎ (validate_credentials T e tenant_id email password w
            ≡ (err (unauthorized "Invalid credentials"), w))
  unfolding validate_credentials
  credentials_cases tenant_id email password w =
      elim (Option-cases (Users.find (user_at tenant_id email) w.users)) [
        | inl a ↦ inr (rw a refl)
        | inr (u, a) ↦ elim (Bool-cases u.is_active) [
          | inr b ↦ inr (rw (a, b) refl)
          | inl b ↦ elim (Bool-cases (e.libraries.verify_password u.password_hash password)) [
            | inr c ↦ inr (rw (a, b, c) refl)
            | inl c ↦ inl (u, rw (a, b, c) refl, a, b, c)
          ]
        ]
      ]

  pub login_cases {ℓ} :
      (P : Tokens.Store → Type ℓ) (email password jti fresh : String) (now : ℕ) (w : World T)
      → P w.tokens
      → ((t : RefreshToken)
          → Tokens.find (clashes t) w.tokens ≡ none
          → P (Tokens.create t w.tokens))
      → P (login T e email password jti fresh now w).1.tokens
  unfolding login get_default_tenant
  login_cases P email password jti fresh now w kept made =
      elim (Option-cases (Tenants.find (λ t. t.slug == "default") w.tenants)) [
        | inl a ↦ rw a kept
        | inr (t, a) ↦ elim (credentials_cases t.id email password w) [
          | inr b ↦ rw (a, b) kept
          | inl (u, b, _, _, _) ↦
              rw (a, b) (issue_cases P (authenticated u) jti fresh now w kept (λ n. made _ n))
        ]
      ]

  pub refresh_cases {ℓ} :
      (P : Tokens.Store → Type ℓ) (presented jti fresh : String) (now : ℕ) (w : World T)
      → P w.tokens
      → ((t : RefreshToken)
          → Tokens.find (has_hash (e.libraries.digest presented)) w.tokens ≡ some t
          → P (Tokens.update t.id (revoked now) w.tokens))
      → ((t r : RefreshToken)
          → Tokens.find (has_hash (e.libraries.digest presented)) w.tokens ≡ some t
          → Tokens.find (clashes r) (Tokens.update t.id (revoked now) w.tokens) ≡ none
          → P (Tokens.create r (Tokens.update t.id (revoked now) w.tokens)))
      → P (refresh T e presented jti fresh now w).1.tokens
  unfolding refresh rotate
  refresh_cases P presented jti fresh now w kept spent made = elim (check_cases presented now w) [
    | inr a ↦ rw a kept
    | inl (t, u, a, c) ↦ rw a (
        issue_cases P (authenticated u) jti fresh now _ (spent t c.stored)
          (λ n. made t _ c.stored n))
  ]
