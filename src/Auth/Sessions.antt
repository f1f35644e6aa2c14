-- ===== src/Auth/Sessions.antt =====
-- Requests to backend/src/auth/auth.controller.ts in any order, and what becomes of a refresh token.
use vibe_ocpp.Prelude.{ℕ, String, ◌≡◌, refl, some, ok, err, unauthorized, arith, inl, inr}
use mathlib.Core.Path.{subst}
use vibe_ocpp.Database.{TableLaws}
use vibe_ocpp.Auth.Types.{RefreshToken, TokenPair, authenticated}
use vibe_ocpp.Auth.Service.{
  Tables, AuthService, World, has_hash, revoked, check, rotate, refresh, revoke_refresh_token,
  login,
}
use vibe_ocpp.Auth.Spent.{
  IsSpent, IsDistinct, Later, Later-refl, Later-trans, Later-IsSpent, create-Later,
  create-IsDistinct, revoking-Later, update-Later, revoking-IsDistinct, update-IsDistinct,
  update-IsSpent, revoking-IsSpent,
}
use vibe_ocpp.Auth.Checks.{check_cases, login_cases, refresh_cases, issue_cases}

module _ (T : Tables) (e : AuthService) where
  open T use {Tenants, Users, Tokens}

  -- A request, and a change of the tenants and users by the other parts of the program.
  pub data Step (w w' : World T) : Type 0 where
    logs_in :
        (email password jti fresh : String) (now : ℕ)
        → w' ≡ (login T e email password jti fresh now w).1
        → Step w w'
    refreshes :
        (presented jti fresh : String) (now : ℕ)
        → w' ≡ (refresh T e presented jti fresh now w).1
        → Step w w'
    logs_out :
        (presented : String) (now : ℕ)
        → w' ≡ (revoke_refresh_token T e presented now w).1
        → Step w w'
    administers : w'.tokens ≡ w.tokens → Step w w'

  pub data Reach (w : World T) : World T → Type 0 where
    here : Reach w w
    next : {u x : World T} → Reach w u → Step u x → Reach w x

  check_refused :
      (presented : String) (now : ℕ) (w : World T)
      → IsSpent Tokens (e.libraries.digest presented) w.tokens
      → TableLaws Tokens
      → check T e presented now w ≡ (err (unauthorized "Invalid refresh token"), w)
  check_refused presented now w d L = elim (check_cases T e presented now w) [
    | inr r ↦ r
    | inl (t, u, _, c) ↦
        let (a, b) = L.find_sound _ w.tokens t c.stored in
        ground (arith, d.dead t.id t b, c.unrevoked, a)
  ]

  module _ (L : TableLaws Tokens) where
    Step-Later : (w w' : World T) → Step w w' → Later Tokens w.tokens w'.tokens
    Step-Later w w' (logs_in email password jti fresh now a) = rw a (
        login_cases T e (Later Tokens w.tokens) email password jti fresh now w
          (Later-refl Tokens w.tokens) (λ t n. create-Later Tokens L t w.tokens n))
    Step-Later w w' (refreshes presented jti fresh now a) = rw a (
        refresh_cases T e (Later Tokens w.tokens) presented jti fresh now w
          (Later-refl Tokens w.tokens) (λ t _. update-Later Tokens L now t.id w.tokens)
          (λ t r _ n.
            Later-trans Tokens w.tokens _ _ (update-Later Tokens L now t.id w.tokens)
              (create-Later Tokens L r _ n)))
    Step-Later w w' (logs_out presented now a) =
        rw a (unfold revoke_refresh_token in revoking-Later Tokens L now _ w.tokens)
    Step-Later w w' (administers a) = rw a (Later-refl Tokens w.tokens)

    Step-IsDistinct :
        (w w' : World T) → Step w w' → IsDistinct Tokens w.tokens → IsDistinct Tokens w'.tokens
    Step-IsDistinct w w' (logs_in email password jti fresh now a) v = rw a (
        login_cases T e (IsDistinct Tokens) email password jti fresh now w v
          (λ t n. create-IsDistinct Tokens L t w.tokens n v))
    Step-IsDistinct w w' (refreshes presented jti fresh now a) v = rw a (
        refresh_cases T e (IsDistinct Tokens) presented jti fresh now w v
          (λ t _. update-IsDistinct Tokens L now t.id w.tokens v)
          (λ t r _ n.
            create-IsDistinct Tokens L r _ n (update-IsDistinct Tokens L now t.id w.tokens v)))
    Step-IsDistinct w w' (logs_out presented now a) v =
        rw a (unfold revoke_refresh_token in revoking-IsDistinct Tokens L now _ w.tokens v)
    Step-IsDistinct w w' (administers a) v = rw a v

    -- Over any requests and changes of users, no refresh token's row goes or is un-revoked, a new
    -- row has a new hash, and the hashes stay distinct where they were.
    pub Reach-Later :
        (w w' : World T)
        → Reach w w'
        → Later Tokens w.tokens w'.tokens
          × (IsDistinct Tokens w.tokens → IsDistinct Tokens w'.tokens)
    Reach-Later w w' here = (Later-refl Tokens w.tokens, λ v. v)
    Reach-Later w w' (next {u = u} r s) =
        let (a, b) = Reach-Later w u r in
        (
          Later-trans Tokens w.tokens u.tokens w'.tokens a (Step-Later u w' s),
          λ v. Step-IsDistinct u w' s (b v),
        )

    refresh_refused :
        (presented jti fresh : String) (now : ℕ) (w : World T)
        → IsSpent Tokens (e.libraries.digest presented) w.tokens
        → refresh T e presented jti fresh now w ≡ (err (unauthorized "Invalid refresh token"), w)
    unfolding refresh
    refresh_refused presented jti fresh now w d = rw (check_refused presented now w d L) refl

    spend :
        (presented : String) (now : ℕ) (w : World T) (t : RefreshToken)
        → IsDistinct Tokens w.tokens
        → Tokens.find (has_hash (e.libraries.digest presented)) w.tokens ≡ some t
        → IsSpent Tokens (e.libraries.digest presented) (Tokens.update t.id (revoked now) w.tokens)
    spend presented now w t v f =
        let (a, b) = L.find_sound _ w.tokens t f in
        subst (λ h. IsSpent Tokens h (Tokens.update t.id (revoked now) w.tokens))
          (ground (arith, a)) (update-IsSpent Tokens L now w.tokens t v b)

    refresh-IsSpent :
        (presented jti fresh : String) (now : ℕ) (w : World T) (pair : TokenPair)
        → IsDistinct Tokens w.tokens
        → (refresh T e presented jti fresh now w).0 ≡ ok pair
        → IsSpent Tokens
            (e.libraries.digest presented)
            (refresh T e presented jti fresh now w).1.tokens
    unfolding refresh rotate
    refresh-IsSpent presented jti fresh now w pair v h = elim (check_cases T e presented now w) [
      | inr a ↦ cc (rw a at h)
      | inl (t, u, a, c) ↦
          let d = spend presented now w t v c.stored in
          rw a (
            issue_cases T e (IsSpent Tokens (e.libraries.digest presented)) (authenticated u) jti
              fresh now _ d
              (λ n.
                Later-IsSpent Tokens (e.libraries.digest presented) _ _
                  (create-Later Tokens L _ _ n) d))
    ]

    module _ (presented jti fresh : String) (now : ℕ) (w w' : World T) where
      -- Where the stored hashes are distinct, a refresh token that was refreshed once is refused
      -- ever after, whatever requests come in between, and the refusal writes nothing.
      pub refresh-refresh :
          (pair : TokenPair) (later_jti later_fresh : String) (later : ℕ)
          → IsDistinct Tokens w.tokens
          → (refresh T e presented jti fresh now w).0 ≡ ok pair
          → Reach (refresh T e presented jti fresh now w).1 w'
          → refresh T e presented later_jti later_fresh later w'
            ≡ (err (unauthorized "Invalid refresh token"), w')
      refresh-refresh pair later_jti later_fresh later v h r =
          refresh_refused presented later_jti later_fresh later w' (
            Later-IsSpent Tokens _ _ _
              (Reach-Later (refresh T e presented jti fresh now w).1 w' r).0
              (refresh-IsSpent presented jti fresh now w pair v h))

      -- A refresh token whose row is stored is refused once it was logged out, whatever requests
      -- come in between, and the refusal writes nothing.
      pub revoke_refresh_token-refresh :
          (later : ℕ) (k : String) (t : RefreshToken)
          → Tokens.get k w.tokens ≡ some t
          → t.token_hash ≡ e.libraries.digest presented
          → Reach (revoke_refresh_token T e presented now w).1 w'
          → refresh T e presented jti fresh later w'
            ≡ (err (unauthorized "Invalid refresh token"), w')
      revoke_refresh_token-refresh later k t g h r = refresh_refused presented jti fresh later w' (
          Later-IsSpent Tokens _ _ _ (Reach-Later _ w' r).0 (
            unfold revoke_refresh_token in
            revoking-IsSpent Tokens L now (e.libraries.digest presented) w.tokens k t g h))
