-- ===== src/Frontend/Session/Stuck.antt =====
-- What a refresh without a stored token leaves behind in frontend/src/auth/auth-context.tsx.
use vibe_ocpp.Prelude.{
  ℕ, String, ◌≡◌, refl, false, Option, none, some, List, present, get_or, arith, Option-cases, inl,
  inr,
}
use vibe_ocpp.Frontend.Session.{
  AccessTokenClaims, TokenPair, Session, waiting, resolved_null, promise, clear_session,
  apply_token_pair, refresh_session, finish_refresh, get_access_token, finish_login, logout,
}

module _ (decode : String → Option AccessTokenClaims) where
  -- What can happen to a session. A refresh ends only while one is under way.
  pub data Step (s : Session) : Session → Type 0 where
    asks_token : (now : ℕ) → Step s (get_access_token decode now s).1
    refreshes : Step s (refresh_session decode s).1
    ends_refresh :
        (answer : Option TokenPair)
        → s.refresh_in_flight ≡ some waiting
        → Step s (finish_refresh decode answer s)
    logs_in : (answer : Option TokenPair) → Step s (finish_login decode answer s)
    logs_out : Step s (logout decode s)
    unauthorized : Step s (clear_session s)
    -- another tab of the browser, by the local storage
    stores : (stored : Option String) → Step s (record s { stored = stored })

  pub data Reach (s : Session) : Session → Type 0 where
    here : Reach s s
    next : {t u : Session} → Reach s t → Step t u → Reach s u

  -- The resolved promise is still there, and no refresh was sent since.
  abbrev pub IsStuck : List String → Session → Type 0
  IsStuck sent s = (s.refresh_in_flight ≡ some resolved_null) × (s.refreshes ≡ sent)

  apply-IsStuck :
      (sent : List String) (tokens : TokenPair) (s d : Session)
      → IsStuck sent s
      → IsStuck sent d
      → IsStuck sent (get_or (apply_token_pair decode tokens s) d)
  unfolding apply_token_pair
  apply-IsStuck sent tokens s d v w = elim (Option-cases (decode tokens.access_token)) [
    | inl a ↦ rw a w
    | inr (c, a) ↦ rw a v
  ]

  refresh_session-IsStuck :
      (sent : List String) (s : Session)
      → IsStuck sent s
      → (refresh_session decode s ≡ (promise resolved_null, s))
  unfolding refresh_session
  refresh_session-IsStuck sent s v = rw (v.0) refl

  get_access_token-IsStuck :
      (sent : List String) (now : ℕ) (s : Session)
      → IsStuck sent s
      → IsStuck sent (get_access_token decode now s).1
  unfolding get_access_token
  get_access_token-IsStuck sent now s v = ground (arith, v, refresh_session-IsStuck sent s v)

  Step-IsStuck : (sent : List String) (s t : Session) → Step s t → IsStuck sent s → IsStuck sent t
  unfolding finish_login logout
  Step-IsStuck sent s t (asks_token now) v = get_access_token-IsStuck sent now s v
  Step-IsStuck sent s t refreshes v = rw (refresh_session-IsStuck sent s v) v
  Step-IsStuck sent s t (ends_refresh answer w) v = ground (arith, v, w)
  Step-IsStuck sent s t (logs_in none) v = v
  Step-IsStuck sent s t (logs_in (some tokens)) v = apply-IsStuck sent tokens s s v v
  Step-IsStuck sent s t logs_out v = v
  Step-IsStuck sent s t unauthorized v = v
  Step-IsStuck sent s t (stores stored) v = v

  Reach-IsStuck : (sent : List String) (s t : Session) → Reach s t → IsStuck sent s → IsStuck sent t
  Reach-IsStuck sent s t here v = v
  Reach-IsStuck sent s t (next {t = u} r x) v = Step-IsStuck sent u t x (Reach-IsStuck sent s u r v)

  -- Once a refresh was asked for with no token stored and none under way, the page never refreshes
  -- again: whatever comes after, logging in included, no refresh token is sent, and asking to
  -- refresh answers the old null and changes nothing.
  pub refresh_session_stuck :
      (s t : Session)
      → s.refresh_in_flight ≡ none
      → present s.stored ≡ false
      → Reach (refresh_session decode s).1 t
      → (t.refreshes ≡ s.refreshes) × (refresh_session decode t ≡ (promise resolved_null, t))
  unfolding refresh_session
  refresh_session_stuck s t h k r =
      let v : IsStuck s.refreshes (refresh_session decode s).1 = ground (arith, h, k) in
      let w = Reach-IsStuck s.refreshes (refresh_session decode s).1 t r v in
      (w.1, refresh_session-IsStuck s.refreshes t w)
