-- ===== src/Testsuite/PollUntil.antt =====
-- backend/src/testsuite/poll-until.ts: a condition on shared state, asked until it holds or a
-- deadline has passed. What happens during a sleep is a parameter, and so is the clock, which
-- `Date.now()` reads. The loop runs on fuel; `poll_until` gives it one round for each millisecond
-- of the timeout and one more.
use vibe_ocpp.Prelude.{
  ℕ, zero, suc, ◌+◌, ◌-◌, ◌≤◌, ◌<◌, min, max, Option, none, some, arith, Result, ok, err, Action,
  and_then, leb, if◌then◌else◌, Bool-cases, inl, inr,
}

module _ {W : Type 0} (clock : W → ℕ) (sleep : ℕ → W → W) {A : Type 0}
    (check : Action W (Option A)) where
  -- `again` is the rest of the loop.
  after_check : ℕ → ℕ → Action W (Option A) → Option A → Action W (Option A)
  after_check deadline interval again (some a) w = (ok (some a), w)
  after_check deadline interval again none w =
      if leb deadline (clock w)
      then (ok none, w)
      else again (sleep (min interval (max 0 (deadline - clock w))) w)

  poll : ℕ → ℕ → ℕ → Action W (Option A)
  unfolding after_check
  poll zero deadline interval w = (ok none, w)
  poll (suc fuel) deadline interval w =
      and_then (check w) (after_check deadline interval (poll fuel deadline interval))

  unfoldable pub poll_until : ℕ → ℕ → Action W (Option A)
  unfolding poll
  poll_until timeout_ms interval w = poll (suc timeout_ms) (clock w + timeout_ms) interval w

  -- What a theorem says of an outcome: given up, found, or an error of the check.
  abbrev pub Ends {ℓ} :
      (W → Type ℓ) → (A → W → Type ℓ) → (W → Type ℓ) → Result (Option A) × W → Type ℓ
  Ends Gone Found Fails (ok none, w) = Gone w
  Ends Gone Found Fails (ok (some a), w) = Found a w
  Ends Gone Found Fails (err e, w) = Fails w

  module _ {ℓ} (P : W → Type ℓ) (Found : A → W → Type ℓ) (Fails : W → Type ℓ) (interval : ℕ)
      (positive : 0 < interval) (checking : (w : W) → P w → Ends P Found Fails (check w))
      (sleeping : (n : ℕ) (w : W) → P w → P (sleep n w))
      (check_time : (w : W) → clock w ≤ clock ((check w).1))
      (sleep_time : (n : ℕ) (w : W) → clock w + n ≤ clock (sleep n w)) where
    abbrev Expired : ℕ → W → Type ℓ
    Expired deadline w = P w × (deadline ≤ clock w)

    round :
        (fuel deadline : ℕ) (w : W) (x : Result (Option A) × W)
        → deadline ≤ fuel + clock w
        → clock w ≤ clock x.1
        → Ends P Found Fails x
        → ((w' : W)
            → deadline < fuel + clock w'
            → P w'
            → Ends (Expired deadline) Found Fails (poll fuel deadline interval w'))
        → Ends
            (Expired deadline)
            Found
            Fails
            (and_then x (after_check deadline interval (poll fuel deadline interval)))
    unfolding after_check
    round fuel deadline w (err e, w') enough later h again = h
    round fuel deadline w (ok (some a), w') enough later h again = h
    round fuel deadline w (ok none, w') enough later h again =
        elim (Bool-cases (leb deadline (clock w'))) [
          | inl e ↦ rw e (h, ground (arith, e))
          | inr e ↦ rw e (
              again _
                (ground (
                  arith,
                  e,
                  enough,
                  later,
                  positive,
                  sleep_time (min interval (max 0 (deadline - clock w'))) w',
                ))
                (sleeping _ w' h))
        ]

    rounds :
        (fuel deadline : ℕ) (w : W)
        → deadline < fuel + clock w
        → P w
        → Ends (Expired deadline) Found Fails (poll fuel deadline interval w)
    unfolding poll
    rounds zero deadline w enough p = (p, omega (arith, enough))
    rounds (suc fuel) deadline w enough p =
        round fuel deadline w (check w) (omega (arith, enough)) (check_time w) (checking w p)
          (rounds fuel deadline)

    -- Where the clock never goes back and a sleep lasts as long as it is asked to, the loop ends:
    -- it hands on what a check found or threw, and gives up only after the whole timeout has
    -- passed, with everything kept that each check and each sleep keep.
    pub poll_until_lem :
        (timeout_ms : ℕ) (w : W)
        → P w
        → Ends
            (λ w'. P w' × (clock w + timeout_ms ≤ clock w'))
            Found
            Fails
            (poll_until timeout_ms interval w)
    unfolding poll_until
    poll_until_lem timeout_ms w p = rounds (suc timeout_ms) (clock w + timeout_ms) w (omega arith) p
