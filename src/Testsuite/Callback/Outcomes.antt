-- ===== src/Testsuite/Callback/Outcomes.antt =====
-- The branches of `receiveCallback` of backend/src/testsuite/testsuite-callback.controller.ts.
use vibe_ocpp.Prelude.{
  ℕ, String, Bool, and_then, ◌>>◌, ◌≡◌, refl, true, false, Option, none, some, arith, Result, ok,
  err, Option-cases, Bool-cases, inl, inr, forbidden,
}
use vibe_ocpp.Prelude.Json.{Json}
use vibe_ocpp.Database.{TableLaws}
use vibe_ocpp.Testsuite.Rows.{Run, Step, settled, is_running}
use vibe_ocpp.Testsuite.World.{Tables, World, Services, ServicesLaws, Follows}
use vibe_ocpp.Testsuite.World.Following.{Follows-refl, Follows-trans, update-Follows}
use vibe_ocpp.Testsuite.Callback.Verdicts.{Written, resolved-Written}
use vibe_ocpp.Testsuite.Callback.{
  receive_callback, authorised, resolved, ocpp_error, guard, settle, the_run, done, ignored,
}

module _ (T : Tables) (L : TableLaws T.Steps) (S : Services T) (laws : ServicesLaws T S) where
  open T use {Runs, Steps}

  resolved_id :
      (payload : Json) (now : ℕ) (step : Step) (o : Option (String × String)) (r : Step)
      → (resolved payload now step o r).id ≡ r.id
  unfolding resolved
  resolved_id payload now step none r = refl
  resolved_id payload now step (some (a, b)) r = refl

  resolved-settled :
      (payload : Json) (now : ℕ) (step : Step) (o : Option (String × String)) (r : Step)
      → settled (resolved payload now step o r).status ≡ true
  unfolding resolved
  resolved-settled payload now step none r = refl
  resolved-settled payload now step (some (a, b)) r = refl

  settle-Follows :
      (b : Bool) (step_id : String) (payload : Json) (step : Step) (w : World T)
      → Follows T w ((settle T S b step_id payload step w).1)
  unfolding settle
  settle-Follows false step_id payload step w = Follows-refl T w
  settle-Follows true step_id payload step w = elim (Option-cases (Steps.get step_id w.steps)) [
    | inl e ↦ rw e (Follows-refl T w)
    | inr (r, e) ↦ rw e (
        update-Follows T L step_id (resolved payload w.clock step (ocpp_error payload)) w
          (resolved_id payload w.clock step (ocpp_error payload))
          (resolved-settled payload w.clock step (ocpp_error payload)))
  ]

  module _ (step_id : String) (secret : Option String) (payload : Json) (w : World T) where
    answer-Follows :
        (x : Result (Option String) × World T) (step : Step)
        → Follows T w x.1
        → Follows T w (
            (and_then x (λ expected.
              guard T S (authorised secret expected)
              >> settle T S (is_running step.status) step_id payload step)).1)
    unfolding guard
    answer-Follows (err e, w1) step f = f
    answer-Follows (ok expected, w1) step f = elim (Bool-cases (authorised secret expected)) [
      | inl e ↦ rw e (
          Follows-trans T w w1 _ f
            (settle-Follows (is_running step.status) step_id payload step w1))
      | inr e ↦ rw e f
    ]

    -- Whatever a callback request does, where looking up the secret does no more than others may:
    -- time goes on, and every step keeps its status or gets a result, as the executor expects.
    pub receive_callback-Follows : Follows T w ((receive_callback T S step_id secret payload w).1)
    unfolding receive_callback the_run
    receive_callback-Follows = elim (Option-cases (Steps.get step_id w.steps)) [
      | inl e ↦ rw e (Follows-refl T w)
      | inr (step, e) ↦ elim (Option-cases (Runs.get step.run_id w.runs)) [
        | inl r ↦ rw (e, r) (Follows-refl T w)
        | inr (run, r) ↦
            rw (e, r) (answer-Follows _ step (laws.get_webhook_secret_follows run.tenant_id w))
      ]
    ]

    module _ (step : Step) (run : Run) (expected : Option String) (w1 : World T)
        (read : Steps.get step_id w.steps ≡ some step)
        (joined : Runs.get step.run_id w.runs ≡ some run)
        (looked_up : S.get_webhook_secret run.tenant_id w ≡ (ok expected, w1)) where
      -- A callback without the secret that is set, or with none set, is refused, and writes nothing.
      pub receive_callback_refused :
          authorised secret expected ≡ false
          → receive_callback T S step_id secret payload w
            ≡ (err (forbidden "Invalid or missing webhook secret"), w1)
      unfolding receive_callback the_run guard
      receive_callback_refused a = rw (read, joined, looked_up, a) refl

      -- A callback for a step that does not run is ignored, and writes nothing.
      pub receive_callback_ignored :
          authorised secret expected ≡ true
          → is_running step.status ≡ false
          → receive_callback T S step_id secret payload w ≡ (ok ignored, w1)
      unfolding receive_callback the_run guard settle
      receive_callback_ignored a b = rw (read, joined, looked_up, a, b) refl

      -- A callback with the right secret that read its step as running writes its result,
      -- whatever has become of the row while the secret was looked up: it fails with the code and
      -- the description if the payload is an OCPP CallError and passes if not, with the payload
      -- and the time; a result that the row has got since is replaced.
      pub receive_callback_replaces :
          (r : Step)
          → authorised secret expected ≡ true
          → is_running step.status ≡ true
          → Steps.get step_id w1.steps ≡ some r
          → (w2 : World T) × (receive_callback T S step_id secret payload w ≡ (ok done, w2))
            × ((q : Step) × (Steps.get step_id w2.steps ≡ some q)
                × Written payload w1.clock step r q)
      unfolding receive_callback the_run guard settle
      receive_callback_replaces r a b now = (
        record w1 {
          steps =
              Steps.update step_id (resolved payload w1.clock step (ocpp_error payload)) w1.steps;
        },
        rw (read, joined, looked_up, a, b, now) refl,
        (
          resolved payload w1.clock step (ocpp_error payload) r,
          ground (
            arith,
            now,
            L.get-update step_id step_id (resolved payload w1.clock step (ocpp_error payload))
                w1.steps (resolved_id payload w1.clock step (ocpp_error payload)),
          ),
          resolved-Written payload w1.clock step r,
        ),
      )
