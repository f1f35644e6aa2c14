-- ===== src/Testsuite/Executor/Settles.antt =====
-- How the execution of a step ends, of testsuite-step-executor.service.ts.
use vibe_ocpp.Prelude.{
  ℕ, ◌+◌, ◌≤◌, String, ◌≡◌, refl, sym, ◌∙◌, ap, Bool, true, false, inl, inr, Option, none, some, [],
  ◌∷◌, arith, Result, ok, err, and_then, Bool-cases,
}
use vibe_ocpp.Prelude.Json.{Json, str, obj, end}
use mathlib.Core.Option
use vibe_ocpp.Prelude.Post.{Case, Post, chain, rescue}
use vibe_ocpp.Database.{TableLaws}
use vibe_ocpp.Testsuite.Rows.{
  StepKind, trigger, command, observe, StepDefinition, RunParams, Run, StepStatus, running, pass,
  fail, timeout, skipped, Step, is_running, is_pending, settled,
}
use vibe_ocpp.Testsuite.Commands.{optional, given, build_command_request}
use vibe_ocpp.Testsuite.PollUntil.{poll_until_lem, Ends}
use vibe_ocpp.Testsuite.World.{
  Tables, World, Services, ServicesLaws, Follows, Continues, Message, Command,
}
use vibe_ocpp.Testsuite.Executor.{
  Act, without_response, with_match, Outcome, finished, started, mark_running, finish, conclude,
  wait_for_message, conclude_observation, observe_unless, announce, run_trigger_or_observe,
  answered, triggered, undelivered, callback_url, sent, unless_resolved, await_callback,
  send_command, run_built, run_command, run_kind, execute,
}

settled_begun : (x : StepStatus) → settled x ≡ true → is_pending x ≡ false
settled_begun StepStatus.pending h = sym h
settled_begun running h = refl
settled_begun pass h = refl
settled_begun fail h = refl
settled_begun timeout h = refl
settled_begun skipped h = refl

stopped_settled : (x : StepStatus) → is_pending x ≡ false → is_running x ≡ false → settled x ≡ true
stopped_settled StepStatus.pending h r = sym h
stopped_settled running h r = sym r
stopped_settled pass h r = refl
stopped_settled fail h r = refl
stopped_settled timeout h r = refl
stopped_settled skipped h r = refl

module _ (T : Tables) (L : TableLaws T.Steps) (S : Services T) (laws : ServicesLaws T S)
    (step : Step) where
  open T use {Steps}

  abbrev k : String
  k = step.id

  abbrev Exists : World T → Type 0
  Exists w = (s : Step) × (Steps.get k w.steps ≡ some s)

  abbrev Begun : World T → Type 0
  Begun w = (s : Step) × (Steps.get k w.steps ≡ some s) × (is_pending s.status ≡ false)

  abbrev pub IsSettled : World T → Type 0
  IsSettled w = (s : Step) × (Steps.get k w.steps ≡ some s) × (settled s.status ≡ true)

  still-Exists : (w w' : World T) → Follows T w w' → Exists w → Exists w'
  still-Exists w w' f (s, g) = let (s', g', _) = f.kept k s g in (s', g')

  not_pending :
      (s s' : Step) → Continues T s s' → is_pending s.status ≡ false → is_pending s'.status ≡ false
  not_pending s s' (inl e) h = ap is_pending e ∙ h
  not_pending s s' (inr e) h = settled_begun s'.status e

  still-Begun : (w w' : World T) → Follows T w w' → Begun w → Begun w'
  still-Begun w w' f (s, g, h) = let (s', g', c) = f.kept k s g in (s', g', not_pending s s' c h)

  Begun-Exists : (w : World T) → Begun w → Exists w
  Begun-Exists w (s, g, _) = (s, g)

  called :
      {A : Type 0} (w : World T) (x : Result A × World T)
      → Follows T w x.1
      → Exists w
      → Post (λ a w'. Exists w') Exists x
  unfolding Case
  called w (ok a, w') f h = record { holds = still-Exists w w' f h }
  called w (err e, w') f h = record { holds = still-Exists w w' f h }

  called-Begun :
      {A : Type 0} (w : World T) (x : Result A × World T)
      → Follows T w x.1
      → Begun w
      → Post (λ a w'. Begun w') Exists x
  unfolding Case
  called-Begun w (ok a, w') f h = record { holds = still-Begun w w' f h }
  called-Begun w (err e, w') f h = record { holds = Begun-Exists w' (still-Begun w w' f h) }

  finish_rule :
      (F : World T → Type 0) (o : Outcome) (w : World T)
      → settled o.status ≡ true
      → Exists w
      → Post (λ a w'. IsSettled w') F (finish T S k o w)
  unfolding finish Case
  finish_rule F o w st (s, g) = rw g (record {
    holds =
        (finished o s, ground (arith, g, L.get-update k k (finished o) w.steps (λ r. refl)), st);
  })

  mark_rule :
      (at : ℕ) (payload : Option Json) (w : World T)
      → Exists w
      → Post (λ a w'. Begun w') Exists (mark_running T S k at payload w)
  unfolding mark_running Case
  mark_rule at payload w (s, g) = rw g (record {
    holds = (
      started at payload s,
      ground (arith, g, L.get-update k k (started at payload) w.steps (λ r. refl)),
      refl,
    );
  })

  chain-Ends :
      {A B : Type 0} {R : B → World T → Type 0} {F : World T → Type 0} (Gone : World T → Type 0)
      (Found : A → World T → Type 0) (x : Result (Option A) × World T) (f : Option A → Act T S B)
      → Ends (λ w. w.clock) S.sleep (λ w. x) Gone Found F x
      → ((w : World T) → Gone w → Post R F (f none w))
      → ((a : A) (w : World T) → Found a w → Post R F (f (some a) w))
      → Post R F (and_then x f)
  unfolding Case
  chain-Ends Gone Found (ok none, w) f h g t = g w h
  chain-Ends Gone Found (ok (some a), w) f h g t = t a w h
  chain-Ends Gone Found (err e, w) f h g t = record { holds = h }

  concluded :
      {A : Type 0} (F : World T → Type 0) (x : Result A × World T)
      → Post (λ a w'. IsSettled w') F x
      → Post (λ a w'. IsSettled w') F (and_then x (λ a w'. (ok (tt {0}), w')))
  unfolding Case
  concluded F (ok a, w) h = record { holds = h.holds }
  concluded F (err e, w) h = record { holds = h.holds }

  marked :
      {A B : Type 0} (b : B) (x : Result A × World T)
      → Post (λ a w'. Begun w') Exists x
      → Post (λ a w'. Exists w') Exists (and_then x (λ a w'. (ok b, w')))
  unfolding Case
  marked b (ok a, w) h = record { holds = Begun-Exists w h.holds }
  marked b (err e, w) h = record { holds = h.holds }

  conclude_rule :
      (F : World T → Type 0) (status : StepStatus) (text : String) (since : Option ℕ) (w : World T)
      → settled status ≡ true
      → Exists w
      → Post (λ a w'. IsSettled w') F (conclude T S k status text since w)
  unfolding conclude
  conclude_rule F status text since w st h =
      concluded F _ (finish_rule F (without_response status text since w.clock) w st h)

  message-Ends :
      {A : Type 0} (w : World T) (x : Result (Option A) × World T)
      → Follows T w x.1
      → Exists w
      → Ends (λ w. w.clock) S.sleep (λ w. x) Exists (λ m w'. Exists w') Exists x
  message-Ends w (ok none, w') f h = still-Exists w w' f h
  message-Ends w (ok (some m), w') f h = still-Exists w w' f h
  message-Ends w (err e, w') f h = still-Exists w w' f h

  -- The step as its command's wait reads it.
  answer-Ends :
      (w : World T) (o : Option Step)
      → Steps.get k w.steps ≡ o
      → Begun w
      → Ends
          (λ w. w.clock)
          S.sleep
          (λ w. (ok (answered T S o), w))
          Begun
          (λ s w'. IsSettled w')
          Exists
          (ok (answered T S o), w)
  unfolding answered
  answer-Ends w none e (s, g, h) = ground (arith, e, g)
  answer-Ends w (some q) e (s, g, h) = elim (Bool-cases (is_running q.status)) [
    | inl r ↦ rw r (s, g, h)
    | inr r ↦ rw r (q, e, stopped_settled q.status (ground (arith, e, g, h)) r)
  ]

  module _ (run : Run) (definition : StepDefinition) (at : ℕ) where
    observation_rule :
        (m : Option Message) (w : World T)
        → Exists w
        → Post (λ a w'. IsSettled w') Exists (conclude_observation T S step definition at m w)
    unfolding conclude_observation
    observation_rule none w h = (conclude_rule Exists timeout _ (some at) w refl h)
    observation_rule (some m) w h =
        (concluded Exists _ (finish_rule Exists (with_match m at w.clock) w refl h))

    observe_rule :
        (lost : Bool) (w : World T)
        → Exists w
        → Post (λ a w'. IsSettled w') Exists (observe_unless T S lost run step definition at w)
    unfolding observe_unless wait_for_message
    observe_rule true w h = (conclude_rule Exists fail _ (some at) w refl h)
    observe_rule false w h =
        chain-Ends (λ w'. Exists w' × (w.clock + definition.timeout_ms ≤ w'.clock))
          (λ m w'. Exists w') _ (conclude_observation T S step definition at)
          (poll_until_lem (λ w. w.clock) S.sleep
            (S.find_first_after run.tenant_id run.ocpp_connection_name definition.action
              "ChargingStation" at)
            Exists (λ m w'. Exists w') Exists 1000 (omega arith)
            (λ w h. message-Ends w _ (laws.find_first_after_follows _ _ _ _ _ w) h)
            (λ n w h. still-Exists w _ (laws.sleep_follows n w) h)
            (λ w. (laws.find_first_after_follows _ _ _ _ _ w).later) laws.sleep_time
            definition.timeout_ms w h)
          (λ w' g. observation_rule none w' g.0) (λ m w' g. observation_rule (some m) w' g)

    announce_rule :
        (send_trigger : Bool) (w : World T)
        → Exists w
        → Post (λ a w'. Exists w') Exists (announce T S send_trigger run step definition at w)
    unfolding announce triggered
    announce_rule true w h =
        chain
          (S.trigger_message run.tenant_id (run.ocpp_connection_name ∷ [])
            definition.requested_message w)
          (triggered T S step definition at) (called w _ (laws.trigger_message_follows _ _ _ w) h)
          (λ c w' g. marked (undelivered T S c) _ (
            mark_rule at
              (some (
                obj
                  (optional "requestedMessage" (Option.map str definition.requested_message) end)))
              w' g))
    announce_rule false w h = marked false _ (mark_rule at none w h)

    trigger_rule :
        (send_trigger : Bool) (w : World T)
        → Exists w
        → Post
            (λ a w'. IsSettled w')
            Exists
            (run_trigger_or_observe T S run step definition at send_trigger w)
    unfolding run_trigger_or_observe
    trigger_rule send_trigger w h =
        chain _ (λ lost. observe_unless T S lost run step definition at)
          (announce_rule send_trigger w h) observe_rule

    unless_rule :
        (s : Step) (w : World T)
        → IsSettled w
        → Post (λ a w'. IsSettled w') Exists (unless_resolved T S step at (some s) w)
    unfolding unless_resolved Case
    unless_rule s w h = record { holds = h }

    timed_out_rule :
        (w : World T)
        → Begun w
        → Post (λ a w'. IsSettled w') Exists (unless_resolved T S step at none w)
    unfolding unless_resolved
    timed_out_rule w h = conclude_rule Exists timeout _ (some at) w refl (Begun-Exists w h)

    await_rule :
        (lost : Bool) (w : World T)
        → Begun w
        → Post (λ a w'. IsSettled w') Exists (await_callback T S lost step definition at w)
    unfolding await_callback
    await_rule true w h = conclude_rule Exists fail _ (some at) w refl (Begun-Exists w h)
    await_rule false w h =
        chain-Ends (λ w'. Begun w' × (w.clock + definition.timeout_ms ≤ w'.clock))
          (λ s w'. IsSettled w') _ (unless_resolved T S step at)
          (poll_until_lem (λ w. w.clock) S.sleep (λ w. (ok (answered T S (Steps.get k w.steps)), w))
            Begun (λ s w'. IsSettled w') Exists 1000 (omega arith)
            (λ w h. answer-Ends w (Steps.get k w.steps) refl h)
            (λ n w h. still-Begun w _ (laws.sleep_follows n w) h) (λ w. omega arith) laws.sleep_time
            definition.timeout_ms w h)
          (λ w' g. timed_out_rule w' g.0) unless_rule

    sending_rule :
        (c : Command) (body : Json) (base secret : Option String) (w : World T)
        → Exists w
        → Post
            (λ a w'. IsSettled w')
            Exists
            (send_command T S run step definition at (c, body) base secret w)
    unfolding send_command sent
    sending_rule c body none secret w h = conclude_rule Exists fail _ none w refl h
    sending_rule c body (some base) none w h = conclude_rule Exists fail _ none w refl h
    sending_rule c body (some base) (some secret) w h =
        chain _
          (λ s w.
            and_then
              (S.send run.tenant_id (run.ocpp_connection_name ∷ []) c body
                (callback_url T S base step secret) w)
              (sent T S step definition at))
          (mark_rule at (some body) w h)
          (λ s w' g.
            chain
              (S.send run.tenant_id (run.ocpp_connection_name ∷ []) c body
                (callback_url T S base step secret) w')
              (sent T S step definition at) (called-Begun w' _ (laws.send_follows _ _ _ _ _ w') g)
              (λ c. await_rule (undelivered T S c)))

    command_rule :
        (built : Option (Command × Json)) (w : World T)
        → Exists w
        → Post (λ a w'. IsSettled w') Exists (run_built T S run step definition at built w)
    unfolding run_built
    command_rule none w h = conclude_rule Exists skipped _ none w refl h
    command_rule (some (c, body)) w h =
        chain (S.get_webhook_base_url run.tenant_id w)
          (λ base w. and_then (S.get_webhook_secret run.tenant_id w) (λ secret.
            send_command T S run step definition at (c, body) (given (some base)) (given secret)))
          (called w _ (laws.get_webhook_base_url_follows _ w) h)
          (λ base w' g.
            chain (S.get_webhook_secret run.tenant_id w')
              (λ secret.
                send_command T S run step definition at (c, body) (given (some base))
                  (given secret))
              (called w' _ (laws.get_webhook_secret_follows _ w') g)
              (λ secret w2 g2. sending_rule c body (given (some base)) (given secret) w2 g2))

    kind_rule :
        (kind : StepKind) (params : RunParams) (w : World T)
        → Exists w
        → Post (λ a w'. IsSettled w') Exists (run_kind T S kind run step definition params at w)
    unfolding run_kind run_command
    kind_rule trigger params w h = trigger_rule true w h
    kind_rule observe params w h = trigger_rule false w h
    kind_rule command params w h = command_rule (build_command_request definition.action params) w h

  execute_rule :
      (run : Run) (definition : StepDefinition) (params : RunParams) (w : World T)
      → Exists w
      → Post (λ a w'. IsSettled w') (λ w'. ⊥) (execute T S run step definition params w)
  unfolding execute
  execute_rule run definition params w h =
      rescue _ _ (kind_rule run definition w.clock definition.kind params w h)
        (λ e w' g. conclude_rule (λ w'. ⊥) fail _ (some w.clock) w' refl g)

  certain :
      (x : Result (Unit {0}) × World T)
      → Post (λ a w'. IsSettled w') (λ w'. ⊥) x
      → (w' : World T) × (x ≡ (ok tt, w')) × IsSettled w'
  unfolding Case
  certain (ok tt, w) h = (w, refl, h.holds)
  certain (err e, w) h = absurd h.holds

  -- Where others only let time go on and settle steps, the execution of a step whose row exists
  -- ends without an error, with a result for the step: it passed, failed, timed out or was skipped.
  pub execute_settles :
      (run : Run) (definition : StepDefinition) (params : RunParams) (w : World T)
      → ((s : Step) × (Steps.get step.id w.steps ≡ some s))
      → (w' : World T) × (execute T S run step definition params w ≡ (ok tt, w')) × IsSettled w'
  execute_settles run definition params w h = certain _ (execute_rule run definition params w h)
