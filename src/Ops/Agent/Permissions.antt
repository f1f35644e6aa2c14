-- ===== src/Ops/Agent/Permissions.antt =====
-- Which calls of Docker a request to ops-agent/src/main.ts can lead to.
use vibe_ocpp.Prelude.{
  ℕ, String, ◌≡◌, refl, true, false, ◌⊎◌, inl, inr, Option, none, some, List, [], ◌∷◌, Bool-cases,
  get_or,
}
use vibe_ocpp.Settings.Encryption.{Bytes}
use vibe_ocpp.Ops.Whitelist.{is_allowed_service, allowed_services, is_authorized}
use vibe_ocpp.Ops.Frames.{demux_docker_log_buffer}
use vibe_ocpp.Ops.Docker.{
  OpsError, unknown_service, container_not_found, other, Outcome, done, thrown, Container, Call,
  list_containers, container_logs, container_restart, Docker, Act, and_then, ◌>>=◌, pure, status_of,
  container_or_throw, read_logs, restarted, find_container, get_status, statuses, get_status_all,
  get_logs, restart,
}
use vibe_ocpp.Ops.Agent.{
  Request, Response, response, failed, is_route, target, handle_request, routed, caught, tail_of,
  status_list, one_status, service_logs, restarted_service,
}

module _ (D : Docker) where
  -- The last call listed the containers of an allowed service, and `id` is the first of them.
  pub record IsFound (s : List Call) (service id : String) : Type 0 where
    pub before : List Call
    pub container : Container
    pub rest : List Container
    pub last_call : s ≡ list_containers service ∷ before
    pub listed : D.containers before service ≡ done (container ∷ rest)
    pub named : container.id ≡ id
    pub allowed : is_allowed_service service ≡ true

  -- What a request may do after the calls `s`.
  pub data IsPermitted (req : Request) (s : List Call) : Call → Type 0 where
    lists :
        (service : String)
        → is_allowed_service service ≡ true
        → IsPermitted req s (list_containers service)
    reads :
        (service id : String) (tail : Option ℕ)
        → IsFound s service id
        → IsPermitted req s (container_logs id tail)
    restarts :
        (service id : String)
        → IsFound s service id
        → is_route req "POST" "restart" ≡ true
        → target req ≡ some service
        → IsPermitted req s (container_restart id)

  -- More calls, each permitted after those before it.
  pub data Grows (req : Request) (s : List Call) : List Call → Type 0 where
    same : Grows req s s
    more : {t : List Call} {c : Call} → Grows req s t → IsPermitted req t c → Grows req s (c ∷ t)

  -- What a look-up comes to.
  data Found (service : String) (s : List Call)
      : Outcome (Option Container) × List Call → Type 0 where
    refused :
        is_allowed_service service ≡ false → Found service s (thrown (unknown_service service), s)
    broken :
        (e : OpsError)
        → is_allowed_service service ≡ true
        → Found service s (thrown e, list_containers service ∷ s)
    absent :
        is_allowed_service service ≡ true → Found service s (done none, list_containers service ∷ s)
    there :
        (c : Container)
        → is_allowed_service service ≡ true
        → IsFound (list_containers service ∷ s) service c.id
        → Found service s (done (some c), list_containers service ∷ s)

  listed_cases :
      (service : String) (s : List Call) (o : Outcome (List Container))
      → is_allowed_service service ≡ true
      → D.containers s service ≡ o
      → Found service s (find_container D service s)
  unfolding find_container
  listed_cases service s (thrown e) a b = rw (a, b) (broken e a)
  listed_cases service s (done []) a b = rw (a, b) (absent a)
  listed_cases service s (done (c ∷ rest)) a b =
      rw (a, b)
        (there c a (record {
          before = s;
          container = c;
          rest = rest;
          last_call = refl;
          listed = b;
          named = refl;
          allowed = a;
        }))

  find_cases : (service : String) (s : List Call) → Found service s (find_container D service s)
  unfolding find_container
  find_cases service s = elim (Bool-cases (is_allowed_service service)) [
    | inr a ↦ rw a (refused a)
    | inl a ↦ listed_cases service s (D.containers s service) a refl
  ]

  status_lem :
      (service : String) (t : List Call)
      → get_status D service t
        ≡ and_then (find_container D service t) (λ c. pure (status_of D service c))
  unfolding get_status find_container
  status_lem service t = elim (Bool-cases (is_allowed_service service)) [
    | inr a ↦ rw a refl
    | inl a ↦ rw a refl
  ]

  logs_lem :
      (service : String) (tail : Option (Option ℕ)) (t : List Call)
      → get_logs D service tail t
        ≡ and_then (find_container D service t) (λ found.
          container_or_throw D service found >>= λ container.
          read_logs D container (get_or tail (some 200)) >>= λ buffer.
          pure (demux_docker_log_buffer D.decode buffer))
  unfolding get_logs find_container
  logs_lem service tail t = elim (Bool-cases (is_allowed_service service)) [
    | inr a ↦ rw a refl
    | inl a ↦ rw a refl
  ]

  restart_lem :
      (service : String) (t : List Call)
      → restart D service t
        ≡ and_then
            (find_container D service t)
            (λ found. container_or_throw D service found >>= λ container. restarted D container)
  unfolding restart find_container
  restart_lem service t = elim (Bool-cases (is_allowed_service service)) [
    | inr a ↦ rw a refl
    | inl a ↦ rw a refl
  ]

  module _ (req : Request) (s : List Call) where
    -- A look-up and what follows it, which may add permitted calls once a container is found.
    found-Grows :
        {A : Type 0} (t : List Call) (service : String) (o : Outcome (Option Container) × List Call)
        (k : Option Container → Act A)
        → Grows req s t
        → Found service t o
        → ((u : List Call) → Grows req s u → Grows req s (k none u).1)
        → ((c : Container) (u : List Call)
            → Grows req s u
            → IsFound u service c.id
            → Grows req s (k (some c) u).1)
        → Grows req s (and_then o k).1
    found-Grows t service _ k g (refused _) n h = g
    found-Grows t service _ k g (broken e a) n h = more g (lists service a)
    found-Grows t service _ k g (absent a) n h = n _ (more g (lists service a))
    found-Grows t service _ k g (there c a f) n h = h c _ (more g (lists service a)) f

    -- What an action leaves behind does not depend on the pure step after it.
    then_pure :
        {A B : Type 0} (o : Outcome A × List Call) (f : A → B)
        → (and_then o (λ a. pure (f a))).1 ≡ o.1
    then_pure (done a, t) f = refl
    then_pure (thrown e, t) f = refl

    get_status-Grows :
        (t : List Call) (service : String) → Grows req s t → Grows req s (get_status D service t).1
    get_status-Grows t service g = rw (status_lem service t) (
        found-Grows t service (find_container D service t) (λ c. pure (status_of D service c)) g
          (find_cases service t) (λ u h. h) (λ c u h _. h))

    get_logs-Grows :
        (t : List Call) (service : String) (tail : Option (Option ℕ))
        → Grows req s t
        → Grows req s (get_logs D service tail t).1
    unfolding container_or_throw read_logs
    get_logs-Grows t service tail g = rw (logs_lem service tail t) (
        found-Grows t service (find_container D service t) _ g (find_cases service t) (λ u h. h)
          (λ c u h f.
            rw
              (then_pure
                (
                  D.logs u c.id (get_or tail (some 200)),
                  container_logs c.id (get_or tail (some 200)) ∷ u,
                )
                (λ buffer. demux_docker_log_buffer D.decode buffer))
              (more h (reads service c.id (get_or tail (some 200)) f))))

    restart-Grows :
        (t : List Call) (service : String)
        → is_route req "POST" "restart" ≡ true
        → target req ≡ some service
        → Grows req s t
        → Grows req s (restart D service t).1
    unfolding container_or_throw restarted
    restart-Grows t service a b g = rw (restart_lem service t) (
        found-Grows t service (find_container D service t) _ g (find_cases service t) (λ u h. h)
          (λ c u h f. more h (restarts service c.id f a b)))

    then-Grows :
        {A B : Type 0} (o : Outcome A × List Call) (k : A → Act B)
        → Grows req s o.1
        → ((x : A) (u : List Call) → Grows req s u → Grows req s (k x u).1)
        → Grows req s (and_then o k).1
    then-Grows (done a, t) k g h = h a t g
    then-Grows (thrown e, t) k g h = g

    statuses-Grows :
        (services : List String) (t : List Call)
        → Grows req s t
        → Grows req s (statuses D services t).1
    unfolding statuses
    statuses-Grows [] t g = g
    statuses-Grows (service ∷ rest) t g =
        then-Grows (get_status D service t) _ (get_status-Grows t service g)
          (λ x u h. rw (then_pure (statuses D rest u) (λ more. x ∷ more)) (statuses-Grows rest u h))

    then_answer :
        {A : Type 0} (o : Outcome A × List Call) (f : A → Response)
        → Grows req s o.1
        → Grows req s (caught (and_then o (λ a. pure (f a)))).1
    then_answer (done a, t) f g = g
    then_answer (thrown (unknown_service name), t) f g = g
    then_answer (thrown (container_not_found service), t) f g = g
    then_answer (thrown (other text), t) f g = g

    routed-Grows :
        (third : Option String) → target req ≡ third → Grows req s (caught (routed D req third s)).1
    unfolding routed get_status_all
    routed-Grows none a = elim (Bool-cases (is_route req "GET" "status")) [
      | inl b ↦ rw b (
          then_answer (get_status_all D s) (λ list. response 200 (status_list list))
            (statuses-Grows allowed_services s same))
      | inr b ↦ rw b same
    ]
    routed-Grows (some service) a = elim (Bool-cases (is_route req "GET" "status")) [
      | inl b ↦ rw b (
          then_answer (get_status D service s) (λ status. response 200 (one_status status))
            (get_status-Grows s service same))
      | inr b ↦ elim (Bool-cases (is_route req "GET" "logs")) [
        | inl c ↦
            rw (b, c)
              (then_answer (get_logs D service (tail_of D req.tail) s)
                (λ logs. response 200 (service_logs service logs))
                (get_logs-Grows s service (tail_of D req.tail) same))
        | inr c ↦ elim (Bool-cases (is_route req "POST" "restart")) [
          | inl d ↦
              rw (b, c, d)
                (then_answer (restart D service s)
                  (λ done'. response 200 (restarted_service service))
                  (restart-Grows s service d a same))
          | inr d ↦ rw (b, c, d) same
        ]
      ]
    ]

    -- Whatever Docker answers: a request without the shared secret is answered 401 and calls
    -- nothing. Any other lists containers of allowed services only, reads or restarts none but
    -- the first container that the call before listed for an allowed service, and restarts only
    -- for a POST of the path ops/restart with that service.
    pub handle_request-Grows :
        (utf8 : String → Bytes) (shared_secret : String)
        → ((is_authorized utf8 req.secret shared_secret ≡ true)
            × Grows req s (handle_request D utf8 shared_secret req s).1)
          ⊎ ((is_authorized utf8 req.secret shared_secret ≡ false)
              × (handle_request D utf8 shared_secret req s
                  ≡ (response 401 (failed "unauthorized"), s)))
    unfolding handle_request
    handle_request-Grows utf8 shared_secret =
        elim (Bool-cases (is_authorized utf8 req.secret shared_secret)) [
          | inl a ↦ inl (a, rw a (routed-Grows (target req) refl))
          | inr a ↦ inr (a, rw a refl)
        ]
