-- ===== src/Ops/Docker.antt =====
-- ops-agent/src/docker-client.ts. dockerode is a parameter: what it answers to a call may depend on
-- all calls before; the state is the list of the calls made, the latest first.
use vibe_ocpp.Prelude.{ℕ, String, Bool, true, false, Option, none, some, List, [], ◌∷◌, get_or}
use vibe_ocpp.Prelude.Text.{◌+++◌}
use vibe_ocpp.Settings.Encryption.{Bytes}
use vibe_ocpp.Ops.Whitelist.{allowed_services, is_allowed_service}
use vibe_ocpp.Ops.Frames.{demux_docker_log_buffer}

-- The classes of errors, and any other exception.
pub data OpsError : Type 0 where
  unknown_service : String → OpsError
  container_not_found : String → OpsError
  other : String → OpsError

abbrev pub error_message : OpsError → String
error_message (unknown_service name) = "Unknown service: " +++ name
error_message (container_not_found service) = "No running container found for service: " +++ service
error_message (other text) = text

pub data Outcome (A : Type 0) : Type 0 where
  done : A → Outcome A
  thrown : OpsError → Outcome A

pub record Container : Type 0 where
  pub id : String
  pub state : String
  pub status : String

-- A call of dockerode; the listing is filtered by the label of a compose service. The tail is none
-- for a number that is not a natural one, such as NaN.
pub data Call : Type 0 where
  list_containers : String → Call
  container_logs : String → Option ℕ → Call
  container_restart : String → Call

pub record Docker : Type 0 where
  pub containers : List Call → String → Outcome (List Container)
  pub logs : List Call → String → Option ℕ → Outcome Bytes
  pub restart : List Call → String → Outcome (Unit {0})
  pub decode : Bytes → String
  -- `Number(text)`.
  pub number : String → Option ℕ

abbrev pub Act : Type 0 → Type 0
Act A = List Call → Outcome A × List Call

abbrev pub and_then : {A B : Type 0} → Outcome A × List Call → (A → Act B) → Outcome B × List Call
and_then (done a, s) f = f a s
and_then (thrown e, s) f = (thrown e, s)

infixl 5 ◌>>=◌ ◌>>◌
abbrev pub ◌>>=◌ : {A B : Type 0} → Act A → (A → Act B) → Act B
◌>>=◌ m f s = and_then (m s) f

abbrev pub ◌>>◌ : {A B : Type 0} → Act A → Act B → Act B
◌>>◌ m k s = and_then (m s) (λ _. k)

abbrev pub pure : {A : Type 0} → A → Act A
pure a s = (done a, s)

abbrev pub throw : {A : Type 0} → OpsError → Act A
throw e s = (thrown e, s)

pub record ServiceStatus : Type 0 where
  pub service : String
  pub found : Bool
  pub container_id : Option String
  pub state : Option String
  pub status : Option String

abbrev pub head : {A : Type 0} → List A → Option A
head [] = none
head (x ∷ xs) = some x

module _ (D : Docker) where
  listed : String → Act (List Container)
  listed service s = (D.containers s service, list_containers service ∷ s)

  -- `throw new UnknownServiceError` unless the name is allowed.
  allowed_or_throw : {A : Type 0} → Bool → String → Act A → Act A
  allowed_or_throw false service rest = throw (unknown_service service)
  allowed_or_throw true service rest = rest

  unfoldable pub find_container : String → Act (Option Container)
  unfolding allowed_or_throw listed
  find_container service =
      allowed_or_throw (is_allowed_service service) service
        (do containers ← listed service; pure (head containers))

  abbrev pub status_of : String → Option Container → ServiceStatus
  status_of service none = record {
    service = service;
    found = false;
    container_id = none;
    state = none;
    status = none;
  }
  status_of service (some c) = record {
    service = service;
    found = true;
    container_id = some c.id;
    state = some c.state;
    status = some c.status;
  }

  unfoldable pub get_status : String → Act ServiceStatus
  unfolding allowed_or_throw find_container
  get_status service =
      allowed_or_throw (is_allowed_service service) service
        (do container ← find_container service; pure (status_of service container))

  unfoldable pub statuses : List String → Act (List ServiceStatus)
  unfolding get_status
  statuses [] = pure []
  statuses (service ∷ rest) = do
    status ← get_status service
    more ← statuses rest
    pure (status ∷ more)

  -- `Promise.all`, with the calls one after another.
  unfoldable pub get_status_all : Act (List ServiceStatus)
  unfolding statuses
  get_status_all = statuses allowed_services

  unfoldable pub container_or_throw : String → Option Container → Act Container
  container_or_throw service none = throw (container_not_found service)
  container_or_throw service (some c) = pure c

  unfoldable pub read_logs : Container → Option ℕ → Act Bytes
  read_logs c tail s = (D.logs s c.id tail, container_logs c.id tail ∷ s)

  unfoldable pub restarted : Container → Act (Unit {0})
  restarted c s = (D.restart s c.id, container_restart c.id ∷ s)

  -- The tail may be left out.
  unfoldable pub get_logs : String → Option (Option ℕ) → Act String
  unfolding allowed_or_throw find_container container_or_throw read_logs
  get_logs service tail = allowed_or_throw (is_allowed_service service) service (do
    found ← find_container service
    container ← container_or_throw service found
    buffer ← read_logs container (get_or tail (some 200))
    pure (demux_docker_log_buffer D.decode buffer))

  unfoldable pub restart : String → Act (Unit {0})
  unfolding allowed_or_throw find_container container_or_throw restarted
  restart service = allowed_or_throw (is_allowed_service service) service (do
    found ← find_container service
    container ← container_or_throw service found
    restarted container)
