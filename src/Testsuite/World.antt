-- ===== src/Testsuite/World.antt =====
-- What the test suite works on: its tables, the clock, and the services around it, which other
-- modules of backend/src and CitrineOS answer. Other requests are handled while a call or a sleep
-- is under way, so every service may leave another world behind; the laws say what they do not do.
pub mod Following
use vibe_ocpp.Prelude.{
  ℕ, ◌+◌, ◌≤◌, String, ◌≡◌, Bool, true, false, ◌⊎◌, Option, none, some, List, Result, Action,
}
use vibe_ocpp.Prelude.Json.{Json}
use vibe_ocpp.Database.{Table}
use vibe_ocpp.Testsuite.Rows.{Run, Step, StepStatus, settled}

pub record Tables : Type 1 where
  pub Runs : Table Run (λ r. r.id)
  pub Steps : Table Step (λ r. r.id)

-- The requests of the message API that a command step sends, without their bodies.
pub data Command : Type 0 where
  request_start_transaction request_stop_transaction reset get_variables data_transfer : Command

-- The columns of a logged message that a step stores.
pub record Message : Type 0 where
  pub info : Json
  pub raw_message : Json

module _ (T : Tables) where
  open T use {Runs, Steps}

  pub record World : Type 0 where
    pub runs : Runs.Store
    pub steps : Steps.Store
    pub clock : ℕ

  -- `trigger_message` and `send` answer the `success` of each confirmation.
  pub record Services : Type 0 where
    pub trigger_message : String → List String → Option String → Action World (List Bool)
    pub send : String → List String → Command → Json → String → Action World (List Bool)
    pub get_webhook_base_url : String → Action World String
    pub get_webhook_secret : String → Action World (Option String)
    -- tenant, connection, action, origin, and the instant after which
    pub find_first_after : String → String → String → String → ℕ → Action World (Option Message)
    pub sleep : ℕ → World → World
    pub encode_uri_component : String → String

  -- What others may do to a step: leave its status, or give it its result.
  abbrev pub Continues : Step → Step → Type 0
  Continues s s' = (s'.status ≡ s.status) ⊎ (settled s'.status ≡ true)

  -- What others may do to the world: time goes on, and no step is lost or started over.
  pub record Follows (w w' : World) : Type 0 where
    pub later : w.clock ≤ w'.clock
    pub kept :
        (k : String) (s : Step)
        → Steps.get k w.steps ≡ some s
        → (s' : Step) × (Steps.get k w'.steps ≡ some s') × Continues s s'

  pub record ServicesLaws (S : Services) : Type 0 where
    pub trigger_message_follows :
        (t : String) (ids : List String) (m : Option String) (w : World)
        → Follows w ((S.trigger_message t ids m w).1)
    pub send_follows :
        (t : String) (ids : List String) (c : Command) (body : Json) (url : String) (w : World)
        → Follows w ((S.send t ids c body url w).1)
    pub get_webhook_base_url_follows :
        (t : String) (w : World) → Follows w ((S.get_webhook_base_url t w).1)
    pub get_webhook_secret_follows :
        (t : String) (w : World) → Follows w ((S.get_webhook_secret t w).1)
    pub find_first_after_follows :
        (t c a o : String) (since : ℕ) (w : World)
        → Follows w ((S.find_first_after t c a o since w).1)
    pub sleep_follows : (n : ℕ) (w : World) → Follows w (S.sleep n w)
    pub sleep_time : (n : ℕ) (w : World) → w.clock + n ≤ (S.sleep n w).clock
