-- ===== src/Ops/Whitelist.antt =====
-- ops-agent/src/whitelist.ts and ops-agent/src/auth.ts.
use vibe_ocpp.Prelude.{
  String, Bool, true, false, ◌&&◌, Option, none, some, List, [], ◌∷◌, any, length, ◌==◌, nat_eq,
  truthy,
}
use vibe_ocpp.Settings.Encryption.{Bytes}

unfoldable pub allowed_services : List String
allowed_services = "product-db" ∷ "backend" ∷ "citrineos-payment" ∷ "directus" ∷ "hasura" ∷ []

unfoldable pub is_allowed_service : String → Bool
unfolding allowed_services
is_allowed_service name = any (λ s. s == name) allowed_services

-- A header of a request: sent once, several times, or not.
pub data Header : Type 0 where
  absent : Header
  one : String → Header
  many : List String → Header

abbrev pub provided : Header → Option String
provided absent = none
provided (one s) = some s
provided (many []) = none
provided (many (s ∷ rest)) = some s

-- `timingSafeEqual` on two buffers of one length.
abbrev pub same_bytes : Bytes → Bytes → Bool
same_bytes [] [] = true
same_bytes (a ∷ p) (b ∷ q) = nat_eq a b && same_bytes p q
same_bytes _ _ = false

-- `utf8` is `Buffer.from`.
unfoldable pub matches : (String → Bytes) → Option String → String → Bool
matches utf8 none shared_secret = false
matches utf8 (some s) shared_secret =
    truthy s
    && nat_eq (length (utf8 s)) (length (utf8 shared_secret))
    && same_bytes (utf8 s) (utf8 shared_secret)

unfoldable pub is_authorized : (String → Bytes) → Header → String → Bool
unfolding matches
is_authorized utf8 header shared_secret = matches utf8 (provided header) shared_secret
