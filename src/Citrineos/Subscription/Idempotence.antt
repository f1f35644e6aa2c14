-- ===== src/Citrineos/Subscription/Idempotence.antt =====
-- A connection that is registered already.
use vibe_ocpp.Prelude.{String, ◌≡◌, true, false, some, ◌⊎◌}
use vibe_ocpp.Prelude.Json.{Json, str, Items, nil, cons, Fields, property, as_text}
use vibe_ocpp.Citrineos.Subscription.{truthy_json, fields_of}

-- A subscription of the URL, whose three flags are set, and one that lacks some of that.
abbrev pub IsSubscribed : String → Fields → Type 0
IsSubscribed url fs =
    (property fs "url" ≡ some (str url))
    × (truthy_json (property fs "onMessage") ≡ true)
    × (truthy_json (property fs "onConnect") ≡ true)
    × (truthy_json (property fs "onClose") ≡ true)

abbrev pub IsUnsubscribed : String → Fields → Type 0
IsUnsubscribed url fs =
    (¬ (as_text (property fs "url") ≡ some url))
    ⊎ (truthy_json (property fs "onMessage") ≡ false)
    ⊎ (truthy_json (property fs "onConnect") ≡ false)
    ⊎ (truthy_json (property fs "onClose") ≡ false)

-- A list of subscriptions, none of them `null`, and whether one is of the URL with all events.
pub data IsListed (url : String) : Items → Type 0 where
  first :
      (j : Json) (fs : Fields) (rest : Items)
      → fields_of j ≡ some fs
      → IsSubscribed url fs
      → IsListed url (cons j rest)
  further :
      (j : Json) (fs : Fields) (rest : Items)
      → fields_of j ≡ some fs
      → IsListed url rest
      → IsListed url (cons j rest)

pub data IsUnlisted (url : String) : Items → Type 0 where
  empty : IsUnlisted url nil
  another :
      (j : Json) (fs : Fields) (rest : Items)
      → fields_of j ≡ some fs
      → IsUnsubscribed url fs
      → IsUnlisted url rest
      → IsUnlisted url (cons j rest)
