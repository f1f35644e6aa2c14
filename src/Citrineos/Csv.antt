-- ===== src/Citrineos/Csv.antt =====
-- `toCsv` of backend/src/citrineos/citrineos-messages.controller.ts. Writing an instant is a parameter.
pub mod Reading
use Prim.Native.Char.{Char}
use Prim.Native.String
use Prim.Native.String.{String, [], ◌∷◌}
use mathlib.Core.List.{List, [], ◌∷◌, map}
use vibe_ocpp.Prelude.{ℕ, Option, none, some, get_or, ◌==◌, if◌then◌else◌}
use vibe_ocpp.Prelude.Text.{◌+++◌}
use vibe_ocpp.Citrineos.Log.{MessageEvent, connected, closed, message, MessageLog, action_of}

-- `f.replace(/"/g, '""')`
abbrev pub doubled : String → String
doubled [] = ""
doubled (c ∷ s) =
    let rest = doubled s in if (c ∷ "") == "\"" then "\"" ∷ ("\"" ∷ rest) else c ∷ rest

abbrev pub quoted : String → String
quoted f = "\"" ∷ (doubled f +++ "\"")

-- `xs.join(separator)`
abbrev pub joined : Char → List String → String
joined separator [] = ""
joined separator (x ∷ []) = x
joined separator (x ∷ y ∷ rest) = x +++ (separator ∷ joined separator (y ∷ rest))

abbrev pub event_name : MessageEvent → String
event_name connected = "connected"
event_name closed = "closed"
event_name message = "message"

abbrev pub fields : (ℕ → String) → MessageLog → List String
fields to_iso m =
    to_iso m.received_at
    ∷ m.ocpp_connection_name
    ∷ event_name m.event
    ∷ get_or m.origin ""
    ∷ get_or (action_of m.info) ""
    ∷ get_or m.raw_message ""
    ∷ []

abbrev pub row : List String → String
row fs = joined "," (map quoted fs)

abbrev pub header : String
header = "receivedAt,ocppConnectionName,event,origin,action,rawMessage\n"

unfoldable pub to_csv : (ℕ → String) → List MessageLog → String
to_csv to_iso messages = header +++ joined "\n" (map (λ m. row (fields to_iso m)) messages)
