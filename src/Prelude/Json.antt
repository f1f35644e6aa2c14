-- ===== src/Prelude/Json.antt =====
-- Parsed JSON. Numbers are natural.
use Prim.Native.Nat.{ℕ}
use Prim.Native.String.{String}
use mathlib.Core.Bool.{Bool}
use mathlib.Core.Option.{Option, none, some}
use vibe_ocpp.Prelude.Tests.{◌==◌, if◌then◌else◌}

mutual
  pub data Json : Type 0 where
    null : Json
    bool : Bool → Json
    num : ℕ → Json
    str : String → Json
    arr : Items → Json
    obj : Fields → Json

  pub data Items : Type 0 where
    nil : Items
    cons : Json → Items → Items

  pub data Fields : Type 0 where
    end : Fields
    field : String → Json → Fields → Fields

-- `payload.key` of an object; a key written twice keeps its last value, so the parser leaves one.
abbrev pub property : Fields → String → Option Json
property end k = none
property (field j v fs) k = if j == k then some v else property fs k

abbrev pub as_text : Option Json → Option String
as_text (some (str s)) = some s
as_text _ = none
