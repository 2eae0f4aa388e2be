-- ===== src/Prelude/Json.antt =====
-- The values that `JSON.parse` reads, an array as the object of its indexes, and the files that hold
-- them. The keys of an object stand in the order of insertion.
use Prim.Native.Nat.{ℕ}
use Prim.Native.String.{String}
use mathlib.Core.Bool.{Bool}
use mathlib.Core.Option.{Option, none, some}
use mathlib.Core.List.{List, [], ◌∷◌}
use package.text.Mathlib.Text.{◌==◌ as str_eq}
use anti_soon.Prelude.Map.{Map}
use anti_soon.Prelude.Tests.{if◌then◌else◌}

mutual
  pub data Json : Type 0 where
    null : Json
    boolean : Bool → Json
    number : ℕ → Json
    text : String → Json
    object : Fields → Json

  pub data Fields : Type 0 where
    end : Fields
    field : (name : String) (value : Json) (later : Fields) → Fields

-- `value[name]`, where `none` is undefined
unfoldable pub property : Fields → String → Option Json
property end name = none
property (field n value later) name = if str_eq n name then some value else property later name

-- `Object.entries(value)`
unfoldable pub entries : Fields → List (String × Json)
entries end = []
entries (field n value later) = (n, value) ∷ entries later

-- The files by their paths; `none` for a text that is no JSON.
abbrev pub Disk : Type 0
Disk = Map (Option Json)
