-- ===== src/Prelude/Template.antt =====
-- Template literals: the text of the pieces in their order.
use Prim.Native.String
use Prim.Native.String.{String}
use mathlib.Core.List.{List, [], ◌∷◌}

unfoldable pub template : List String → String
template [] = ""
template (x ∷ xs) = String.◌++◌ x (template xs)
