-- ===== src/Prelude/Set.antt =====
-- A JavaScript `Set` of numbers or of texts, as the list of its members.
use Prim.Native.Nat.{ℕ}
use mathlib.Core.Bool.{Bool, false, ◌||◌}
use mathlib.Core.List.{List, [], ◌∷◌}
use anti_soon.Prelude.Tests.{◌==◌, if◌then◌else◌}
use Prim.Native.String.{String}
use text.Mathlib.Text.{◌==◌ as str_eq}

abbrev pub contains : ℕ → List ℕ → Bool
contains n [] = false
contains n (x ∷ xs) = x == n || contains n xs

-- `set.add(n)`
abbrev pub add : ℕ → List ℕ → List ℕ
add n xs = if contains n xs then xs else n ∷ xs

abbrev pub contains_text : String → List String → Bool
contains_text s [] = false
contains_text s (x ∷ xs) = str_eq x s || contains_text s xs

abbrev pub add_text : String → List String → List String
add_text s xs = if contains_text s xs then xs else s ∷ xs
