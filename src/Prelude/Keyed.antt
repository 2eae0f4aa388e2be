-- ===== src/Prelude/Keyed.antt =====
-- A JavaScript `Map` whose keys are numbers, or pairs of numbers, in the place of their decimal texts:
-- its entries in insertion order. A key is known again by the test `same`.
use mathlib.Core.Path.{◌≡◌, refl}
use mathlib.Core.Logic.{◌↔◌}
use mathlib.Core.Bool.{Bool, true}
use mathlib.Core.Option.{Option, none, some}
use mathlib.Core.List.{List, [], ◌∷◌}
use native.Mathlib.Omega.{arith}
use anti_soon.Prelude.Tests.{if◌then◌else◌}

module _ {K V : Type 0} (same : K → K → Bool) where
  -- `m.get(k)`
  unfoldable pub get : List (K × V) → K → Option V
  get [] k = none
  get ((j, v) ∷ m) k = if same j k then some v else get m k

  -- `m.set(k, v)`
  unfoldable pub set : List (K × V) → K → V → List (K × V)
  set [] k v = (k, v) ∷ []
  set ((j, w) ∷ m) k v = if same j k then (j, v) ∷ m else (j, w) ∷ set m k v

  pub get-set :
      ((j k : K) → (same j k ≡ true) ↔ (j ≡ k))
      → (m : List (K × V)) (k j : K) (v : V)
      → get (set m k v) j ≡ (if same k j then some v else get m j)
  unfolding get set
  get-set law [] k j v = refl
  get-set law ((i, w) ∷ m) k j v = ground (arith, law k j, law i k, law i j, get-set law m k j v)
