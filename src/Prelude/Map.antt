-- ===== src/Prelude/Map.antt =====
-- A JavaScript `Map` with string keys, as its entries in insertion order. Writing an old key keeps
-- its place, a new key goes to the end.
use Prim.Native.String.{String}
use mathlib.Core.Path.{◌≡◌, refl, ap}
use mathlib.Core.Logic.{inl, inr}
use mathlib.Core.Bool.{Bool, true, false}
use mathlib.Core.Option.{Option, none, some}
use mathlib.Core.List.{List, [], ◌∷◌, ◌++◌}
use native.Mathlib.Omega.{arith}
use text.Mathlib.Text.{◌==◌}
use text.Mathlib.TextEquality.{eq_iff}
use text.Mathlib.TextPositions.{eq_refl}
use Prim.Native.Nat.{suc}
use anti_soon.Prelude.Tests.{if◌then◌else◌, Option-cases}
use anti_soon.Prelude.Lists.{length}

abbrev pub Map {ℓ} : Type ℓ → Type ℓ
Map V = List (String × V)

module _ {ℓ} {V : Type ℓ} where
  -- `m.get(k)`
  unfoldable pub get : Map V → String → Option V
  get [] k = none
  get ((j, v) ∷ m) k = if j == k then some v else get m k

  -- `m.set(k, v)`
  unfoldable pub set : Map V → String → V → Map V
  set [] k v = (k, v) ∷ []
  set ((j, w) ∷ m) k v = if j == k then (j, v) ∷ m else (j, w) ∷ set m k v

  -- `m.delete(k)`; a key stands in a map once
  unfoldable pub delete : Map V → String → Map V
  delete [] k = []
  delete ((j, w) ∷ m) k = if j == k then delete m k else (j, w) ∷ delete m k

  -- `m.has(k)`, and what `m.delete(k)` returns
  unfoldable pub has : Map V → String → Bool
  has m k = elim (get m k) [ none ↦ false | some _ ↦ true ]

  -- `[...m.values()]`
  unfoldable pub values : Map V → List V
  values [] = []
  values ((_, v) ∷ m) = v ∷ values m

  pub get-empty : (k : String) → get [] k ≡ none
  unfolding get
  get-empty k = refl

  pub get-set :
      (m : Map V) (k j : String) (v : V) → get (set m k v) j ≡ (if k == j then some v else get m j)
  unfolding get set
  get-set [] k j v = refl
  get-set ((i, w) ∷ m) k j v = ground (arith, eq_iff k j, eq_iff i k, eq_iff i j, get-set m k j v)

  pub get-delete :
      (m : Map V) (k j : String) → get (delete m k) j ≡ (if k == j then none else get m j)
  unfolding get delete
  get-delete [] k j = ground arith
  get-delete ((i, w) ∷ m) k j = ground (arith, eq_iff k j, eq_iff i k, eq_iff i j, get-delete m k j)

  pub length-set_old :
      (m : Map V) (k : String) (v w : V) → get m k ≡ some v → length (set m k w) ≡ length m
  unfolding get set
  length-set_old [] k v w e = cc
  length-set_old ((j, x) ∷ m) k v w e = ground (arith, length-set_old m k v w)

  pub length-set_new :
      (m : Map V) (k : String) (w : V) → get m k ≡ none → length (set m k w) ≡ suc (length m)
  unfolding get set
  length-set_new [] k w e = refl
  length-set_new ((j, x) ∷ m) k w e = ground (arith, length-set_new m k w)

  pub get-set_self : (m : Map V) (k : String) (v : V) → get (set m k v) k ≡ some v
  get-set_self m k v = rw (get-set, eq_refl)

pub ruleset map_laws = (get-empty, get-set, get-delete)

module _ {ℓ} {V : Type ℓ} where
  pub get-of_has : (m : Map V) (k : String) → has m k ≡ false → get m k ≡ none
  unfolding has get
  get-of_has m k h = elim (Option-cases (get m k)) [ inl e ↦ e | inr (_, e) ↦ cc ]

  pub has-of_get : (m : Map V) (k : String) (v : V) → get m k ≡ some v → has m k ≡ true
  unfolding has
  has-of_get m k v e = ground (arith, e)

  -- a new key goes to the end
  pub set-new : (m : Map V) (k : String) (v : V) → get m k ≡ none → set m k v ≡ m ++ (k, v) ∷ []
  unfolding get set
  set-new [] k v h = refl
  set-new ((j, w) ∷ m) k v h = ground (arith, set-new m k v)

  pub values-append : (m n : Map V) → values (m ++ n) ≡ values m ++ values n
  unfolding values
  values-append [] n = refl
  values-append ((j, w) ∷ m) n = ap (λ vs. w ∷ vs) (values-append m n)
