-- ===== src/Prelude/Keys.antt =====
-- Maps whose keys are different from one another, as those of a JavaScript `Map` are.
use Prim.Native.Nat.{Ordering}
use Prim.Native.String.{String}
use mathlib.Core.Path.{◌≡◌, refl, sym, ◌∙◌}
use mathlib.Core.Logic.{◌≢◌, inl, inr}
use mathlib.Core.Bool.{true, false}
use mathlib.Core.Option.{Option, none, some}
use mathlib.Core.List.{[], ◌∷◌}
use native.Mathlib.Omega.{arith}
use text.Mathlib.Text.{◌==◌}
use text.Mathlib.TextEquality.{eq_iff}
use anti_soon.Prelude.Tests.{if◌then◌else◌, Bool-cases}
use anti_soon.Prelude.Lists.{All}
use anti_soon.Prelude.Map.{Map, get, set}
use anti_soon.Prelude.Sort.{insert, sort, Ordering-cases, All-sort}
use anti_soon.Prelude.Pairwise.{Pairwise, Pairwise-sort}

abbrev pub IsKeyed {ℓ} : {V : Type ℓ} → Map V → Type 0
IsKeyed = Pairwise (λ a b. a.0 ≢ b.0)

module _ {ℓ} {V : Type ℓ} where
  All-set :
      (j : String) (m : Map V) (k : String) (v : V)
      → j ≢ k
      → All (λ b. j ≢ b.0) m
      → All (λ b. j ≢ b.0) (set m k v)
  unfolding set
  All-set j [] k v n h = (n, tt)
  All-set j ((i, w) ∷ m) k v n (h, hs) = elim (Bool-cases (i == k)) [
    | inl e ↦ rw e (h, hs)
    | inr e ↦ rw e (h, All-set j m k v n hs)
  ]

  pub set-IsKeyed : (m : Map V) (k : String) (v : V) → IsKeyed m → IsKeyed (set m k v)
  unfolding set
  set-IsKeyed [] k v h = (tt, tt)
  set-IsKeyed ((j, w) ∷ m) k v (h, hs) = elim (Bool-cases (j == k)) [
    | inl e ↦ rw e (h, hs)
    | inr e ↦ rw e (
      All-set j m k v (λ p. let t : true ≡ false = (let q = (eq_iff j k).1 p in cc) in cc) h,
      set-IsKeyed m k v hs,
    )
  ]

  pub get-other : (m : Map V) (k : String) → All (λ b. k ≢ b.0) m → get m k ≡ none
  unfolding get
  get-other [] k h = refl
  get-other ((j, w) ∷ m) k (h, hs) = ground (arith, h, eq_iff j k, get-other m k hs)

  module _ (cmp : String × V → String × V → Ordering) where
    get-insert :
        (j : String) (v : V) (m : Map V) (k : String)
        → All (λ b. j ≢ b.0) m
        → get (insert cmp (j, v) m) k ≡ (if j == k then some v else get m k)
    unfolding insert get
    get-insert j v [] k h = refl
    get-insert j v ((i, w) ∷ m) k (h, hs) =
        Ordering-cases (cmp (j, v) (i, w))
          (λ o.
            get (elim o [ Ordering.gt ↦ (i, w) ∷ insert cmp (j, v) m | _ ↦ (j, v) ∷ (i, w) ∷ m ]) k
            ≡ (if j == k then some v else get ((i, w) ∷ m) k))
          (λ _. ground (arith, get-insert j v m k hs, eq_iff j k, eq_iff i k, h))
          (λ _. (refl, refl))

    pub get-sort : (m : Map V) (k : String) → IsKeyed m → get (sort cmp m) k ≡ get m k
    unfolding sort get
    get-sort [] k h = refl
    get-sort ((j, v) ∷ m) k (h, hs) =
        get-insert j v (sort cmp m) k (All-sort cmp (λ b. j ≢ b.0) m h)
        ∙ ground (arith, get-sort m k hs)

pub sorted-IsKeyed {ℓ} :
    {V : Type ℓ} (cmp : String × V → String × V → Ordering) (m : Map V)
    → IsKeyed m
    → IsKeyed (sort cmp m)
sorted-IsKeyed cmp m h = Pairwise-sort _ cmp (λ a b n e. n (sym e)) m h

-- an entry of a map, or what was there before
abbrev pub over_default {ℓ κ} : {A : Type ℓ} {B : Type κ} → (A → B) → Option A → Option B → Option B
over_default f none before = before
over_default f (some a) before = some (f a)

pub over_default-id {ℓ} : {A : Type ℓ} (o : Option A) → over_default (λ x. x) o none ≡ o
over_default-id none = refl
over_default-id (some a) = refl
