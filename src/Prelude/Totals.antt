-- ===== src/Prelude/Totals.antt =====
-- Sums over lists, which sorting leaves alone.
use Prim.Native.Nat.{ℕ, ◌+◌, Ordering}
use mathlib.Core.Path.{◌≡◌, refl, ◌∙◌}
use mathlib.Core.Bool.{Bool}
use mathlib.Core.List.{List, [], ◌∷◌, ◌++◌, map}
use native.Mathlib.Omega.{arith}
use anti_soon.Prelude.Lists.{count}
use anti_soon.Prelude.Sort.{insert, sort, Ordering-cases}

abbrev pub total {ℓ} : {A : Type ℓ} → (A → ℕ) → List A → ℕ
total f [] = 0
total f (x ∷ xs) = f x + total f xs

pub total-append {ℓ} :
    {A : Type ℓ} (f : A → ℕ) (xs ys : List A) → total f (xs ++ ys) ≡ total f xs + total f ys
total-append f [] ys = omega arith
total-append f (x ∷ xs) ys = omega (arith, total-append f xs ys)

pub total-map {ℓ κ} :
    {A : Type ℓ} {B : Type κ} (f : B → ℕ) (g : A → B) (xs : List A)
    → total f (map g xs) ≡ total (λ x. f (g x)) xs
total-map f g [] = refl
total-map f g (x ∷ xs) = omega (arith, total-map f g xs)

pub count-map {ℓ κ} :
    {A : Type ℓ} {B : Type κ} (p : B → Bool) (g : A → B) (xs : List A)
    → count p (map g xs) ≡ count (λ x. p (g x)) xs
count-map p g [] = refl
count-map p g (x ∷ xs) = omega (arith, count-map p g xs)

module _ {ℓ} {A : Type ℓ} (cmp : A → A → Ordering) (f : A → ℕ) where
  total-insert : (x : A) (xs : List A) → total f (insert cmp x xs) ≡ total f (x ∷ xs)
  unfolding insert
  total-insert x [] = refl
  total-insert x (y ∷ ys) =
      Ordering-cases (cmp x y)
        (λ o.
          total f (elim o [ Ordering.gt ↦ y ∷ insert cmp x ys | _ ↦ x ∷ y ∷ ys ])
          ≡ total f (x ∷ y ∷ ys))
        (λ _. omega (arith, total-insert x ys)) (λ _. (refl, refl))

  pub total-sort : (xs : List A) → total f (sort cmp xs) ≡ total f xs
  unfolding sort
  total-sort [] = refl
  total-sort (x ∷ xs) = total-insert x (sort cmp xs) ∙ omega (arith, total-sort xs)
