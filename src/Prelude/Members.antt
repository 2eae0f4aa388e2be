-- ===== src/Prelude/Members.antt =====
-- Which numbers a list holds, through the operations on lists and sets.
use Prim.Native.Nat.{ℕ, suc, ◌+◌, ◌≤◌, Ordering}
use mathlib.Core.Path.{◌≡◌, refl, ◌∙◌}
use mathlib.Core.Bool.{true, false, not, ◌||◌}
use mathlib.Core.List.{List, [], ◌∷◌, ◌++◌}
use native.Mathlib.Omega.{arith}
use anti_soon.Prelude.Tests.{◌==◌, ==_iff, ltb}
use anti_soon.Prelude.Lists.{count, count-append}
use anti_soon.Prelude.Set.{contains, add}
use anti_soon.Prelude.Sort.{insert, sort, Ordering-cases}

pub contains-add : (v n : ℕ) (xs : List ℕ) → contains v (add n xs) ≡ (n == v || contains v xs)
contains-add v n xs = ground (arith, ==_iff n v)

pub contains-append :
    (v : ℕ) (xs ys : List ℕ) → contains v (xs ++ ys) ≡ (contains v xs || contains v ys)
contains-append v [] ys = refl
contains-append v (x ∷ xs) ys = ground (arith, contains-append v xs ys)

module _ (cmp : ℕ → ℕ → Ordering) (v : ℕ) where
  contains-insert : (x : ℕ) (xs : List ℕ) → contains v (insert cmp x xs) ≡ contains v (x ∷ xs)
  unfolding insert
  contains-insert x [] = refl
  contains-insert x (y ∷ ys) =
      Ordering-cases (cmp x y)
        (λ o.
          contains v (elim o [ Ordering.gt ↦ y ∷ insert cmp x ys | _ ↦ x ∷ y ∷ ys ])
          ≡ contains v (x ∷ y ∷ ys))
        (λ _. ground (arith, contains-insert x ys)) (λ _. (refl, refl))

  pub contains-sort : (xs : List ℕ) → contains v (sort cmp xs) ≡ contains v xs
  unfolding sort
  contains-sort [] = refl
  contains-sort (x ∷ xs) = contains-insert x (sort cmp xs) ∙ ground (arith, contains-sort xs)

-- How many entries of a list a set does not hold.
abbrev pub missing : List ℕ → List ℕ → ℕ
missing held xs = count (λ x. not (contains x held)) xs

pub missing_mono : (v : ℕ) (held xs : List ℕ) → missing (v ∷ held) xs ≤ missing held xs
missing_mono v held [] = omega arith
missing_mono v held (x ∷ xs) = ground (arith, missing_mono v held xs)

-- a new member that the list has makes them fewer
pub missing-add :
    (v : ℕ) (held xs : List ℕ)
    → contains v held ≡ false
    → contains v xs ≡ true
    → suc (missing (v ∷ held) xs) ≤ missing held xs
missing-add v held [] h k = cc
missing-add v held (x ∷ xs) h k =
    ground (arith, missing-add v held xs, missing_mono v held xs, ==_iff v x, ==_iff x v)

-- How often a list holds a number.
abbrev pub times_in : ℕ → List ℕ → ℕ
times_in w xs = count (λ x. x == w) xs

pub times_in-none : (w : ℕ) (xs : List ℕ) → contains w xs ≡ false → times_in w xs ≡ 0
times_in-none w [] h = refl
times_in-none w (x ∷ xs) h = ground (arith, times_in-none w xs)

pub times_in-some : (w : ℕ) (xs : List ℕ) → contains w xs ≡ true → 1 ≤ times_in w xs
times_in-some w [] h = cc
times_in-some w (x ∷ xs) h = ground (arith, times_in-some w xs)

pub times_in-append :
    (w : ℕ) (xs ys : List ℕ) → times_in w (xs ++ ys) ≡ times_in w xs + times_in w ys
times_in-append w xs ys = count-append (λ x. x == w) xs ys

pub contains-times : (w : ℕ) (xs : List ℕ) → contains w xs ≡ ltb 0 (times_in w xs)
contains-times w [] = refl
contains-times w (x ∷ xs) = ground (arith, contains-times w xs)
