-- ===== src/Prelude/Sort.antt =====
-- `Array.prototype.sort` with a comparator: stable, as the language has it since 2019. The sign of
-- the comparator's result is an `Ordering`.
use Prim.Native.Nat.{Ordering}
use mathlib.Core.Path.{◌≡◌, refl}
use mathlib.Core.Logic.{◌≢◌}
use mathlib.Core.List.{List, [], ◌∷◌, Perm}
use mathlib.Core.List.Perm
use mathlib.Core.Bool.{Bool, true}
use mathlib.Core.Path.{◌∙◌, sym}
use native.Mathlib.Omega.{arith}
use anti_soon.Prelude.Lists.{All, count, length, count_everything}

-- The contract of a comparator: opposite verdicts on swapped arguments, and transitivity.
pub record IsComparator {ℓ} {A : Type ℓ} (cmp : A → A → Ordering) : Type ℓ where
  pub total : (x y : A) → cmp x y ≡ Ordering.gt → cmp y x ≢ Ordering.gt
  pub trans : (x y z : A) → cmp x y ≢ Ordering.gt → cmp y z ≢ Ordering.gt → cmp x z ≢ Ordering.gt

pub Ordering-cases {κ} :
    (o : Ordering) (P : Ordering → Type κ)
    → (o ≡ Ordering.gt → P Ordering.gt)
    → (o ≢ Ordering.gt → P Ordering.lt × P Ordering.eq)
    → P o
Ordering-cases Ordering.lt P g n = (n (λ e. cc)).0
Ordering-cases Ordering.eq P g n = (n (λ e. cc)).1
Ordering-cases Ordering.gt P g n = g refl

module _ {ℓ} {A : Type ℓ} (cmp : A → A → Ordering) where
  -- `x` goes in front of the first entry that does not stand strictly before it
  unfoldable pub insert : A → List A → List A
  insert x [] = x ∷ []
  insert x (y ∷ ys) =
      let rest = insert x ys in elim (cmp x y) [ Ordering.gt ↦ y ∷ rest | _ ↦ x ∷ y ∷ ys ]

  unfoldable pub sort : List A → List A
  unfolding insert
  sort [] = []
  sort (x ∷ xs) = insert x (sort xs)

  abbrev pub IsSorted : List A → Type ℓ
  IsSorted [] = Unit
  IsSorted (x ∷ xs) = All (λ y. cmp x y ≢ Ordering.gt) xs × IsSorted xs

  insert-perm : (x : A) (xs : List A) → Perm (insert x xs) (x ∷ xs)
  unfolding insert
  insert-perm x [] = Perm.refl _
  insert-perm x (y ∷ ys) =
      Ordering-cases (cmp x y)
        (λ o. Perm (elim o [ Ordering.gt ↦ y ∷ insert x ys | _ ↦ x ∷ y ∷ ys ]) (x ∷ y ∷ ys))
        (λ _. Perm.trans (Perm.cons y (insert-perm x ys)) (Perm.swap x y ys))
        (λ _. (Perm.refl _, Perm.refl _))

  pub sort-perm : (xs : List A) → Perm (sort xs) xs
  unfolding sort
  sort-perm [] = Perm.refl _
  sort-perm (x ∷ xs) = Perm.trans (insert-perm x (sort xs)) (Perm.cons x (sort-perm xs))

  pub All-insert {κ} : (P : A → Type κ) (x : A) (xs : List A) → P x → All P xs → All P (insert x xs)
  unfolding insert
  All-insert P x [] p h = (p, tt)
  All-insert P x (y ∷ ys) p h =
      Ordering-cases (cmp x y)
        (λ o. All P (elim o [ Ordering.gt ↦ y ∷ insert x ys | _ ↦ x ∷ y ∷ ys ]))
        (λ _. (h.0, All-insert P x ys p h.1)) (λ _. ((p, h), (p, h)))

  pub All-sort {κ} : (P : A → Type κ) (xs : List A) → All P xs → All P (sort xs)
  unfolding sort
  All-sort P [] h = tt
  All-sort P (x ∷ xs) h = All-insert P x (sort xs) h.0 (All-sort P xs h.1)

module _ {ℓ} {A : Type ℓ} {cmp : A → A → Ordering} (laws : IsComparator cmp) where
  le-All :
      (x y : A) (ys : List A)
      → cmp x y ≢ Ordering.gt
      → All (λ z. cmp y z ≢ Ordering.gt) ys
      → All (λ z. cmp x z ≢ Ordering.gt) ys
  le-All x y [] h k = tt
  le-All x y (z ∷ ys) h k = (laws.trans x y z h k.0, le-All x y ys h k.1)

  insert-IsSorted : (x : A) (xs : List A) → IsSorted cmp xs → IsSorted cmp (insert cmp x xs)
  unfolding insert
  insert-IsSorted x [] h = (tt, tt)
  insert-IsSorted x (y ∷ ys) h =
      Ordering-cases (cmp x y)
        (λ o. IsSorted cmp (elim o [ Ordering.gt ↦ y ∷ insert cmp x ys | _ ↦ x ∷ y ∷ ys ]))
        (λ e. (All-insert cmp _ x ys (laws.total x y e) h.0, insert-IsSorted x ys h.1))
        (λ n. (((n, le-All x y ys n h.0), h), ((n, le-All x y ys n h.0), h)))

  -- With a comparator that keeps its contract the result is in order.
  pub sort-IsSorted : (xs : List A) → IsSorted cmp (sort cmp xs)
  unfolding sort
  sort-IsSorted [] = tt
  sort-IsSorted (x ∷ xs) = insert-IsSorted x (sort cmp xs) (sort-IsSorted xs)

module _ {ℓ} {A : Type ℓ} (cmp : A → A → Ordering) (p : A → Bool) where
  count-insert : (x : A) (xs : List A) → count p (insert cmp x xs) ≡ count p (x ∷ xs)
  unfolding insert
  count-insert x [] = refl
  count-insert x (y ∷ ys) =
      Ordering-cases (cmp x y)
        (λ o.
          count p (elim o [ Ordering.gt ↦ y ∷ insert cmp x ys | _ ↦ x ∷ y ∷ ys ])
          ≡ count p (x ∷ y ∷ ys))
        (λ _. omega (arith, count-insert x ys)) (λ _. (refl, refl))

  -- sorting changes no count
  pub count-sort : (xs : List A) → count p (sort cmp xs) ≡ count p xs
  unfolding sort
  count-sort [] = refl
  count-sort (x ∷ xs) = count-insert x (sort cmp xs) ∙ omega (arith, count-sort xs)

module _ {ℓ} {A : Type ℓ} (cmp : A → A → Ordering) where
  pub length-sort : (xs : List A) → length (sort cmp xs) ≡ length xs
  length-sort xs =
      sym (count_everything (sort cmp xs)) ∙ count-sort cmp (λ _. true) xs ∙ count_everything xs
