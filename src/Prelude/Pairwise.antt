-- ===== src/Prelude/Pairwise.antt =====
-- A relation between each entry of a list and all later ones, and what sorting does to it.
use Prim.Native.Nat.{Ordering}
use mathlib.Core.Path.{◌≡◌, refl, ap, ◌∙◌}
use mathlib.Core.Logic.{◌≢◌}
use mathlib.Core.List.{List, [], ◌∷◌, ◌++◌}
use anti_soon.Prelude.Lists.{All, All-append}
use anti_soon.Prelude.Sort.{insert, sort, IsSorted, All-insert, All-sort, Ordering-cases}

module _ {ℓ κ} {A : Type ℓ} (R : A → A → Type κ) where
  abbrev pub Pairwise : List A → Type κ
  Pairwise [] = Unit
  Pairwise (x ∷ xs) = All (R x) xs × Pairwise xs

  pub Pairwise-snoc :
      (xs : List A) (y : A) → Pairwise xs → All (λ x. R x y) xs → Pairwise (xs ++ y ∷ [])
  Pairwise-snoc [] y h k = (tt, tt)
  Pairwise-snoc (x ∷ xs) y h k =
      (All-append (R x) xs (y ∷ []) h.0 (k.0, tt), Pairwise-snoc xs y h.1 k.1)

  module _ (cmp : A → A → Ordering) (swap : (x y : A) → R x y → R y x) where
    Pairwise-insert :
        (x : A) (xs : List A) → All (R x) xs → Pairwise xs → Pairwise (insert cmp x xs)
    unfolding insert
    Pairwise-insert x [] h k = (tt, tt)
    Pairwise-insert x (y ∷ ys) h k =
        Ordering-cases (cmp x y)
          (λ o. Pairwise (elim o [ Ordering.gt ↦ y ∷ insert cmp x ys | _ ↦ x ∷ y ∷ ys ]))
          (λ _. (All-insert cmp (R y) x ys (swap x y h.0) k.0, Pairwise-insert x ys h.1 k.1))
          (λ _. ((h, k), (h, k)))

    -- a symmetric relation outlives sorting
    pub Pairwise-sort : (xs : List A) → Pairwise xs → Pairwise (sort cmp xs)
    unfolding sort
    Pairwise-sort [] h = tt
    Pairwise-sort (x ∷ xs) h =
        Pairwise-insert x (sort cmp xs) (All-sort cmp (R x) xs h.0) (Pairwise-sort xs h.1)

module _ {ℓ} {A : Type ℓ} (cmp : A → A → Ordering) where
  insert-front :
      (x : A) (xs : List A) → All (λ y. cmp x y ≢ Ordering.gt) xs → insert cmp x xs ≡ x ∷ xs
  unfolding insert
  insert-front x [] h = refl
  insert-front x (y ∷ ys) h =
      Ordering-cases (cmp x y)
        (λ o. elim o [ Ordering.gt ↦ y ∷ insert cmp x ys | _ ↦ x ∷ y ∷ ys ] ≡ x ∷ y ∷ ys)
        (λ e. elim (h.0 e) [ ]) (λ _. (refl, refl))

  -- what is in order stays as it is
  pub sort-sorted : (xs : List A) → IsSorted cmp xs → sort cmp xs ≡ xs
  unfolding sort
  sort-sorted [] h = refl
  sort-sorted (x ∷ xs) h = ap (insert cmp x) (sort-sorted xs h.1) ∙ insert-front x xs h.0

  -- what holds of the sorted entries holds of the entries
  All-uninsert {κ} :
      (P : A → Type κ) (x : A) (xs : List A) → All P (insert cmp x xs) → P x × All P xs
  unfolding insert
  All-uninsert P x [] h = h
  All-uninsert P x (y ∷ ys) h0 =
      Ordering-cases (cmp x y)
        (λ o.
          All P (elim o [ Ordering.gt ↦ y ∷ insert cmp x ys | _ ↦ x ∷ y ∷ ys ])
          → P x × All P (y ∷ ys))
        (λ _ h. let (p, ps) = All-uninsert P x ys h.1 in (p, (h.0, ps))) (λ _. (λ h. h, λ h. h)) h0

  pub All-unsort {κ} : (P : A → Type κ) (xs : List A) → All P (sort cmp xs) → All P xs
  unfolding sort
  All-unsort P [] h = tt
  All-unsort P (x ∷ xs) h =
      let (p, ps) = All-uninsert P x (sort cmp xs) h in (p, All-unsort P xs ps)
