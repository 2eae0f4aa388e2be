-- ===== src/Relayer/CursorState/Pending/Invariant.antt =====
-- What holds of a map of pending items between two operations.
use anti_soon.Prelude.{ℕ, String, ◌≡◌, false, Option, none, some, [], ◌∷◌, arith, eq_iff, find?}
use anti_soon.Prelude.Map
use anti_soon.Prelude.Map.{Map}
use anti_soon.Relayer.CursorState.State.{PendingItem}
use anti_soon.Relayer.CursorState.Pending.Items.{same_identity}

-- The item of a submission of a project, if the map holds one.
unfoldable pub item_of : ℕ → ℕ → Map PendingItem → Option PendingItem
item_of submission_id project_id m = find? (same_identity submission_id project_id) (Map.values m)

-- Every item stands under its own key, no key stands twice, and no two items are of one submission
-- of one project.
abbrev pub IsDistinct : Map PendingItem → Type 0
IsDistinct [] = Unit
IsDistinct ((k, item) ∷ m) =
    (item.idempotency_key ≡ k)
    × (Map.get m k ≡ none)
    × (item_of item.submission_id item.project_id m ≡ none)
    × IsDistinct m

pub get-key :
    (m : Map PendingItem) (k : String) (a : PendingItem)
    → IsDistinct m
    → Map.get m k ≡ some a
    → a.idempotency_key ≡ k
unfolding Map.get
get-key [] k a h e = cc
get-key ((j, b) ∷ m) k a h e = ground (arith, eq_iff j k, get-key m k a h.3)

-- The item of a submission stands under its own key.
pub get-item_of :
    (m : Map PendingItem) (s p : ℕ) (a : PendingItem)
    → IsDistinct m
    → item_of s p m ≡ some a
    → (Map.get m a.idempotency_key ≡ some a) × (a.submission_id ≡ s) × (a.project_id ≡ p)
unfolding Map.get Map.values item_of
get-item_of [] s p a h e = cc
get-item_of ((j, b) ∷ m) s p a h e =
    ground (arith, eq_iff j a.idempotency_key, get-item_of m s p a h.3)

-- Writing an item of the same submission as the one that it replaces.
item_of-set_same :
    (s p : ℕ) (m : Map PendingItem) (k : String) (a b : PendingItem)
    → Map.get m k ≡ some a
    → a.submission_id ≡ b.submission_id
    → a.project_id ≡ b.project_id
    → item_of s p m ≡ none
    → item_of s p (Map.set m k b) ≡ none
unfolding Map.get Map.set Map.values item_of
item_of-set_same s p [] k a b e u v n = cc
item_of-set_same s p ((j, x) ∷ m) k a b e u v n =
    ground (arith, eq_iff j k, item_of-set_same s p m k a b)

item_of-set_new :
    (s p : ℕ) (m : Map PendingItem) (k : String) (b : PendingItem)
    → Map.get m k ≡ none
    → same_identity s p b ≡ false
    → item_of s p m ≡ none
    → item_of s p (Map.set m k b) ≡ none
unfolding Map.get Map.set Map.values item_of
item_of-set_new s p [] k b e u n = ground arith
item_of-set_new s p ((j, x) ∷ m) k b e u n = ground (arith, eq_iff j k, item_of-set_new s p m k b)

item_of-delete :
    (s p : ℕ) (m : Map PendingItem) (k : String)
    → item_of s p m ≡ none
    → item_of s p (Map.delete m k) ≡ none
unfolding Map.delete Map.values item_of
item_of-delete s p [] k n = n
item_of-delete s p ((j, x) ∷ m) k n = ground (arith, item_of-delete s p m k)

pub set_old-IsDistinct :
    (m : Map PendingItem) (k : String) (a b : PendingItem)
    → IsDistinct m
    → Map.get m k ≡ some a
    → b.idempotency_key ≡ k
    → a.submission_id ≡ b.submission_id
    → a.project_id ≡ b.project_id
    → IsDistinct (Map.set m k b)
unfolding Map.get Map.set
set_old-IsDistinct [] k a b h e q s t = cc
set_old-IsDistinct ((j, x) ∷ m) k a b h e q s t = ground (
  arith,
  eq_iff j k,
  eq_iff k j,
  set_old-IsDistinct m k a b h.3,
  Map.get-set m k j b,
  item_of-set_same x.submission_id x.project_id m k a b,
)

pub set_new-IsDistinct :
    (m : Map PendingItem) (b : PendingItem)
    → IsDistinct m
    → Map.get m b.idempotency_key ≡ none
    → item_of b.submission_id b.project_id m ≡ none
    → IsDistinct (Map.set m b.idempotency_key b)
unfolding Map.get Map.set item_of Map.values
set_new-IsDistinct [] b h e q = ground arith
set_new-IsDistinct ((j, x) ∷ m) b h e q = ground (
  arith,
  eq_iff j b.idempotency_key,
  eq_iff b.idempotency_key j,
  set_new-IsDistinct m b h.3,
  Map.get-set m b.idempotency_key j b,
  item_of-set_new x.submission_id x.project_id m b.idempotency_key b,
)

pub delete-IsDistinct :
    (m : Map PendingItem) (k : String) → IsDistinct m → IsDistinct (Map.delete m k)
unfolding Map.delete
delete-IsDistinct [] k h = tt
delete-IsDistinct ((j, x) ∷ m) k h = ground (
  arith,
  eq_iff k j,
  Map.get-delete m k j,
  delete-IsDistinct m k h.3,
  item_of-delete x.submission_id x.project_id m k,
)
