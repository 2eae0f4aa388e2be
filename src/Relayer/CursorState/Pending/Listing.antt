-- ===== src/Relayer/CursorState/Pending/Listing.antt =====
-- The listings of the pending items are in the order of the chain.
use Prim.Native.Nat.{Ordering}
use mathlib.Core.List.{Perm}
use anti_soon.Prelude.{◌<◌, ◌≡◌, ◌≢◌, ◌⊎◌, String, List, [], ◌∷◌, All-imp, arith}
use anti_soon.Prelude.Map
use anti_soon.Prelude.Map.{Map}
use anti_soon.Prelude.Pairwise.{Pairwise}
use anti_soon.Prelude.Sort
use anti_soon.Prelude.Sort.{IsComparator, IsSorted}
use anti_soon.Relayer.CursorState.State.{PendingItem, CursorStore}
use anti_soon.Relayer.CursorState.Pending.{
  compare_pending, list_durable_pending_queue_items, list_durable_pending_committed_candidates,
}

-- What `localeCompare` documents: it orders all texts.
module _ (locale_compare : String → String → Ordering) (laws : IsComparator locale_compare) where
  compare_pending-IsComparator : IsComparator (compare_pending locale_compare)
  unfolding compare_pending
  compare_pending-IsComparator = record {
    total = λ x y. ground (arith, laws.total x.idempotency_key y.idempotency_key);
    trans =
        λ x y z. ground (arith, laws.trans x.idempotency_key y.idempotency_key z.idempotency_key);
  }

  -- `x` may stand before `y`: it lies in an earlier block, or in the same one at an earlier log, or its key
  -- does not come after that of `y`.
  abbrev pub Comes : PendingItem → PendingItem → Type 0
  Comes x y =
      (x.block_number < y.block_number)
      ⊎ ((x.block_number ≡ y.block_number)
          × ((x.log_index < y.log_index)
              ⊎ ((x.log_index ≡ y.log_index)
                  × (locale_compare x.idempotency_key y.idempotency_key ≢ Ordering.gt))))

  compare_pending-Comes :
      (x y : PendingItem) → compare_pending locale_compare x y ≢ Ordering.gt → Comes x y
  unfolding compare_pending
  compare_pending-Comes x y h = ground arith

  IsSorted-Comes :
      (xs : List PendingItem) → IsSorted (compare_pending locale_compare) xs → Pairwise Comes xs
  IsSorted-Comes [] h = tt
  IsSorted-Comes (x ∷ xs) h = (All-imp (compare_pending-Comes x) xs h.0, IsSorted-Comes xs h.1)

  -- The items of a map, in the order of the chain.
  abbrev pub IsListing : List PendingItem → Map PendingItem → Type 0
  IsListing xs m = Pairwise Comes xs × Perm xs (Map.values m)

  sort-IsListing :
      (m : Map PendingItem)
      → IsListing (Sort.sort (compare_pending locale_compare) (Map.values m)) m
  sort-IsListing m = (
    IsSorted-Comes _ (Sort.sort-IsSorted compare_pending-IsComparator (Map.values m)),
    Sort.sort-perm (compare_pending locale_compare) (Map.values m),
  )

  pub candidates-Comes :
      (store : CursorStore)
      → Pairwise Comes (list_durable_pending_committed_candidates locale_compare store)
  unfolding list_durable_pending_committed_candidates
  candidates-Comes store = (sort-IsListing store.pending_committed_candidates).0

  -- With a locale comparison that orders all texts, both listings, of the pending queue items and
  -- of the pending candidates, go up by block, within a block by log index, and at one log by key,
  -- and hold exactly the items of the map.
  pub list_queue_items-IsSorted :
      (store : CursorStore)
      → IsListing (list_durable_pending_queue_items locale_compare store) store.pending_queue_items
        × IsListing
            (list_durable_pending_committed_candidates locale_compare store)
            store.pending_committed_candidates
  unfolding list_durable_pending_queue_items list_durable_pending_committed_candidates
  list_queue_items-IsSorted store =
      (sort-IsListing store.pending_queue_items, sort-IsListing store.pending_committed_candidates)
