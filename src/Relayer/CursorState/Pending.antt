-- ===== src/Relayer/CursorState/Pending.antt =====
-- The pending queue items and committed candidates: upsert, removal and the sorted listing.
mod Items
pub mod Invariant
pub mod Upsert
pub mod Listing
pub use Items.{NewItem, stamp}
unfoldable pub use Items.{find_existing, next_item, upsert_pending}
use Prim.Native.Nat.{Ordering}
use anti_soon.Prelude.{
  ℕ, String, Bool, true, false, ◌&&◌, Option, none, some, List, [], ◌∷◌, ◌==◌, ltb, str_eq, find?,
  if◌then◌else◌,
}
use anti_soon.Prelude.Map
use anti_soon.Prelude.Map.{Map}
use anti_soon.Prelude.Sort
use anti_soon.Relayer.CursorState.State.{PendingItem, CursorStore, Session, persist_store}

unfoldable pub upsert_durable_pending_queue_item : Session → NewItem → ℕ → Session × PendingItem
unfolding upsert_pending persist_store
upsert_durable_pending_queue_item s item now_ms =
    let (m, next) = upsert_pending s.store.pending_queue_items item now_ms in
    (persist_store (record s { store = record (s.store) { pending_queue_items = m } }), next)

unfoldable pub upsert_durable_pending_committed_candidate :
    Session → NewItem → ℕ → Session × PendingItem
unfolding upsert_pending persist_store
upsert_durable_pending_committed_candidate s item now_ms =
    let (m, next) = upsert_pending s.store.pending_committed_candidates item now_ms in
    (
      persist_store (record s { store = record (s.store) { pending_committed_candidates = m } }),
      next,
    )

unfoldable pub remove_durable_pending_queue_item : Session → String → Session
unfolding persist_store
remove_durable_pending_queue_item s key =
    if Map.has s.store.pending_queue_items key
    then persist_store (record s {
      store = record (s.store) { pending_queue_items = Map.delete s.store.pending_queue_items key };
    })
    else s

unfoldable pub remove_durable_pending_committed_candidate : Session → String → Session
unfolding persist_store
remove_durable_pending_committed_candidate s key =
    if Map.has s.store.pending_committed_candidates key
    then persist_store (record s {
      store = record (s.store) {
        pending_committed_candidates = Map.delete s.store.pending_committed_candidates key;
      };
    })
    else s

-- `localeCompare` orders texts by the rules of the host's locale: it is a parameter.
module _ (locale_compare : String → String → Ordering) where
  unfoldable pub compare_pending : PendingItem → PendingItem → Ordering
  compare_pending left right =
      if left.block_number == right.block_number
      then (if left.log_index == right.log_index
          then locale_compare left.idempotency_key right.idempotency_key
          else if ltb left.log_index right.log_index
          then Ordering.lt
          else Ordering.gt)
      else if ltb left.block_number right.block_number
      then Ordering.lt
      else Ordering.gt

  unfoldable pub list_durable_pending_queue_items : CursorStore → List PendingItem
  unfolding compare_pending
  list_durable_pending_queue_items store =
      Sort.sort compare_pending (Map.values store.pending_queue_items)

  unfoldable pub list_durable_pending_committed_candidates : CursorStore → List PendingItem
  unfolding compare_pending
  list_durable_pending_committed_candidates store =
      Sort.sort compare_pending (Map.values store.pending_committed_candidates)
