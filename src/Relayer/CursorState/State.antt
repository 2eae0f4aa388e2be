-- ===== src/Relayer/CursorState/State.antt =====
-- The store's record, its creation, and the calls of `persist`.
use anti_soon.Prelude.{
  Result, ok, err, ℕ, suc, String, Bool, false, Option, none, some, List, [], ◌∷◌, ltb,
  if◌then◌else◌,
}
use anti_soon.Prelude.Map.{Map}
use anti_soon.Relayer.Idempotency.{Status, quarantined}

-- `AutoRevealPendingQueueItem` and `AutoRevealPendingCommittedCandidate`: two types with the same
-- fields, but for the prefix `queue` or `commit` of the last three.
pub record PendingItem : Type 0 where
  pub idempotency_key : String
  pub submission_id : ℕ
  pub project_id : ℕ
  pub block_number : ℕ
  pub tx_hash : String
  pub log_index : ℕ
  pub first_seen_at_ms : ℕ
  pub last_evaluated_at_ms : ℕ

pub record CursorStore : Type 0 where
  pub file_path : String
  pub cursor_last_finalized_block : ℕ
  pub cursor_updated_at_ms : ℕ
  pub queue_item_status : Map Status
  pub queue_item_block_number : Map ℕ
  pub queue_item_updated_at_ms : Map ℕ
  pub queue_item_submission_id : Map ℕ
  pub queue_item_project_id : Map ℕ
  pub pending_queue_items : Map PendingItem
  pub pending_committed_candidates : Map PendingItem
  pub recovered_processing_count : ℕ
  pub quarantined_item_count : ℕ
  pub persist : Bool

-- A store and what was handed to `persist`, the last one first.
pub record Session : Type 0 where
  pub store : CursorStore
  pub saved : List CursorStore

pub data StoreError : Type 0 where
  cursor_backwards : (current next : ℕ) → StoreError
  cursor_blocked : (key : String) → Status → StoreError
  recovered_processing : ℕ → StoreError
  quarantined_items : ℕ → StoreError

unfoldable pub create_cursor_store : Option String → Bool → CursorStore
create_cursor_store file_path persist = record {
  file_path = elim file_path [ none ↦ ":memory:" | some p ↦ p ];
  cursor_last_finalized_block = 0;
  cursor_updated_at_ms = 0;
  queue_item_status = [];
  queue_item_block_number = [];
  queue_item_updated_at_ms = [];
  queue_item_submission_id = [];
  queue_item_project_id = [];
  pending_queue_items = [];
  pending_committed_candidates = [];
  recovered_processing_count = 0;
  quarantined_item_count = 0;
  persist = persist;
}

unfoldable pub create_in_memory_cursor_store : CursorStore
unfolding create_cursor_store
create_in_memory_cursor_store = create_cursor_store (some ":memory:") false

unfoldable pub count_quarantined : Map Status → ℕ
count_quarantined [] = 0
count_quarantined ((_, quarantined) ∷ m) = suc (count_quarantined m)
count_quarantined ((_, _) ∷ m) = count_quarantined m

unfoldable pub recompute_quarantined_count : CursorStore → CursorStore
recompute_quarantined_count store = record store {
  quarantined_item_count = count_quarantined store.queue_item_status;
}

unfoldable pub persist_store : Session → Session
persist_store s = if s.store.persist then record s { saved = s.store ∷ s.saved } else s

unfoldable pub assert_healthy : CursorStore → Result StoreError (Unit {0})
assert_healthy store =
    if ltb 0 store.recovered_processing_count
    then err (recovered_processing store.recovered_processing_count)
    else if ltb 0 store.quarantined_item_count
    then err (quarantined_items store.quarantined_item_count)
    else ok tt
