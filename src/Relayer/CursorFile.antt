-- ===== src/Relayer/CursorFile.antt =====
-- The file of the durable store, workflow/auto-reveal-relayer/cursor-store.ts: what is written. A file
-- that is written holds the value, see Prelude/Json; `JSON.stringify` leaves out a field that is
-- undefined. The file operations succeed.
pub mod Load
pub mod Entries
pub mod Replayed
pub mod Restored
pub mod Restart
pub mod Runs
use Prim.Native.Nat.{Ordering}
use Prim.Native.String
use anti_soon.Prelude.{ℕ, String, List, [], ◌∷◌, Option, none, some}
use anti_soon.Prelude.Map
use anti_soon.Prelude.Map.{Map}
use anti_soon.Prelude.Sort.{sort}
use anti_soon.Prelude.Decimal.{to_string}
use anti_soon.Prelude.Json.{Disk, Json, number, text, object, Fields, end, field}
use anti_soon.Relayer.Idempotency.{Status, processing, completed, quarantined}
use anti_soon.Relayer.CursorState.{PendingItem, CursorStore}

abbrev pub cursor_schema_version : String
cursor_schema_version = "anti-soon.auto-reveal.cursor-store.v1"

unfoldable pub queue_status_text : Status → String
queue_status_text processing = "processing"
queue_status_text completed = "completed"
queue_status_text quarantined = "quarantined"

-- `map.get(key) ?? 0`
unfoldable pub number_at : Map ℕ → String → ℕ
number_at m key = elim (Map.get m key) [ none ↦ 0 | some n ↦ n ]

-- a field `map.get(key)?.toString()`
unfoldable pub optional_field : String → Option ℕ → Fields → Fields
optional_field name none later = later
optional_field name (some n) later = field name (text (to_string n)) later

-- `PersistedQueueItemRecord`
unfoldable pub queue_item_record : Status → ℕ → ℕ → Option ℕ → Option ℕ → Json
unfolding queue_status_text optional_field
queue_item_record status block_number updated_at_ms submission_id project_id = object (
    field "status" (text (queue_status_text status)) (
      field "blockNumber" (text (to_string block_number)) (
        field "updatedAtMs" (number updated_at_ms) (
          optional_field "submissionId" submission_id
            (optional_field "projectId" project_id end)))))

-- The names of the three fields in which the two kinds of pending records differ.
pub record Names : Type 0 where
  pub block_number : String
  pub tx_hash : String
  pub log_index : String

abbrev pub queue_names : Names
queue_names = record {
  block_number = "queuedBlockNumber";
  tx_hash = "queueTxHash";
  log_index = "queueLogIndex";
}

abbrev pub commit_names : Names
commit_names = record {
  block_number = "commitBlockNumber";
  tx_hash = "commitTxHash";
  log_index = "commitLogIndex";
}

-- `PersistedPendingQueueItemRecord` and `PersistedPendingCommittedCandidateRecord`
unfoldable pub pending_record : Names → PendingItem → Json
pending_record names item = object (
    field "submissionId" (text (to_string item.submission_id)) (
      field "projectId" (text (to_string item.project_id)) (
        field names.block_number (text (to_string item.block_number)) (
          field names.tx_hash (text item.tx_hash) (
            field names.log_index (text (to_string item.log_index)) (
              field "firstSeenAtMs" (number item.first_seen_at_ms)
                (field "lastEvaluatedAtMs" (number item.last_evaluated_at_ms) end)))))))

-- the loops over the sorted entries
unfoldable pub queue_item_fields : CursorStore → Map Status → Fields
unfolding queue_item_record number_at
queue_item_fields store [] = end
queue_item_fields store ((key, status) ∷ later) =
    field key
      (queue_item_record status (number_at store.queue_item_block_number key)
        (number_at store.queue_item_updated_at_ms key) (Map.get store.queue_item_submission_id key)
        (Map.get store.queue_item_project_id key))
      (queue_item_fields store later)

unfoldable pub pending_fields : Names → Map PendingItem → Fields
unfolding pending_record
pending_fields names [] = end
pending_fields names ((key, item) ∷ later) =
    field key (pending_record names item) (pending_fields names later)

module _ (locale_compare : String → String → Ordering) where
  abbrev pub compare_keys {ℓ} : {V : Type ℓ} → String × V → String × V → Ordering
  compare_keys left right = locale_compare left.0 right.0

  -- `AutoRevealCursorStoreFile`
  unfoldable pub cursor_payload : CursorStore → Json
  unfolding queue_item_fields pending_fields
  cursor_payload store = object (
      field "schemaVersion" (text cursor_schema_version) (
        field "cursor"
          (object (
            field "lastFinalizedBlock" (text (to_string store.cursor_last_finalized_block))
              (field "updatedAtMs" (number store.cursor_updated_at_ms) end)))
          (field "queueItemStatusByIdempotencyKey"
            (object (queue_item_fields store (sort compare_keys store.queue_item_status)))
            (field "pendingQueueItemsByIdempotencyKey"
              (object (pending_fields queue_names (sort compare_keys store.pending_queue_items)))
              (field "pendingCommittedCandidatesByIdempotencyKey"
                (object (
                  pending_fields commit_names
                    (sort compare_keys store.pending_committed_candidates)))
                end)))))

  -- the temporary file is written, and takes the place of the file
  unfoldable pub persist_cursor_store : CursorStore → Disk → Disk
  unfolding cursor_payload
  persist_cursor_store store disk =
      let temp_path = String.◌++◌ store.file_path ".tmp" in
      let written = Map.set disk temp_path (some (cursor_payload store)) in
      Map.set (Map.delete written temp_path) store.file_path (some (cursor_payload store))
