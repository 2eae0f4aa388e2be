-- ===== src/Relayer/CursorState/Pending/Items.antt =====
-- One entry of the pending maps: what an upsert finds and what it writes.
use anti_soon.Prelude.{
  ℕ, String, Bool, ◌&&◌, Option, none, some, ◌==◌, str_eq, find?, if◌then◌else◌,
}
use anti_soon.Prelude.Map
use anti_soon.Prelude.Map.{Map}
use anti_soon.Relayer.CursorState.State.{PendingItem}

-- `Omit<…, "firstSeenAtMs" | "lastEvaluatedAtMs">`
pub record NewItem : Type 0 where
  pub idempotency_key : String
  pub submission_id : ℕ
  pub project_id : ℕ
  pub block_number : ℕ
  pub tx_hash : String
  pub log_index : ℕ

-- `{ ...item, firstSeenAtMs, lastEvaluatedAtMs }`
abbrev pub stamp : NewItem → ℕ → ℕ → PendingItem
stamp item first last = record {
  idempotency_key = item.idempotency_key;
  submission_id = item.submission_id;
  project_id = item.project_id;
  block_number = item.block_number;
  tx_hash = item.tx_hash;
  log_index = item.log_index;
  first_seen_at_ms = first;
  last_evaluated_at_ms = last;
}

abbrev pub same_identity : ℕ → ℕ → PendingItem → Bool
same_identity submission_id project_id candidate =
    (candidate.submission_id == submission_id) && (candidate.project_id == project_id)

-- `map.get(item.idempotencyKey) ?? [...map.values()].find(…)`
unfoldable pub find_existing : Map PendingItem → NewItem → Option PendingItem
find_existing m item = elim (Map.get m item.idempotency_key) [
  | some existing ↦ some existing
  | none ↦ find? (same_identity item.submission_id item.project_id) (Map.values m)
]

-- the entry that an upsert writes, from what `find_existing` gives
unfoldable pub next_item : Option PendingItem → NewItem → ℕ → PendingItem
next_item none item now_ms = stamp item now_ms now_ms
next_item (some existing) item now_ms =
    if str_eq existing.idempotency_key item.idempotency_key
    then stamp item existing.first_seen_at_ms now_ms
    else record existing { last_evaluated_at_ms = now_ms }

unfoldable pub upsert_pending : Map PendingItem → NewItem → ℕ → Map PendingItem × PendingItem
upsert_pending m item now_ms =
    let next = next_item (find_existing m item) item now_ms in
    (Map.set m next.idempotency_key next, next)
