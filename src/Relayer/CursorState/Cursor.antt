-- ===== src/Relayer/CursorState/Cursor.antt =====
-- Advancing the cursor over finalized blocks.
pub mod Laws
use anti_soon.Prelude.{ℕ, String, Bool, false, none, some, leb, ltb, find?, if◌then◌else◌}
use anti_soon.Prelude.Map
use anti_soon.Prelude.Map.{Map}
use anti_soon.Relayer.Idempotency.{Status, completed}
use anti_soon.Relayer.CursorState.State.{
  CursorStore, Session, StoreError, cursor_backwards, cursor_blocked, persist_store,
}
use anti_soon.Prelude.{Result, ok, err}

-- `map.get(key) ?? 0n`
abbrev pub block_of : CursorStore → String → ℕ
block_of store key = elim (Map.get store.queue_item_block_number key) [ none ↦ 0 | some n ↦ n ]

-- the predicate of `blockingKey`
blocks : CursorStore → ℕ → String × Status → Bool
blocks store next (key, completed) = false
blocks store next (key, _) = leb (block_of store key) next

unfoldable pub advance_durable_cursor : Session → ℕ → ℕ → Result StoreError ℕ × Session
unfolding blocks persist_store
advance_durable_cursor s next now_ms =
    if ltb next s.store.cursor_last_finalized_block
    then (err (cursor_backwards s.store.cursor_last_finalized_block next), s)
    else elim (find? (blocks s.store next) s.store.queue_item_status) [
      | some (key, status) ↦ (err (cursor_blocked key status), s)
      | none ↦ (
        ok next,
        persist_store (record s {
          store = record (s.store) {
            cursor_last_finalized_block = next;
            cursor_updated_at_ms = now_ms;
          };
        }),
      )
    ]
