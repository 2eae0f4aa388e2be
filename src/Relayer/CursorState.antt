-- ===== src/Relayer/CursorState.antt =====
-- workflow/auto-reveal-relayer/cursor-state.ts: the durable store of the relayer and its operations.
-- The maps "by idempotency key" keep their names without that suffix. Block numbers, ids and times
-- are natural numbers. A call of `store.persist` puts the store, as it then is, in front of `saved`.
mod State
pub mod Pending
pub mod Claim
pub mod Cursor
pub mod Runs
unfoldable pub use State.*
