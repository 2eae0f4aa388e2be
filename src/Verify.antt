-- ===== src/Verify.antt =====
-- workflow/verify-poc/src/idempotency.ts, of the verification of a submission: the states of its
-- synchronisation, the slots of the idempotency keys, and the mappings of the source events.
pub mod SyncState
pub mod Slots
pub mod Mapping
pub mod Store
pub mod Grouping
mod Tests
