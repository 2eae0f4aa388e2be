-- ===== src/Jury.antt =====
-- workflow/jury-orchestrator/main.ts: the adjudication of a disputed submission by a jury of ten
-- slots. The values are those that the parsers of main.ts return; the parsers are not modelled.
pub mod Types
pub mod Digest
pub mod Roster
pub mod Reissue
pub mod Ledger
pub mod Support
pub mod Aggregate
pub mod Recommendation
mod Tests
