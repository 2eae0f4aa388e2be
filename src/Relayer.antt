-- ===== src/Relayer.antt =====
-- workflow/auto-reveal-relayer: the worker that reveals queued submissions.
pub mod Idempotency
pub mod CursorState
pub mod CursorFile
pub mod RetryPolicy
pub mod ScanRanges
pub mod RunPlan
pub mod Keys
pub mod Scan
pub mod Unique
pub mod Multi
pub mod Cycle
mod Tests
