-- ===== src/Verify/Grouping.antt =====
-- workflow/verify-poc/src/multiGrouping.ts: the submissions of a project in groups of similar ones.
pub mod Floats
pub mod Similarity
pub mod Components
pub mod Ranked
pub mod Build
pub mod Normalize
pub mod PostVerdict
