-- ===== src/Jury/Tests.antt =====
-- Runs of the jury at concrete inputs.
mod Fixtures
mod Rounds
mod Rosters
mod Recommendations
