-- ===== src/Verify/Tests.antt =====
-- Runs at concrete inputs.
mod Syncs
mod Mappings
mod Groups
mod Restarts
