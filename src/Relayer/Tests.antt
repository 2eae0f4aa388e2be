-- ===== src/Relayer/Tests.antt =====
-- Runs of the relayer at concrete inputs.
mod Fixtures
mod Store
mod Retry
mod Decimals
mod Restarts
mod Scans
