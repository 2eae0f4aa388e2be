-- ===== src/Relayer/ScanRanges.antt =====
-- `buildLogScanRanges` of workflow/auto-reveal-relayer/multi-deadline.ts and, word for word,
-- unique-orchestration.ts: the block ranges in which the logs are asked for.
-- The model is of a chunk size of at least 1, which `loadRunOnceConfig` demands: with 0 the code loops
-- for ever. The fuel is one round for each block, and one more.
pub mod Cover
use anti_soon.Prelude.{ℕ, zero, suc, ◌+◌, ◌-◌, List, [], ◌∷◌, leb, if◌then◌else◌}

pub record BlockRange : Type 0 where
  pub from_block : ℕ
  pub to_block : ℕ

abbrev pub range_end : ℕ → ℕ → ℕ → ℕ
range_end cursor to_block step =
    if leb (cursor + step - 1) to_block then cursor + step - 1 else to_block

scan_from : ℕ → ℕ → ℕ → ℕ → List BlockRange
scan_from zero cursor to_block step = []
scan_from (suc fuel) cursor to_block step =
    let rest = scan_from fuel (range_end cursor to_block step + 1) to_block step in
    if leb cursor to_block
    then record { from_block = cursor; to_block = range_end cursor to_block step } ∷ rest
    else []

unfoldable pub build_log_scan_ranges : ℕ → ℕ → ℕ → List BlockRange
unfolding scan_from
build_log_scan_ranges from_block to_block chunk_size =
    scan_from (suc (to_block + 1 - from_block)) from_block to_block chunk_size
