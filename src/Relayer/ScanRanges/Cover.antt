-- ===== src/Relayer/ScanRanges/Cover.antt =====
-- The ranges are contiguous, none is longer than a chunk, and each block is in exactly one.
use anti_soon.Prelude.{
  ℕ, zero, suc, ◌+◌, ◌-◌, ◌≤◌, ◌<◌, ◌≡◌, ◌&&◌, List, [], ◌∷◌, leb, if◌then◌else◌, arith, refl,
}
use anti_soon.Relayer.ScanRanges.{BlockRange, range_end, scan_from, build_log_scan_ranges}

-- The ranges follow one another from `from_block` to `to_block`, at most `chunk` blocks each.
abbrev pub Tiles : ℕ → ℕ → ℕ → List BlockRange → Type 0
Tiles chunk from_block to_block [] = to_block < from_block
Tiles chunk from_block to_block (r ∷ rs) =
    (r.from_block ≡ from_block)
    × (from_block ≤ r.to_block)
    × (r.to_block ≤ to_block)
    × (r.to_block < from_block + chunk)
    × Tiles chunk (r.to_block + 1) to_block rs

scan_from-Tiles :
    (fuel cursor to_block chunk : ℕ)
    → 0 < chunk
    → to_block + 2 - cursor ≤ fuel
    → 0 < fuel
    → Tiles chunk cursor to_block (scan_from fuel cursor to_block chunk)
unfolding scan_from
scan_from-Tiles zero cursor to_block chunk c f h = absurd (omega arith)
scan_from-Tiles (suc fuel) cursor to_block chunk c f h =
    ground (arith, scan_from-Tiles fuel (range_end cursor to_block chunk + 1) to_block chunk c)

-- How many of the ranges hold a block.
abbrev pub holders : ℕ → List BlockRange → ℕ
holders b [] = 0
holders b (r ∷ rs) = (if leb r.from_block b && leb b r.to_block then 1 else 0) + holders b rs

holders-before :
    (chunk from_block to_block b : ℕ) (rs : List BlockRange)
    → Tiles chunk from_block to_block rs
    → b < from_block
    → holders b rs ≡ 0
holders-before chunk from_block to_block b [] t h = refl
holders-before chunk from_block to_block b (r ∷ rs) t h =
    ground (arith, holders-before chunk (r.to_block + 1) to_block b rs t.4)

holders-Tiles :
    (chunk from_block to_block b : ℕ) (rs : List BlockRange)
    → Tiles chunk from_block to_block rs
    → from_block ≤ b
    → b ≤ to_block
    → holders b rs ≡ 1
holders-Tiles chunk from_block to_block b [] t h k = absurd (omega arith)
holders-Tiles chunk from_block to_block b (r ∷ rs) t h k = ground (
  arith,
  holders-Tiles chunk (r.to_block + 1) to_block b rs t.4,
  holders-before chunk (r.to_block + 1) to_block b rs t.4,
)

-- With a chunk of at least one block the scan ranges follow one another from the first to the last
-- block, none is longer than the chunk, and each block is in exactly one range.
pub build_log_scan_ranges-Tiles :
    (from_block to_block chunk : ℕ)
    → 0 < chunk
    → Tiles chunk from_block to_block (build_log_scan_ranges from_block to_block chunk)
      × ((b : ℕ)
          → from_block ≤ b
          → b ≤ to_block
          → holders b (build_log_scan_ranges from_block to_block chunk) ≡ 1)
unfolding build_log_scan_ranges
build_log_scan_ranges-Tiles from_block to_block chunk c =
    (tiles, λ b. holders-Tiles chunk from_block to_block b _ tiles)
  where
    tiles :
        Tiles chunk from_block to_block
          (scan_from (suc (to_block + 1 - from_block)) from_block to_block chunk)
    tiles =
        scan_from-Tiles (suc (to_block + 1 - from_block)) from_block to_block chunk c (omega arith)
          (omega arith)
