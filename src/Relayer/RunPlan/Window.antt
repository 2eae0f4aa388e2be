-- ===== src/Relayer/RunPlan/Window.antt =====
-- The window of blocks of a plan: it leaves no gap behind the cursor, and when it lets the cursor move.
use anti_soon.Prelude.{ℕ, ◌+◌, ◌≤◌, ◌<◌, ◌≡◌, ◌↔◌, arith}
use anti_soon.Relayer.RunPlan.{RunOnceConfig, CursorCounts, build_run_once_plan}

-- The window begins right after the cursor or earlier, by at most the overlap, and has the configured length.
pub plan_window :
    (config : RunOnceConfig) (last : ℕ) (counts : CursorCounts)
    → 0 < config.lookback_blocks
    → let plan = build_run_once_plan config last counts in
      (1 ≤ plan.from_block)
      × (plan.from_block ≤ last + 1)
      × (last < plan.from_block + config.replay_overlap_blocks)
      × (plan.to_block + 1 ≡ plan.from_block + config.lookback_blocks)
unfolding build_run_once_plan
plan_window config last counts h = ground arith

-- With a positive lookback and a cursor past the overlap, the window of a plan reaches the cursor
-- exactly when the lookback is at least the overlap, and goes beyond it exactly when it is more.
pub plan_progress :
    (config : RunOnceConfig) (last : ℕ) (counts : CursorCounts)
    → 0 < config.lookback_blocks
    → config.replay_overlap_blocks < last
    → let plan = build_run_once_plan config last counts in
      ((last ≤ plan.to_block) ↔ (config.replay_overlap_blocks ≤ config.lookback_blocks))
      × ((last < plan.to_block) ↔ (config.replay_overlap_blocks < config.lookback_blocks))
unfolding build_run_once_plan
plan_progress config last counts h k = ground arith
