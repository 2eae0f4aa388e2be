-- ===== src/Relayer/Cycle.antt =====
-- workflow/auto-reveal-relayer/run-once-core.ts and run-once.ts: one cycle of the relayer, the scan of
-- the committed candidates and then that of the queued reveals, from one plan. The store is given.
pub mod Laws
use anti_soon.Prelude.{ℕ, Option, some, Result, ok, err}
use anti_soon.Retry.{RetryPolicy}
use anti_soon.Relayer.CursorState.{CursorStore, Session, StoreError, assert_healthy}
use anti_soon.Relayer.Keys.{Platform}
use anti_soon.Relayer.RunPlan.{RunOnceConfig, RunOncePlan, CursorCounts, build_run_once_plan}
use anti_soon.Relayer.Scan.{World, Scan, pure, ◌>>=◌, gets, store_call}
use anti_soon.Relayer.Unique
use anti_soon.Relayer.Unique.{run_unique_committed_candidate_scanner}
use anti_soon.Relayer.Multi
use anti_soon.Relayer.Multi.{run_multi_deadline_scanner}

pub record ExecutionResult : Type 0 where
  pub plan : RunOncePlan
  pub unique : Unique.ScannerResult
  pub multi : Multi.ScannerResult

abbrev pub plan_for : RunOnceConfig → CursorStore → RunOncePlan
plan_for config store = build_run_once_plan config store.cursor_last_finalized_block (record {
  recovered_processing_count = some store.recovered_processing_count;
  quarantined_item_count = some store.quarantined_item_count;
})

module _ {E : Type 0} (platform : Platform) (config : RunOnceConfig)
    (unique_runtime : Unique.CandidateRuntime E) (multi_runtime : Multi.MultiRuntime E) (now_ms : ℕ)
    (retry_policy : Option RetryPolicy) where
  unfoldable pub execute_relayer_cycle : Scan E ExecutionResult
  execute_relayer_cycle = do
    plan ← gets (λ s. plan_for config s.store)
    unique ← run_unique_committed_candidate_scanner platform config plan unique_runtime now_ms
    multi ← run_multi_deadline_scanner platform config plan multi_runtime now_ms retry_policy
    pure (record { plan = plan; unique = unique; multi = multi })

  unfoldable pub run_relayer_cycle : Scan E ExecutionResult
  unfolding execute_relayer_cycle
  run_relayer_cycle = do
    healthy ← store_call (λ s. (assert_healthy s.store, s))
    execute_relayer_cycle
