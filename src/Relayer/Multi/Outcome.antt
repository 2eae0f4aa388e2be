-- ===== src/Relayer/Multi/Outcome.antt =====
-- What a scan of the queued reveals leaves behind when it returns, and when it throws.
mod Batch
mod Attempts
mod Ingest
mod Steps
mod Items
pub mod Journaled
unfoldable pub use Batch.*
use Ingest.{ingest_range-Ends}
use Items.{process_item-Ends}
use mathlib.Core.List.{append-nil}
use anti_soon.Prelude.{
  sym, ap, ◌∙◌, ℕ, ◌≤◌, ◌+◌, String, ◌≡◌, refl, ap, length, Option, some, List, [], ◌∷◌, ◌++◌,
  Result, ok, err, leb, arith, eq_iff,
}
use anti_soon.Prelude.Map
use anti_soon.Retry.{RetryPolicy}
use anti_soon.Relayer.Idempotency.{
  Reason, first_seen, in_flight, already_completed, is_quarantined, quarantined,
}
use anti_soon.Relayer.CursorState.{PendingItem, Session, StoreError}
use anti_soon.Relayer.CursorState.Claim.{mark_durable_queue_item_quarantined}
use anti_soon.Relayer.CursorState.Pending.{list_durable_pending_queue_items}
use anti_soon.Relayer.CursorState.Cursor.{advance_durable_cursor}
use anti_soon.Relayer.CursorState.Cursor.Laws.{advance_effect}
use anti_soon.Relayer.CursorState.Runs.Progress.{cursor, status_of}
use anti_soon.Relayer.Keys.{Platform}
use anti_soon.Relayer.RetryPolicy.Runner.{RetryError, Run, run_with_retry}
use anti_soon.Relayer.RetryPolicy.Errors.{Thrown, classify_error}
use anti_soon.Relayer.RunPlan.{RunOnceConfig, RunOncePlan}
use anti_soon.Relayer.ScanRanges.{BlockRange}
use anti_soon.Relayer.Scan.{
  gets, pure, store_error, ◌>>=◌, ask, call, attempt, World, ScanError, retry_error, from_store,
  store_call, for_each,
}
use anti_soon.Relayer.Scan.Logs.{is_outside}
use anti_soon.Relayer.Scan.Triple.{
  weaken-Ends, and-Ends, Outcome, Ends, bind-Ends, then-Ends, if-Ends, for_each-Ends, pure-Ends,
  throw-Ends, ask-Ends, attempt-Ends, call-Ends, gets-Ends, update-Ends, modify-Ends, key-Ends,
  store_call-Ends,
}
use anti_soon.Relayer.Multi
use anti_soon.Relayer.Multi.Evaluate.{SubmissionSnapshot, Evaluation, eligible, ineligible}

module _ {E : Type 0} {runtime : Multi.MultiRuntime E} (journal : Journal runtime)
    (platform : Platform) (config : RunOnceConfig) (plan : RunOncePlan) (base : List ℕ) (now_ms : ℕ)
    (retry_policy : Option RetryPolicy) where
  abbrev Broken : ScanError → World E → Type 0
  Broken = IsBroken journal config base

  -- the cursor has been moved, after the executions `ids`
  abbrev Advanced : List ℕ → ℕ → World E → Type 0
  Advanced ids n w =
      (cursor w.session ≡ plan.to_block) × (n ≡ plan.to_block) × HasRun journal config base ids w

  advance-Ends :
      (acc : Multi.Execution)
      → IsBatch config.max_execution_batch_size acc
      → Ends Broken
          (HasRun journal config base acc.executed_submission_ids)
          (Advanced acc.executed_submission_ids)
          (store_call (λ s. advance_durable_cursor s plan.to_block now_ms))
  advance-Ends acc h =
      store_call-Ends Broken (HasRun journal config base acc.executed_submission_ids) _
        (λ w k. go w k (advance_durable_cursor w.session plan.to_block now_ms).0 refl)
    where
      go :
          (w : World E)
          → HasRun journal config base acc.executed_submission_ids w
          → (r : Result StoreError ℕ)
          → (advance_durable_cursor w.session plan.to_block now_ms).0 ≡ r
          → Outcome Broken
              (Advanced acc.executed_submission_ids)
              (from_store r)
              (record w { session = (advance_durable_cursor w.session plan.to_block now_ms).1 })
      go w k (ok n) p =
          let moved = (advance_effect w.session plan.to_block now_ms).1 n p in
          (ap (λ t. t.cursor_last_finalized_block) moved.1, moved.0, k)
      go w k (err e) p =
          let t = (advance_durable_cursor w.session plan.to_block now_ms).1 in
          batch-IsBroken journal config base (store_error e) acc (record w { session = t }) h k tt

  loop-Ends :
      (now : ℕ) (items : List PendingItem) (acc : Multi.Execution)
      → Ends Broken (IsBatched journal config base acc) (IsBatched journal config base) (
          for_each
            (Multi.process_item platform config plan runtime now_ms retry_policy now)
            items
            acc)
  loop-Ends now items acc =
      for_each-Ends Broken (IsBatched journal config base)
        (λ item acc. and-Ends Broken (λ h.
          process_item-Ends journal platform config plan base now_ms retry_policy now item acc h))
        items acc

  finish-Ends :
      (scanned : ℕ) (acc : Multi.Execution)
      → IsBatch config.max_execution_batch_size acc
      → Ends Broken
          (HasRun journal config base acc.executed_submission_ids)
          (IsDone journal config base plan)
          (store_call (λ s. advance_durable_cursor s plan.to_block now_ms) >>= λ advanced.
            gets (λ s. list_durable_pending_queue_items platform.locale_compare s.store)
            >>= λ pending. pure (record {
              scanned_log_count = scanned;
              executed_count = acc.executed_count;
              executed_submission_ids = acc.executed_submission_ids;
              skipped = acc.skipped;
              pending_queue_items = pending;
              failure_metrics = acc.failure_metrics;
              cursor_advanced_to_block = advanced;
            }))
  finish-Ends scanned acc h =
      let ids = acc.executed_submission_ids in
      bind-Ends Broken (advance-Ends acc h) (λ n.
        bind-Ends Broken
          (gets-Ends Broken (Advanced ids n) {after = λ _. Advanced ids n} _ (λ w k. k))
          (λ pending. pure-Ends Broken (Advanced ids n) _ (λ w k. record {
            executed = k.2;
            batch = h.0;
            listed = h.1;
            advanced = k.0;
            reported = k.1;
          })))

  scanner-Ends :
      Ends Broken
        (HasRun journal config base [])
        (IsDone journal config base plan)
        (Multi.run_multi_deadline_scanner platform config plan runtime now_ms retry_policy)
  unfolding Multi.run_multi_deadline_scanner
  scanner-Ends =
      let idle = HasRun journal config base [] in
      bind-Ends Broken
        (ask-Ends Broken idle {after = λ _. idle} runtime.get_now_timestamp_sec
          (λ w a p k. journal.clock w.env ∙ k)
          (λ w t k. (tt, [], omega arith, journal.clock w.env ∙ k)))
        (λ now.
          bind-Ends Broken
            (for_each-Ends Broken (λ _. idle)
              (ingest_range-Ends journal platform config plan base now_ms retry_policy) _ 0)
            (λ scanned.
              bind-Ends Broken (gets-Ends Broken idle {after = λ _. idle} _ (λ w k. k)) (λ items.
                bind-Ends Broken
                  (weaken-Ends Broken (λ w k. ((omega arith, refl), k)) (loop-Ends now items _))
                  (λ execution. and-Ends Broken (λ batch. finish-Ends scanned execution batch)))))

-- Take any runtime with a journal of the submissions whose reveals it has executed. A scan of the
-- queued reveals that returns has entered in the journal, in their order, exactly the submissions
-- that it lists, no more of them than the batch allows and as many as it counts, and has moved the
-- cursor to the plan's last block, which it reports. One that throws has entered no more than the
-- batch allows either, and where the error is that of an execution, some item is quarantined.
pub run_multi_deadline_scanner-Outcome :
    {E : Type 0} {runtime : Multi.MultiRuntime E} (journal : Journal runtime) (platform : Platform)
    (config : RunOnceConfig) (plan : RunOncePlan) (now_ms : ℕ) (retry_policy : Option RetryPolicy)
    (w : World E)
    → let (r, t) =
        Multi.run_multi_deadline_scanner platform config plan runtime now_ms retry_policy w in
      let before = journal.executed w.env in
      Outcome (IsBroken journal config before) (IsDone journal config before plan) r t
run_multi_deadline_scanner-Outcome journal platform config plan now_ms retry_policy w =
    (scanner-Ends journal platform config plan (journal.executed w.env) now_ms retry_policy).ends w
      (sym (append-nil (journal.executed w.env)))
