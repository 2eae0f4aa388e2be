-- ===== src/Relayer/Multi.antt =====
-- workflow/auto-reveal-relayer/multi-deadline.ts: the queued reveals of the MULTI projects, executed
-- once their deadlines allow it. `sleep` and `recordMetric` are not calls of the runtime: their
-- arguments are the events of the runs, of which the metrics are kept.
pub mod Evaluate
pub mod Laws
pub mod Outcome
mod Types
unfoldable pub use Types.*
use anti_soon.Prelude.{
  ℕ, ◌+◌, String, Bool, true, false, not, Option, none, some, List, [], ◌∷◌, ◌++◌, Result, ok, err,
  leb, if◌then◌else◌,
}
use anti_soon.Retry.{RetryPolicy}
use anti_soon.Relayer.Idempotency.{
  Decision, Reason, first_seen, in_flight, already_completed, is_quarantined,
}
use anti_soon.Relayer.CursorState.{PendingItem, Session}
use anti_soon.Relayer.CursorState.Pending.{
  NewItem, upsert_durable_pending_queue_item, remove_durable_pending_queue_item,
  list_durable_pending_queue_items,
}
use anti_soon.Relayer.CursorState.Claim.{
  claim_durable_queue_item, mark_durable_queue_item_completed, mark_durable_queue_item_quarantined,
  has_durable_completed_submission,
}
use anti_soon.Relayer.CursorState.Cursor.{advance_durable_cursor}
use anti_soon.Relayer.Keys.{Platform, derive_queue_item_idempotency_key}
use anti_soon.Relayer.RetryPolicy.Errors.{Thrown, classify_error}
use anti_soon.Relayer.RetryPolicy.Runner.{
  FailureMetric, Event, slept, emitted, RetryError, run_with_retry,
}
use anti_soon.Relayer.RunPlan.{RunOnceConfig, RunOncePlan}
use anti_soon.Relayer.ScanRanges.{BlockRange, build_log_scan_ranges}
use anti_soon.Relayer.Scan.{
  ScanError, retry_error, claim_invariant, World, Scan, pure, throw, ◌>>=◌, ◌>>◌, ask, attempt,
  call, key_or_throw, gets, update, modify, store_call, for_each,
}
use anti_soon.Relayer.Scan.Logs.{LogPosition, sort_logs, is_outside}
use Evaluate.{
  SubmissionSnapshot, ProjectSnapshot, QueuedRevealSnapshot, SkipReason, completed_before,
  quarantined_before, batch_limit_reached, Evaluation, eligible, ineligible, is_committed,
  evaluate_pending_queue_item, claim_reason_to_skip_reason,
}

module _ {E : Type 0} (platform : Platform) (config : RunOnceConfig) (plan : RunOncePlan)
    (runtime : MultiRuntime E) (now_ms : ℕ) (retry_policy : Option RetryPolicy) where
  ingest_log : QueuedRevealLog → ℕ → Scan E ℕ
  ingest_log log scanned = if is_outside plan log.block_number then pure scanned else (do
    submission ← ask (runtime.read_submission log.submission_id)
    key ← key_or_throw (
        derive_queue_item_idempotency_key platform (record {
          chain_id = config.chain_id;
          bounty_hub_address = config.bounty_hub_address;
          tx_hash = log.transaction_hash;
          log_index = log.log_index;
          block_number = log.block_number;
          project_id = submission.project_id;
          submission_id = submission.submission_id;
        }))
    update (λ s.
        upsert_durable_pending_queue_item s
          (record {
            idempotency_key = key;
            submission_id = submission.submission_id;
            project_id = submission.project_id;
            block_number = log.block_number;
            tx_hash = log.transaction_hash;
            log_index = log.log_index;
          })
          now_ms)
    pure (scanned + 1))

  pub ingest_range : BlockRange → ℕ → Scan E ℕ
  ingest_range range scanned = do
    logs ← ask (runtime.get_queued_reveal_logs range)
    for_each ingest_log (sort_logs platform position logs) scanned

  drop_item : PendingItem → Scan E (Unit {0})
  drop_item item = modify (λ s. remove_durable_pending_queue_item s item.idempotency_key)

  finish_item : PendingItem → Scan E (Unit {0})
  unfolding drop_item
  finish_item item = do
    modify (λ s. mark_durable_queue_item_completed s item.idempotency_key now_ms)
    drop_item item

  -- the item was already executed: it is closed, with a skip record
  close_as_completed : PendingItem → Execution → Scan E Execution
  unfolding finish_item
  close_as_completed item acc = do finish_item item; pure (skip_with item acc completed_before true)

  -- the `catch` block
  settle_failed : PendingItem → Execution → RetryError → Scan E Execution
  unfolding close_as_completed
  settle_failed item acc error = do
    refreshed_submission ← attempt (runtime.read_submission item.submission_id)
    refreshed_queued_reveal ← attempt (runtime.read_queued_reveal item.submission_id)
    if is_gone refreshed_submission
        then close_as_completed item acc
        else if is_dequeued refreshed_queued_reveal
        then close_as_completed item acc
        else (do
          modify (λ s. mark_durable_queue_item_quarantined s item.idempotency_key now_ms)
          throw (retry_error error))

  -- the `try` block, after the run of attempts
  settle_run : PendingItem → Execution → Result RetryError String → Scan E Execution
  unfolding settle_failed finish_item
  settle_run item acc (err error) = settle_failed item acc error
  settle_run item acc (ok tx_hash) = do
    finish_item item
    pure (record acc {
      executed_submission_ids = acc.executed_submission_ids ++ (item.submission_id ∷ []);
      executed_count = acc.executed_count + 1;
    })

  execute_item : PendingItem → Execution → Scan E Execution
  unfolding settle_run
  execute_item item acc = do
    r ← call (λ env.
        let r =
          run_with_retry retry_policy "executeQueuedReveal" (some item.idempotency_key)
            (classify_error platform.to_lower_case)
            (λ attempt e. runtime.execute_queued_reveal item.submission_id e) env in
        (r, r.env))
    settle_run item (record acc { failure_metrics = acc.failure_metrics ++ metrics_of r.events })
        r.result

  -- `!claim.shouldProcess`
  settle_refused : PendingItem → Execution → Reason → Scan E Execution
  unfolding drop_item
  settle_refused item acc first_seen = throw (claim_invariant item.submission_id)
  settle_refused item acc in_flight =
      pure (skip_with item acc (claim_reason_to_skip_reason in_flight) false)
  settle_refused item acc is_quarantined =
      pure (skip_with item acc (claim_reason_to_skip_reason is_quarantined) true)
  settle_refused item acc already_completed = do
    drop_item item
    pure (skip_with item acc (claim_reason_to_skip_reason already_completed) true)

  -- from the claim on
  claim_item : PendingItem → Execution → SubmissionSnapshot → Scan E Execution
  unfolding execute_item settle_refused
  claim_item item acc submission = do
    claim ← update (λ s. claim_durable_queue_item s item.idempotency_key item.block_number now_ms (
        some (record {
          submission_id = submission.submission_id;
          project_id = submission.project_id;
        })))
    if claim.should_process then execute_item item acc else settle_refused item acc claim.reason

  -- from the evaluation on, for a submission that no completed item records
  settle_evaluation : PendingItem → Execution → SubmissionSnapshot → Evaluation → Scan E Execution
  unfolding claim_item drop_item
  settle_evaluation item acc submission eligible = claim_item item acc submission
  settle_evaluation item acc submission (ineligible reason terminal) = do
    modify (λ s. if terminal then remove_durable_pending_queue_item s item.idempotency_key else s)
    pure (skip_with item acc reason terminal)

  pub process_item : ℕ → PendingItem → Execution → Scan E Execution
  unfolding settle_evaluation drop_item
  process_item current_timestamp_sec item acc =
      if leb config.max_execution_batch_size acc.executed_count
      then pure (skip_with item acc batch_limit_reached false)
      else (do
        submission ← ask (runtime.read_submission item.submission_id)
        project ← ask (runtime.read_project submission.project_id)
        queued_reveal ← ask (runtime.read_queued_reveal item.submission_id)
        completed ← gets (λ s.
            has_durable_completed_submission s.store submission.submission_id submission.project_id)
        if completed
            then (do drop_item item; pure (skip_with item acc completed_before true))
            else settle_evaluation item acc submission (
                evaluate_pending_queue_item current_timestamp_sec submission project queued_reveal))

  unfoldable pub run_multi_deadline_scanner : Scan E ScannerResult
  unfolding ingest_range ingest_log process_item
  run_multi_deadline_scanner = do
    current_timestamp_sec ← ask runtime.get_now_timestamp_sec
    scanned ←
        for_each ingest_range
          (build_log_scan_ranges plan.from_block plan.to_block plan.log_chunk_blocks) 0
    items ← gets (λ s. list_durable_pending_queue_items platform.locale_compare s.store)
    execution ← for_each (process_item current_timestamp_sec) items (record {
      executed_count = 0;
      executed_submission_ids = [];
      skipped = [];
      failure_metrics = [];
    })
    advanced ← store_call (λ s. advance_durable_cursor s plan.to_block now_ms)
    pending ← gets (λ s. list_durable_pending_queue_items platform.locale_compare s.store)
    pure (record {
      scanned_log_count = scanned;
      executed_count = execution.executed_count;
      executed_submission_ids = execution.executed_submission_ids;
      skipped = execution.skipped;
      pending_queue_items = pending;
      failure_metrics = execution.failure_metrics;
      cursor_advanced_to_block = advanced;
    })
