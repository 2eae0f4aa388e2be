-- ===== src/Relayer/Multi/Outcome/Items.antt =====
-- What each step on a pending item enters in the journal.
use anti_soon.Prelude.{
  ap, ◌∙◌, ℕ, ◌≤◌, ◌+◌, String, ◌≡◌, refl, ap, Option, some, List, [], ◌∷◌, ◌++◌, Result, ok, err,
  leb, arith,
}
use anti_soon.Retry.{RetryPolicy}
use anti_soon.Relayer.Idempotency.{
  Reason, first_seen, in_flight, already_completed, is_quarantined, quarantined,
}
use anti_soon.Relayer.CursorState.{PendingItem}
use anti_soon.Relayer.CursorState.Claim.{mark_durable_queue_item_quarantined}
use anti_soon.Relayer.CursorState.Runs.Progress.{status_of}
use anti_soon.Relayer.Keys.{Platform}
use anti_soon.Relayer.RetryPolicy.Runner.{RetryError, run_with_retry}
use anti_soon.Relayer.RetryPolicy.Errors.{classify_error}
use anti_soon.Relayer.RunPlan.{RunOnceConfig, RunOncePlan}
use anti_soon.Relayer.Scan.{claim_invariant, throw, modify, ◌>>◌, World, ScanError, retry_error}
use anti_soon.Relayer.Scan.Triple.{
  weaken-Ends, Ends, bind-Ends, then-Ends, if-Ends, pure-Ends, throw-Ends, call-Ends, gets-Ends,
  update-Ends, modify-Ends,
}
use anti_soon.Relayer.Multi
use anti_soon.Relayer.Multi.Outcome.Batch.{
  Journal, HasRun, IsBroken, IsBatch, IsBatched, batch-IsBroken, marked_quarantined, grown,
}
use anti_soon.Relayer.Multi.Outcome.Steps.{read-Ends, try-Ends, return-Ends}
use mathlib.Core.List.{append_assoc}
use anti_soon.Relayer.Multi.Outcome.Attempts.{entered, run_with_retry-entered}
use anti_soon.Relayer.Multi.Evaluate.{SubmissionSnapshot, Evaluation, eligible, ineligible}

module _ {E : Type 0} {runtime : Multi.MultiRuntime E} (journal : Journal runtime)
    (platform : Platform) (config : RunOnceConfig) (plan : RunOncePlan) (base : List ℕ) (now_ms : ℕ)
    (retry_policy : Option RetryPolicy) where
  abbrev pub Ran : List ℕ → World E → Type 0
  Ran = HasRun journal config base

  abbrev pub RanSo : Multi.Execution → World E → Type 0
  RanSo acc = Ran acc.executed_submission_ids

  abbrev pub Broken : ScanError → World E → Type 0
  Broken = IsBroken journal config base

  abbrev pub Batched : Multi.Execution → World E → Type 0
  Batched = IsBatched journal config base

  abbrev pub IsWithin : Multi.Execution → Type 0
  IsWithin = IsBatch config.max_execution_batch_size

  drop_item-Ends :
      (item : PendingItem) (ids : List ℕ)
      → Ends {E = E} Broken
          (Ran ids)
          (λ _. Ran ids)
          (Multi.drop_item platform config plan runtime now_ms retry_policy item)
  unfolding Multi.drop_item
  drop_item-Ends item ids = modify-Ends Broken (Ran ids) _ (λ w k. k)

  finish_item-Ends :
      (item : PendingItem) (ids : List ℕ)
      → Ends {E = E} Broken
          (Ran ids)
          (λ _. Ran ids)
          (Multi.finish_item platform config plan runtime now_ms retry_policy item)
  unfolding Multi.finish_item
  finish_item-Ends item ids =
      then-Ends Broken (modify-Ends Broken (Ran ids) {after = Ran ids} _ (λ w k. k))
        (drop_item-Ends item ids)

  close-Ends :
      (item : PendingItem) (acc : Multi.Execution)
      → IsWithin acc
      → Ends {E = E} Broken
          (RanSo acc)
          Batched
          (Multi.close_as_completed platform config plan runtime now_ms retry_policy item acc)
  unfolding Multi.close_as_completed
  close-Ends item acc h =
      then-Ends Broken (finish_item-Ends item acc.executed_submission_ids)
        (return-Ends journal config base acc _ h refl)

  -- an execution that failed and whose item is still open
  give_up-Ends :
      (item : PendingItem) (acc : Multi.Execution) (error : RetryError)
      → IsWithin acc
      → Ends {E = E} Broken (RanSo acc) Batched (
          modify (λ s. mark_durable_queue_item_quarantined s item.idempotency_key now_ms)
          >> throw (retry_error error))
  give_up-Ends item acc error h =
      let marked = λ (w : World E).
        (status_of w.session item.idempotency_key ≡ some quarantined) × RanSo acc w in
      then-Ends Broken
        (modify-Ends Broken (RanSo acc) {after = marked} _
          (λ w k. (marked_quarantined w.session item.idempotency_key now_ms, k)))
        (throw-Ends Broken marked (retry_error error) (λ w k.
          batch-IsBroken journal config base (retry_error error) acc w h k.1
            (item.idempotency_key, k.0)))

  settle_failed-Ends :
      (item : PendingItem) (acc : Multi.Execution) (error : RetryError)
      → IsWithin acc
      → Ends Broken
          (RanSo acc)
          Batched
          (Multi.settle_failed platform config plan runtime now_ms retry_policy item acc error)
  unfolding Multi.settle_failed
  settle_failed-Ends item acc error h =
      let id = item.submission_id in
      bind-Ends Broken
        (try-Ends journal config base acc (runtime.read_submission id) (journal.submissions id))
        (λ submission.
          bind-Ends Broken
            (try-Ends journal config base acc (runtime.read_queued_reveal id) (journal.reveals id))
            (λ reveal.
              if-Ends Broken (Multi.is_gone submission) (λ _. close-Ends item acc h)
                (λ _.
                  if-Ends Broken (Multi.is_dequeued reveal) (λ _. close-Ends item acc h)
                    (λ _. give_up-Ends item acc error h))))

  -- the journal after the attempts on an item
  abbrev Attempted : PendingItem → Multi.Execution → Result RetryError String → World E → Type 0
  Attempted item acc r w =
      journal.executed w.env
      ≡ entered journal item.submission_id r (base ++ acc.executed_submission_ids)

  settle_run-Ends :
      (item : PendingItem) (acc : Multi.Execution) (r : Result RetryError String)
      → IsWithin acc
      → acc.executed_count + 1 ≤ config.max_execution_batch_size
      → Ends Broken
          (Attempted item acc r)
          Batched
          (Multi.settle_run platform config plan runtime now_ms retry_policy item acc r)
  unfolding Multi.settle_run
  settle_run-Ends item acc (ok tx_hash) h room =
      let ids = acc.executed_submission_ids ++ item.submission_id ∷ [] in
      weaken-Ends Broken
        (λ w k. k ∙ append_assoc base acc.executed_submission_ids (item.submission_id ∷ []))
        (then-Ends Broken (finish_item-Ends item ids)
          (pure-Ends Broken (Ran ids) _ (λ w k. ((room, grown item acc h), k))))
  settle_run-Ends item acc (err error) h room = settle_failed-Ends item acc error h

  settle_refused-Ends :
      (item : PendingItem) (acc : Multi.Execution) (reason : Reason)
      → IsWithin acc
      → Ends Broken
          (RanSo acc)
          Batched
          (Multi.settle_refused platform config plan runtime now_ms retry_policy item acc reason)
  unfolding Multi.settle_refused
  settle_refused-Ends item acc first_seen h =
      throw-Ends Broken (RanSo acc) _ (λ w k.
        batch-IsBroken journal config base (claim_invariant item.submission_id) acc w h k tt)
  settle_refused-Ends item acc in_flight h = return-Ends journal config base acc _ h refl
  settle_refused-Ends item acc is_quarantined h = return-Ends journal config base acc _ h refl
  settle_refused-Ends item acc already_completed h =
      then-Ends Broken (drop_item-Ends item acc.executed_submission_ids)
        (return-Ends journal config base acc _ h refl)

  execute_item-Ends :
      (item : PendingItem) (acc : Multi.Execution)
      → IsWithin acc
      → acc.executed_count + 1 ≤ config.max_execution_batch_size
      → Ends Broken
          (RanSo acc)
          Batched
          (Multi.execute_item platform config plan runtime now_ms retry_policy item acc)
  unfolding Multi.execute_item
  execute_item-Ends item acc h room =
      let id = item.submission_id in
      let runs = λ (e : E).
        run_with_retry retry_policy "executeQueuedReveal" (some item.idempotency_key)
          (classify_error platform.to_lower_case) (λ attempt e. runtime.execute_queued_reveal id e)
          e in
      bind-Ends Broken
        (call-Ends Broken (RanSo acc) {after = λ r. Attempted item acc r.result} _ (λ w k.
          run_with_retry-entered journal id retry_policy "executeQueuedReveal"
            (some item.idempotency_key) (classify_error platform.to_lower_case) w.env
          ∙ ap (entered journal id (runs w.env).result) k))
        (λ r.
          settle_run-Ends item
            (record acc { failure_metrics = acc.failure_metrics ++ Multi.metrics_of r.events })
            r.result h room)

  claim_item-Ends :
      (item : PendingItem) (acc : Multi.Execution) (submission : SubmissionSnapshot)
      → IsWithin acc
      → acc.executed_count + 1 ≤ config.max_execution_batch_size
      → Ends Broken
          (RanSo acc)
          Batched
          (Multi.claim_item platform config plan runtime now_ms retry_policy item acc submission)
  unfolding Multi.claim_item
  claim_item-Ends item acc submission h room =
      bind-Ends Broken (update-Ends Broken (RanSo acc) {after = λ _. RanSo acc} _ (λ w k. k))
        (λ decision.
          if-Ends Broken decision.should_process (λ _. execute_item-Ends item acc h room)
            (λ _. settle_refused-Ends item acc decision.reason h))

  settle_evaluation-Ends :
      (item : PendingItem) (acc : Multi.Execution) (submission : SubmissionSnapshot)
      (evaluation : Evaluation)
      → IsWithin acc
      → acc.executed_count + 1 ≤ config.max_execution_batch_size
      → Ends Broken (RanSo acc) Batched (
          Multi.settle_evaluation platform config plan runtime now_ms retry_policy item acc
            submission evaluation)
  unfolding Multi.settle_evaluation
  settle_evaluation-Ends item acc submission eligible h room =
      claim_item-Ends item acc submission h room
  settle_evaluation-Ends item acc submission (ineligible reason terminal) h room =
      then-Ends Broken (modify-Ends Broken (RanSo acc) {after = RanSo acc} _ (λ w k. k))
        (return-Ends journal config base acc _ h refl)

  pub process_item-Ends :
      (now : ℕ) (item : PendingItem) (acc : Multi.Execution)
      → IsWithin acc
      → Ends Broken
          (RanSo acc)
          Batched
          (Multi.process_item platform config plan runtime now_ms retry_policy now item acc)
  unfolding Multi.process_item
  process_item-Ends now item acc h =
      let id = item.submission_id in
      if-Ends Broken (leb config.max_execution_batch_size acc.executed_count)
        (λ _. return-Ends journal config base acc _ h refl)
        (λ room.
          bind-Ends Broken
            (read-Ends journal config base acc (runtime.read_submission id) h
              (journal.submissions id))
            (λ submission.
              bind-Ends Broken
                (read-Ends journal config base acc (runtime.read_project submission.project_id) h
                  (journal.projects submission.project_id))
                (λ project.
                  bind-Ends Broken
                    (read-Ends journal config base acc (runtime.read_queued_reveal id) h
                      (journal.reveals id))
                    (λ reveal.
                      bind-Ends Broken
                        (gets-Ends Broken (RanSo acc) {after = λ _. RanSo acc} _ (λ w k. k))
                        (λ completed.
                          if-Ends Broken completed
                            (λ _.
                              then-Ends Broken (drop_item-Ends item acc.executed_submission_ids)
                                (return-Ends journal config base acc _ h refl))
                            (λ _.
                              settle_evaluation-Ends item acc submission _ h (ground arith)))))))
