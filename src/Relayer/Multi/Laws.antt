-- ===== src/Relayer/Multi/Laws.antt =====
-- What a scan of the queued reveals does to the store: operations of cursor-state.ts, and no more.
use anti_soon.Prelude.{ℕ, String, true, false, Option, some, Result, ok, err}
use anti_soon.Retry.{RetryPolicy}
use anti_soon.Relayer.Idempotency.{Reason, first_seen, in_flight, already_completed, is_quarantined}
use anti_soon.Relayer.CursorState.{PendingItem, Session}
use anti_soon.Relayer.CursorState.Runs.{
  claim, complete, quarantine, advance, upsert_queue_item, remove_queue_item, apply,
}
use anti_soon.Relayer.Keys.{Platform}
use anti_soon.Relayer.RetryPolicy.Runner.{RetryError}
use anti_soon.Relayer.RunPlan.{RunOnceConfig, RunOncePlan}
use anti_soon.Relayer.ScanRanges.{BlockRange}
use anti_soon.Relayer.Scan.{World}
use anti_soon.Relayer.Scan.Reach.{
  IsClosed, Keeps, bind-Keeps, then-Keeps, pure-Keeps, throw-Keeps, ask-Keeps, attempt-Keeps,
  call-Keeps, gets-Keeps, update-Keeps, modify-Keeps, store_call-Keeps, if-Keeps, key-Keeps,
  for_each-Keeps, Reaches, Reaches-IsClosed, Reaches-refl,
}
use anti_soon.Relayer.Multi
use anti_soon.Relayer.Multi.Evaluate.{SubmissionSnapshot, Evaluation, eligible, ineligible}

module _ {E : Type 0} (platform : Platform) (config : RunOnceConfig) (plan : RunOncePlan)
    (runtime : Multi.MultiRuntime E) (now_ms : ℕ) (retry_policy : Option RetryPolicy)
    (P : Session → Type 0) (closed : IsClosed P) where
  ingest_log-Keeps :
      (log : Multi.QueuedRevealLog) (scanned : ℕ)
      → Keeps P (Multi.ingest_log platform config plan runtime now_ms retry_policy log scanned)
  unfolding Multi.ingest_log apply
  ingest_log-Keeps log scanned = if-Keeps P _ (pure-Keeps P _) (
      bind-Keeps P (ask-Keeps P _) (λ submission. bind-Keeps P (key-Keeps P _) (λ key.
        then-Keeps P (update-Keeps P _ (λ s h. closed (upsert_queue_item _ now_ms) s h))
          (pure-Keeps P _))))

  ingest_range-Keeps :
      (range : BlockRange) (scanned : ℕ)
      → Keeps P (Multi.ingest_range platform config plan runtime now_ms retry_policy range scanned)
  unfolding Multi.ingest_range
  ingest_range-Keeps range scanned =
      bind-Keeps P (ask-Keeps P _) (λ logs. for_each-Keeps P ingest_log-Keeps _ scanned)

  drop_item-Keeps :
      (item : PendingItem)
      → Keeps {E = E} P (Multi.drop_item platform config plan runtime now_ms retry_policy item)
  unfolding Multi.drop_item apply
  drop_item-Keeps item =
      modify-Keeps P _ (λ s h. closed (remove_queue_item item.idempotency_key) s h)

  finish_item-Keeps :
      (item : PendingItem)
      → Keeps {E = E} P (Multi.finish_item platform config plan runtime now_ms retry_policy item)
  unfolding Multi.finish_item apply
  finish_item-Keeps item =
      then-Keeps P (modify-Keeps P _ (λ s h. closed (complete item.idempotency_key now_ms) s h))
        (drop_item-Keeps item)

  close-Keeps :
      (item : PendingItem) (acc : Multi.Execution)
      → Keeps P (Multi.close_as_completed platform config plan runtime now_ms retry_policy item acc)
  unfolding Multi.close_as_completed
  close-Keeps item acc = then-Keeps P (finish_item-Keeps item) (pure-Keeps P _)

  settle_run-Keeps :
      (item : PendingItem) (acc : Multi.Execution) (r : Result RetryError String)
      → Keeps P (Multi.settle_run platform config plan runtime now_ms retry_policy item acc r)
  unfolding Multi.settle_run Multi.settle_failed apply
  settle_run-Keeps item acc (ok tx_hash) = then-Keeps P (finish_item-Keeps item) (pure-Keeps P _)
  settle_run-Keeps item acc (err error) = bind-Keeps P (attempt-Keeps P _) (λ submission.
      bind-Keeps P (attempt-Keeps P _) (λ reveal. if-Keeps P _ (close-Keeps item acc) (
        if-Keeps P _ (close-Keeps item acc) (
          then-Keeps P
            (modify-Keeps P _ (λ s h. closed (quarantine item.idempotency_key now_ms) s h))
            (throw-Keeps P _)))))

  settle_refused-Keeps :
      (item : PendingItem) (acc : Multi.Execution) (reason : Reason)
      → Keeps P
          (Multi.settle_refused platform config plan runtime now_ms retry_policy item acc reason)
  unfolding Multi.settle_refused
  settle_refused-Keeps item acc first_seen = throw-Keeps P _
  settle_refused-Keeps item acc in_flight = pure-Keeps P _
  settle_refused-Keeps item acc is_quarantined = pure-Keeps P _
  settle_refused-Keeps item acc already_completed =
      then-Keeps P (drop_item-Keeps item) (pure-Keeps P _)

  execute_item-Keeps :
      (item : PendingItem) (acc : Multi.Execution)
      → Keeps P (Multi.execute_item platform config plan runtime now_ms retry_policy item acc)
  unfolding Multi.execute_item
  execute_item-Keeps item acc =
      bind-Keeps P (call-Keeps P _) (λ r. settle_run-Keeps item _ r.result)

  claim_item-Keeps :
      (item : PendingItem) (acc : Multi.Execution) (submission : SubmissionSnapshot)
      → Keeps P
          (Multi.claim_item platform config plan runtime now_ms retry_policy item acc submission)
  unfolding Multi.claim_item apply
  claim_item-Keeps item acc submission =
      bind-Keeps P
        (update-Keeps P _
          (λ s h. closed (claim item.idempotency_key item.block_number now_ms (some _)) s h))
        (λ decision.
          if-Keeps P _ (execute_item-Keeps item acc)
            (settle_refused-Keeps item acc decision.reason))

  settle_evaluation-Keeps :
      (item : PendingItem) (acc : Multi.Execution) (submission : SubmissionSnapshot)
      (evaluation : Evaluation)
      → Keeps P (
          Multi.settle_evaluation platform config plan runtime now_ms retry_policy item acc
            submission evaluation)
  unfolding Multi.settle_evaluation apply
  settle_evaluation-Keeps item acc submission eligible = claim_item-Keeps item acc submission
  settle_evaluation-Keeps item acc submission (ineligible reason true) =
      then-Keeps P (modify-Keeps P _ (λ s h. closed (remove_queue_item item.idempotency_key) s h))
        (pure-Keeps P _)
  settle_evaluation-Keeps item acc submission (ineligible reason false) =
      then-Keeps P (modify-Keeps P _ (λ s h. h)) (pure-Keeps P _)

  process_item-Keeps :
      (now : ℕ) (item : PendingItem) (acc : Multi.Execution)
      → Keeps P (Multi.process_item platform config plan runtime now_ms retry_policy now item acc)
  unfolding Multi.process_item
  process_item-Keeps now item acc = if-Keeps P _ (pure-Keeps P _) (
      bind-Keeps P (ask-Keeps P _) (λ submission. bind-Keeps P (ask-Keeps P _) (λ project.
        bind-Keeps P (ask-Keeps P _) (λ reveal. bind-Keeps P (gets-Keeps P _) (λ completed.
          if-Keeps P _ (then-Keeps P (drop_item-Keeps item) (pure-Keeps P _))
            (settle_evaluation-Keeps item acc submission _))))))

  pub scanner-Keeps :
      Keeps P (Multi.run_multi_deadline_scanner platform config plan runtime now_ms retry_policy)
  unfolding Multi.run_multi_deadline_scanner apply
  scanner-Keeps = bind-Keeps P (ask-Keeps P _) (λ now.
      bind-Keeps P (for_each-Keeps P ingest_range-Keeps _ 0) (λ scanned.
        bind-Keeps P (gets-Keeps P _) (λ items.
          bind-Keeps P (for_each-Keeps P (process_item-Keeps now) items _) (λ execution.
            bind-Keeps P (store_call-Keeps P _ (λ s h. closed (advance plan.to_block now_ms) s h))
              (λ advanced. bind-Keeps P (gets-Keeps P _) (λ pending. pure-Keeps P _))))))

-- A scan of the queued reveals, whether it returns or throws, leads to a session that a sequence of
-- the store's operations reaches.
pub run_multi_deadline_scanner-Reaches :
    {E : Type 0} (platform : Platform) (config : RunOnceConfig) (plan : RunOncePlan)
    (runtime : Multi.MultiRuntime E) (now_ms : ℕ) (retry_policy : Option RetryPolicy) (w : World E)
    → Reaches w.session
        (Multi.run_multi_deadline_scanner platform config plan runtime now_ms retry_policy
          w).1.session
run_multi_deadline_scanner-Reaches platform config plan runtime now_ms retry_policy w =
    (scanner-Keeps platform config plan runtime now_ms retry_policy (Reaches w.session)
        (Reaches-IsClosed w.session)).keeps
      w (Reaches-refl w.session)
