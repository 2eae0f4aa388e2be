-- ===== src/Relayer/Multi/Outcome/Ingest.antt =====
-- Taking the logs of queued reveals into the store.
use anti_soon.Prelude.{List, [], ◌≡◌, ◌∙◌, Result, arith}
use anti_soon.Relayer.RetryPolicy.Errors.{Thrown}
use anti_soon.Relayer.Scan.{World, ScanError, ask}
use anti_soon.Prelude.{ℕ, Option}
use anti_soon.Retry.{RetryPolicy}
use anti_soon.Relayer.Keys.{Platform}
use anti_soon.Relayer.RunPlan.{RunOnceConfig, RunOncePlan}
use anti_soon.Relayer.ScanRanges.{BlockRange}
use anti_soon.Relayer.Scan.Logs.{is_outside}
use anti_soon.Relayer.Scan.Triple.{
  Ends, bind-Ends, then-Ends, if-Ends, for_each-Ends, pure-Ends, ask-Ends, update-Ends, key-Ends,
}
use anti_soon.Relayer.Multi
use anti_soon.Relayer.Multi.Outcome.Batch.{Journal, HasRun, IsBroken}

module _ {E : Type 0} {runtime : Multi.MultiRuntime E} (journal : Journal runtime)
    (platform : Platform) (config : RunOnceConfig) (plan : RunOncePlan) (base : List ℕ) (now_ms : ℕ)
    (retry_policy : Option RetryPolicy) where
  -- nothing has been executed yet
  abbrev Idle : World E → Type 0
  Idle = HasRun journal config base []

  abbrev Broken : ScanError → World E → Type 0
  Broken = IsBroken journal config base

  quiet_ask-Ends :
      {A : Type 0} (f : E → Result Thrown A × E)
      → ((e : E) → journal.executed (f e).1 ≡ journal.executed e)
      → Ends Broken Idle (λ _. Idle) (ask f)
  quiet_ask-Ends f keeps =
      ask-Ends Broken Idle f (λ w a p k. keeps w.env ∙ k)
        (λ w t k. (tt, [], omega arith, keeps w.env ∙ k))

  ingest_log-Ends :
      (log : Multi.QueuedRevealLog) (scanned : ℕ)
      → Ends Broken Idle
          (λ _. Idle)
          (Multi.ingest_log platform config plan runtime now_ms retry_policy log scanned)
  unfolding Multi.ingest_log
  ingest_log-Ends log scanned =
      if-Ends Broken (is_outside plan log.block_number) (λ _. pure-Ends Broken Idle _ (λ w k. k))
        (λ _.
          bind-Ends Broken
            (quiet_ask-Ends (runtime.read_submission log.submission_id)
              (journal.submissions log.submission_id))
            (λ submission.
              bind-Ends Broken (key-Ends Broken Idle _ (λ w e k. (tt, [], omega arith, k))) (λ key.
                then-Ends Broken (update-Ends Broken Idle {after = λ _. Idle} _ (λ w k. k))
                  (pure-Ends Broken Idle _ (λ w k. k)))))

  pub ingest_range-Ends :
      (range : BlockRange) (scanned : ℕ)
      → Ends Broken Idle
          (λ _. Idle)
          (Multi.ingest_range platform config plan runtime now_ms retry_policy range scanned)
  unfolding Multi.ingest_range
  ingest_range-Ends range scanned =
      bind-Ends Broken (quiet_ask-Ends (runtime.get_queued_reveal_logs range) (journal.logs range))
        (λ logs. for_each-Ends Broken (λ _. Idle) ingest_log-Ends _ scanned)
