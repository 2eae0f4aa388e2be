-- ===== src/Relayer/Multi/Outcome/Steps.antt =====
-- Reads and returns between two executions.
use anti_soon.Prelude.{sym, ap, ◌∙◌, ℕ, ◌≡◌, ap, List, ◌++◌, Result}
use anti_soon.Relayer.RetryPolicy.Errors.{Thrown}
use anti_soon.Relayer.RunPlan.{RunOnceConfig}
use anti_soon.Relayer.Scan.{runtime_error, pure, ask, attempt, World, ScanError}
use anti_soon.Relayer.Scan.Triple.{Ends, pure-Ends, ask-Ends, attempt-Ends}
use anti_soon.Relayer.Multi
use anti_soon.Relayer.Multi.Outcome.Batch.{
  Journal, HasRun, IsBroken, IsBatch, IsBatched, batch-IsBroken,
}

module _ {E : Type 0} {runtime : Multi.MultiRuntime E} (journal : Journal runtime)
    (config : RunOnceConfig) (base : List ℕ) where
  abbrev Ran : List ℕ → World E → Type 0
  Ran = HasRun journal config base

  abbrev RanSo : Multi.Execution → World E → Type 0
  RanSo acc = Ran acc.executed_submission_ids

  abbrev Broken : ScanError → World E → Type 0
  Broken = IsBroken journal config base

  abbrev Batched : Multi.Execution → World E → Type 0
  Batched = IsBatched journal config base

  abbrev IsWithin : Multi.Execution → Type 0
  IsWithin = IsBatch config.max_execution_batch_size

  pub read-Ends :
      {A : Type 0} (acc : Multi.Execution) (f : E → Result Thrown A × E)
      → IsWithin acc
      → ((e : E) → journal.executed (f e).1 ≡ journal.executed e)
      → Ends Broken (RanSo acc) (λ _. RanSo acc) (ask f)
  read-Ends acc f h keeps =
      ask-Ends Broken (RanSo acc) f (λ w a p k. keeps w.env ∙ k)
        (λ w t k.
          batch-IsBroken journal config base (runtime_error t) acc (record w { env = (f w.env).1 })
            h (keeps w.env ∙ k) tt)

  pub try-Ends :
      {A : Type 0} (acc : Multi.Execution) (f : E → Result Thrown A × E)
      → ((e : E) → journal.executed (f e).1 ≡ journal.executed e)
      → Ends Broken (RanSo acc) (λ _. RanSo acc) (attempt f)
  try-Ends acc f keeps = attempt-Ends Broken (RanSo acc) f (λ w o k. keeps w.env ∙ k)

  pub return-Ends :
      (acc acc' : Multi.Execution)
      → IsWithin acc'
      → acc'.executed_submission_ids ≡ acc.executed_submission_ids
      → Ends Broken (RanSo acc) Batched (pure acc')
  return-Ends acc acc' h p =
      pure-Ends Broken (RanSo acc) acc' (λ w k. (h, k ∙ ap (λ ids. base ++ ids) (sym p)))
