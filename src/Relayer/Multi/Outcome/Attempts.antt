-- ===== src/Relayer/Multi/Outcome/Attempts.antt =====
-- What the attempts of an execution enter in the journal.
use anti_soon.Prelude.{ℕ, ◌≡◌, ap, sym, ◌∙◌, String, List, [], ◌∷◌, ◌++◌, Option, Result, ok, err}
use anti_soon.Retry.{RetryPolicy}
use anti_soon.Relayer.RetryPolicy.Errors.{Thrown, Failure}
use anti_soon.Relayer.RetryPolicy.Runner.{RetryError, run_with_retry}
use anti_soon.Relayer.RetryPolicy.Runner.Laws.{
  Tries, succeeds, stops, gives_up, repeats, run_with_retry-Tries,
}
use anti_soon.Relayer.Multi
use anti_soon.Relayer.Multi.Outcome.Batch.{Journal}

module _ {E : Type 0} {runtime : Multi.MultiRuntime E} (journal : Journal runtime) (id : ℕ) where
  -- the journal after a run: a run that returns is entered, once
  abbrev pub entered : Result RetryError String → List ℕ → List ℕ
  entered (ok _) before = before ++ id ∷ []
  entered (err _) before = before

  abbrev pub attempts : ℕ → E → Result Thrown String × E
  attempts n e = runtime.execute_queued_reveal id e

  failed :
      {t : Thrown} (e e' : E)
      → runtime.execute_queued_reveal id e ≡ (err t, e')
      → journal.executed e' ≡ journal.executed e
  failed {t} e e' x =
      ap (λ r. journal.executed r.1) (sym x) ∙ journal.fails id e t (ap (λ r. r.0) x)

  Tries-entered :
      {operation : String} {limit : ℕ} {classify : Thrown → Failure} {n : ℕ} {e e' : E}
      {r : Result RetryError String}
      → Tries operation limit classify attempts n e r e'
      → journal.executed e' ≡ entered r (journal.executed e)
  Tries-entered {e} {e'} (succeeds {v} x) =
      ap (λ r. journal.executed r.1) (sym x) ∙ journal.enters id e v (ap (λ r. r.0) x)
  Tries-entered {e} {e'} (stops x p) = failed e e' x
  Tries-entered {e} {e'} (gives_up x p q) = failed e e' x
  Tries-entered {e} {r} (repeats {e' = next} x p q more) =
      Tries-entered more ∙ ap (entered r) (failed e next x)

  pub run_with_retry-entered :
      (policy : Option RetryPolicy) (operation : String) (key : Option String)
      (classify : Thrown → Failure) (e : E)
      → let r = run_with_retry policy operation key classify attempts e in
        journal.executed r.env ≡ entered r.result (journal.executed e)
  run_with_retry-entered policy operation key classify e =
      Tries-entered (run_with_retry-Tries policy operation key classify attempts e)
