-- ===== src/Relayer/Multi/Outcome/Journaled.antt =====
-- Every runtime has a journal, once its environment keeps one.
use anti_soon.Prelude.{ℕ, ◌≡◌, refl, String, List, [], ◌∷◌, ◌++◌, Result, ok, err}
use anti_soon.Relayer.RetryPolicy.Errors.{Thrown}
use anti_soon.Relayer.Multi
use anti_soon.Relayer.Multi.Outcome.Batch.{Journal}

abbrev pub with_entry : ℕ → Result Thrown String → List ℕ → List ℕ
with_entry id (ok _) ids = ids ++ id ∷ []
with_entry id (err _) ids = ids

entered-ok :
    (id : ℕ) (r : Result Thrown String) (ids : List ℕ) (tx_hash : String)
    → r ≡ ok tx_hash
    → with_entry id r ids ≡ ids ++ id ∷ []
entered-ok id (ok x) ids tx_hash p = refl
entered-ok id (err x) ids tx_hash p = cc

entered-err :
    (id : ℕ) (r : Result Thrown String) (ids : List ℕ) (t : Thrown)
    → r ≡ err t
    → with_entry id r ids ≡ ids
entered-err id (ok x) ids t p = cc
entered-err id (err x) ids t p = refl

module _ {E : Type 0} where
  -- a call that leaves the journal alone
  abbrev pub beside : {A : Type 0} → (E → A × E) → E × List ℕ → A × (E × List ℕ)
  beside f (e, ids) = ((f e).0, ((f e).1, ids))

  abbrev pub entering :
      ℕ → (E → Result Thrown String × E) → E × List ℕ → Result Thrown String × (E × List ℕ)
  entering id f (e, ids) = ((f e).0, ((f e).1, with_entry id (f e).0 ids))

  abbrev pub journaled : Multi.MultiRuntime E → Multi.MultiRuntime (E × List ℕ)
  journaled runtime = record {
    get_now_timestamp_sec = beside runtime.get_now_timestamp_sec;
    get_queued_reveal_logs = λ range. beside (runtime.get_queued_reveal_logs range);
    read_submission = λ id. beside (runtime.read_submission id);
    read_project = λ id. beside (runtime.read_project id);
    read_queued_reveal = λ id. beside (runtime.read_queued_reveal id);
    execute_queued_reveal = λ id. entering id (runtime.execute_queued_reveal id);
  }

  pub journaled-Journal : (runtime : Multi.MultiRuntime E) → Journal (journaled runtime)
  journaled-Journal runtime = record {
    executed = λ e. e.1;
    clock = λ e. refl;
    logs = λ range e. refl;
    submissions = λ id e. refl;
    projects = λ id e. refl;
    reveals = λ id e. refl;
    enters = λ id e tx_hash p. entered-ok id (runtime.execute_queued_reveal id e.0).0 e.1 tx_hash p;
    fails = λ id e t p. entered-err id (runtime.execute_queued_reveal id e.0).0 e.1 t p;
  }
