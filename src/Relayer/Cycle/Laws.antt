-- ===== src/Relayer/Cycle/Laws.antt =====
-- What a cycle of the relayer does to the store, and when it refuses to run.
use anti_soon.Prelude.{ℕ, ◌≤◌, String, ◌≡◌, refl, Option, some, Result, ok, err, arith}
use anti_soon.Retry.{RetryPolicy}
use anti_soon.Relayer.Idempotency.{quarantined}
use anti_soon.Relayer.CursorState.{Session, StoreError, assert_healthy}
use anti_soon.Relayer.CursorState.Runs.Invariant.{IsWellFormed}
use anti_soon.Relayer.CursorState.Runs.Progress.{
  cursor, status_of, run-cursor-le, healthy-not_quarantined,
}
use anti_soon.Relayer.Keys.{Platform}
use anti_soon.Relayer.RunPlan.{RunOnceConfig}
use anti_soon.Relayer.Scan.{World, store_error, ◌>>=◌, resume, store_call}
use anti_soon.Relayer.Scan.Reach.{
  IsClosed, Keeps, bind-Keeps, pure-Keeps, gets-Keeps, store_call-Keeps, Reaches, Reaches-IsClosed,
  Reaches-refl,
}
use anti_soon.Relayer.Unique
use anti_soon.Relayer.Unique.Candidates
use anti_soon.Relayer.Multi
use anti_soon.Relayer.Multi.Laws as MultiLaws
use anti_soon.Relayer.Cycle.{execute_relayer_cycle, run_relayer_cycle}

module _ {E : Type 0} (platform : Platform) (config : RunOnceConfig)
    (unique_runtime : Unique.CandidateRuntime E) (multi_runtime : Multi.MultiRuntime E) (now_ms : ℕ)
    (retry_policy : Option RetryPolicy) where
  cycle-Keeps :
      (P : Session → Type 0)
      → IsClosed P
      → Keeps P (run_relayer_cycle platform config unique_runtime multi_runtime now_ms retry_policy)
  unfolding run_relayer_cycle execute_relayer_cycle
  cycle-Keeps P closed = bind-Keeps P (store_call-Keeps P _ (λ s h. h)) (λ healthy.
      bind-Keeps P (gets-Keeps P _) (λ plan.
        bind-Keeps P (Candidates.scanner-Keeps platform config plan unique_runtime now_ms P closed)
          (λ unique.
            bind-Keeps P
              (MultiLaws.scanner-Keeps platform config plan multi_runtime now_ms retry_policy P
                closed)
              (λ multi. pure-Keeps P _))))

  -- A relayer cycle, whether it returns or throws, leads to a session that some sequence of the
  -- store's operations reaches, and never moves the cursor back.
  pub run_relayer_cycle-Reaches :
      (w : World E)
      → let t =
          (run_relayer_cycle platform config unique_runtime multi_runtime now_ms retry_policy
            w).1 in
        Reaches w.session t.session × (cursor w.session ≤ cursor t.session)
  run_relayer_cycle-Reaches w = (reached, rw reached.1 (run-cursor-le reached.0 w.session))
    where
      reached :
          Reaches w.session
            (run_relayer_cycle platform config unique_runtime multi_runtime now_ms retry_policy
              w).1.session
      reached =
          (cycle-Keeps (Reaches w.session) (Reaches-IsClosed w.session)).keeps w
            (Reaches-refl w.session)

  -- While a well-formed store holds a quarantined item, a cycle throws the error of the health
  -- check and changes neither the store nor the environment.
  pub run_relayer_cycle-quarantined :
      (w : World E) (key : String)
      → IsWellFormed w.session
      → status_of w.session key ≡ some quarantined
      → (e : StoreError) × (run_relayer_cycle platform config unique_runtime multi_runtime now_ms
            retry_policy w
          ≡ (err (store_error e), w))
  unfolding run_relayer_cycle ◌>>=◌ resume store_call
  run_relayer_cycle-quarantined w key h q = go (assert_healthy w.session.store) refl
    where
      go :
          (r : Result StoreError (Unit {0}))
          → assert_healthy w.session.store ≡ r
          → (e : StoreError) × (run_relayer_cycle platform config unique_runtime multi_runtime
                now_ms retry_policy w
              ≡ (err (store_error e), w))
      go (ok u) p = absurd (healthy-not_quarantined w.session key h p q)
      go (err e) p = (e, ground arith)
