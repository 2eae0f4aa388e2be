-- ===== src/Relayer/Unique/Candidates.antt =====
-- What a scan of the committed candidates does to the store: operations of cursor-state.ts, and no
-- more.
use anti_soon.Prelude.{ℕ, true, false}
use anti_soon.Relayer.CursorState.{PendingItem, Session}
use anti_soon.Relayer.CursorState.Runs.{advance, upsert_candidate, remove_candidate, apply}
use anti_soon.Relayer.Keys.{Platform}
use anti_soon.Relayer.RunPlan.{RunOnceConfig, RunOncePlan}
use anti_soon.Relayer.ScanRanges.{BlockRange}
use anti_soon.Relayer.Scan.{World}
use anti_soon.Relayer.Scan.Reach.{
  IsClosed, Keeps, bind-Keeps, then-Keeps, pure-Keeps, ask-Keeps, gets-Keeps, update-Keeps,
  modify-Keeps, store_call-Keeps, if-Keeps, key-Keeps, for_each-Keeps, Reaches, Reaches-IsClosed,
  Reaches-refl,
}
use anti_soon.Relayer.Unique
use anti_soon.Relayer.Unique.Judge.{Verdict, skip, select}

module _ {E : Type 0} (platform : Platform) (config : RunOnceConfig) (plan : RunOncePlan)
    (runtime : Unique.CandidateRuntime E) (now_ms : ℕ) (P : Session → Type 0)
    (closed : IsClosed P) where
  ingest_log-Keeps :
      (log : Unique.CommittedLog) (scanned : ℕ)
      → Keeps P (Unique.ingest_log platform config plan runtime now_ms log scanned)
  unfolding Unique.ingest_log apply
  ingest_log-Keeps log scanned = if-Keeps P _ (pure-Keeps P _) (
      bind-Keeps P (key-Keeps P _) (λ key.
        then-Keeps P (update-Keeps P _ (λ s h. closed (upsert_candidate _ now_ms) s h))
          (pure-Keeps P _)))

  ingest_range-Keeps :
      (range : BlockRange) (scanned : ℕ)
      → Keeps P (Unique.ingest_range platform config plan runtime now_ms range scanned)
  unfolding Unique.ingest_range
  ingest_range-Keeps range scanned =
      bind-Keeps P (ask-Keeps P _) (λ logs. for_each-Keeps P ingest_log-Keeps _ scanned)

  settle_item-Keeps :
      (item : PendingItem) (project_id : ℕ) (acc : Unique.Selection) (verdict : Verdict)
      → Keeps P (Unique.settle_item platform config plan runtime now_ms item project_id acc verdict)
  unfolding Unique.settle_item apply
  settle_item-Keeps item project_id acc select = pure-Keeps P _
  settle_item-Keeps item project_id acc (skip reason true) =
      then-Keeps P (modify-Keeps P _ (λ s h. closed (remove_candidate item.idempotency_key) s h))
        (pure-Keeps P _)
  settle_item-Keeps item project_id acc (skip reason false) =
      then-Keeps P (modify-Keeps P _ (λ s h. h)) (pure-Keeps P _)

  consider_item-Keeps :
      (item : PendingItem) (acc : Unique.Selection)
      → Keeps P (Unique.consider_item platform config plan runtime now_ms item acc)
  unfolding Unique.consider_item
  consider_item-Keeps item acc = bind-Keeps P (ask-Keeps P _) (λ submission.
      bind-Keeps P (ask-Keeps P _) (λ project.
        bind-Keeps P (ask-Keeps P _) (λ state. settle_item-Keeps item submission.project_id acc _)))

  pub scanner-Keeps :
      Keeps P (Unique.run_unique_committed_candidate_scanner platform config plan runtime now_ms)
  unfolding Unique.run_unique_committed_candidate_scanner apply
  scanner-Keeps = bind-Keeps P (for_each-Keeps P ingest_range-Keeps _ 0) (λ scanned.
      bind-Keeps P (gets-Keeps P _) (λ items.
        bind-Keeps P (for_each-Keeps P consider_item-Keeps items _) (λ selection.
          bind-Keeps P (store_call-Keeps P _ (λ s h. closed (advance plan.to_block now_ms) s h))
            (λ advanced. bind-Keeps P (gets-Keeps P _) (λ pending. pure-Keeps P _)))))

-- A scan of the committed candidates, whether it returns or throws, leads to a session that a
-- sequence of the store's operations reaches.
pub run_unique_committed_candidate_scanner-Reaches :
    {E : Type 0} (platform : Platform) (config : RunOnceConfig) (plan : RunOncePlan)
    (runtime : Unique.CandidateRuntime E) (now_ms : ℕ) (w : World E)
    → Reaches w.session
        (Unique.run_unique_committed_candidate_scanner platform config plan runtime now_ms
          w).1.session
run_unique_committed_candidate_scanner-Reaches platform config plan runtime now_ms w =
    (scanner-Keeps platform config plan runtime now_ms (Reaches w.session)
        (Reaches-IsClosed w.session)).keeps
      w (Reaches-refl w.session)
