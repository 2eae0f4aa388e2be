-- ===== src/Relayer/Unique.antt =====
-- workflow/auto-reveal-relayer/unique-orchestration.ts: which committed candidates of the UNIQUE
-- projects may be revealed next.
pub mod Judge
pub mod Candidates
pub mod Firsts
pub mod Considered
pub mod Outcome
use anti_soon.Prelude.{
  ℕ, ◌+◌, String, Bool, Option, none, some, List, [], ◌∷◌, ◌++◌, Result, if◌then◌else◌,
}
use anti_soon.Prelude.Set.{contains}
use anti_soon.Relayer.CursorState.{PendingItem, CursorStore}
use anti_soon.Relayer.CursorState.Pending.{
  NewItem, upsert_durable_pending_committed_candidate, remove_durable_pending_committed_candidate,
  list_durable_pending_committed_candidates,
}
use anti_soon.Relayer.CursorState.Cursor.{advance_durable_cursor}
use anti_soon.Relayer.Keys.{Platform, derive_committed_candidate_idempotency_key}
use anti_soon.Relayer.RetryPolicy.Errors.{Thrown}
use anti_soon.Relayer.RunPlan.{RunOnceConfig, RunOncePlan}
use anti_soon.Relayer.ScanRanges.{BlockRange, build_log_scan_ranges}
use anti_soon.Relayer.Scan.{
  Scan, pure, ◌>>=◌, ◌>>◌, ask, key_or_throw, gets, update, modify, store_call, for_each,
}
use anti_soon.Relayer.Scan.Logs.{LogPosition, sort_logs, is_outside}
use Judge.{
  SubmissionSnapshot, ProjectSnapshot, RevealStateSnapshot, SkipReason, Verdict, skip, select,
  judge,
}

pub record CommittedLog : Type 0 where
  pub submission_id : ℕ
  pub project_id : ℕ
  pub auditor : String
  pub commit_hash : String
  pub block_number : ℕ
  pub transaction_hash : String
  pub log_index : ℕ

pub record SkipRecord : Type 0 where
  pub submission_id : ℕ
  pub reason : SkipReason
  pub terminal : Bool

pub record ScannerResult : Type 0 where
  pub scanned_log_count : ℕ
  pub selected_candidate_submission_ids : List ℕ
  pub skipped : List SkipRecord
  pub pending_committed_candidates : List PendingItem
  pub cursor_advanced_to_block : ℕ

-- The calls into the chain, over the environment's hidden state.
pub record CandidateRuntime (E : Type 0) : Type 0 where
  pub get_committed_logs : BlockRange → E → Result Thrown (List CommittedLog) × E
  pub read_submission : ℕ → E → Result Thrown SubmissionSnapshot × E
  pub read_project : ℕ → E → Result Thrown ProjectSnapshot × E
  pub read_unique_reveal_state : ℕ → E → Result Thrown RevealStateSnapshot × E

-- The variables of the second loop.
pub record Selection : Type 0 where
  pub skipped : List SkipRecord
  pub selected_candidate_submission_ids : List ℕ
  pub selected_project_ids : List ℕ

abbrev pub position : CommittedLog → LogPosition
position log = record {
  block_number = log.block_number;
  log_index = log.log_index;
  transaction_hash = log.transaction_hash;
}

module _ {E : Type 0} (platform : Platform) (config : RunOnceConfig) (plan : RunOncePlan)
    (runtime : CandidateRuntime E) (now_ms : ℕ) where
  pub ingest_log : CommittedLog → ℕ → Scan E ℕ
  ingest_log log scanned = if is_outside plan log.block_number then pure scanned else (do
    key ← key_or_throw (
        derive_committed_candidate_idempotency_key platform (record {
          chain_id = config.chain_id;
          bounty_hub_address = config.bounty_hub_address;
          tx_hash = log.transaction_hash;
          log_index = log.log_index;
          block_number = log.block_number;
          project_id = log.project_id;
          submission_id = log.submission_id;
        }))
    update (λ s.
        upsert_durable_pending_committed_candidate s
          (record {
            idempotency_key = key;
            submission_id = log.submission_id;
            project_id = log.project_id;
            block_number = log.block_number;
            tx_hash = log.transaction_hash;
            log_index = log.log_index;
          })
          now_ms)
    pure (scanned + 1))

  pub ingest_range : BlockRange → ℕ → Scan E ℕ
  ingest_range range scanned = do
    logs ← ask (runtime.get_committed_logs range)
    for_each ingest_log (sort_logs platform position logs) scanned

  pub settle_item : PendingItem → ℕ → Selection → Verdict → Scan E Selection
  settle_item item project_id acc (skip reason terminal) = do
    modify (λ s.
        if terminal then remove_durable_pending_committed_candidate s item.idempotency_key else s)
    pure (record acc {
      skipped =
          acc.skipped
          ++ (record { submission_id = item.submission_id; reason = reason; terminal = terminal }
              ∷ []);
    })
  settle_item item project_id acc select = pure (record acc {
    selected_candidate_submission_ids =
        acc.selected_candidate_submission_ids ++ (item.submission_id ∷ []);
    selected_project_ids = project_id ∷ acc.selected_project_ids;
  })

  pub consider_item : PendingItem → Selection → Scan E Selection
  unfolding settle_item
  consider_item item acc = do
    submission ← ask (runtime.read_submission item.submission_id)
    project ← ask (runtime.read_project submission.project_id)
    unique_state ← ask (runtime.read_unique_reveal_state submission.project_id)
    settle_item item submission.project_id acc (
        judge project unique_state submission
          (contains submission.project_id acc.selected_project_ids))

  unfoldable pub run_unique_committed_candidate_scanner : Scan E ScannerResult
  unfolding ingest_range ingest_log consider_item
  run_unique_committed_candidate_scanner = do
    scanned ←
        for_each ingest_range
          (build_log_scan_ranges plan.from_block plan.to_block plan.log_chunk_blocks) 0
    items ← gets (λ s. list_durable_pending_committed_candidates platform.locale_compare s.store)
    selection ←
        for_each consider_item items (record {
          skipped = [];
          selected_candidate_submission_ids = [];
          selected_project_ids = [];
        })
    advanced ← store_call (λ s. advance_durable_cursor s plan.to_block now_ms)
    pending ← gets (λ s. list_durable_pending_committed_candidates platform.locale_compare s.store)
    pure (record {
      scanned_log_count = scanned;
      selected_candidate_submission_ids = selection.selected_candidate_submission_ids;
      skipped = selection.skipped;
      pending_committed_candidates = pending;
      cursor_advanced_to_block = advanced;
    })
