-- ===== src/Relayer/Tests/Scans.antt =====
-- Plans, ranges, the two scans and the cycle.
use Prim.Native.Nat.{Ordering}
use anti_soon.Prelude.{
  ℕ, ◌+◌, ◌≤◌, ◌<◌, String, ◌≡◌, ◌↔◌, refl, arith, true, false, ok, err, none, some, [], ◌∷◌,
}
use anti_soon.Prelude.Map
use anti_soon.Prelude.Sort.{IsComparator}
use anti_soon.Relayer.Idempotency.{quarantined}
use anti_soon.Relayer.CursorState.{
  CursorStore, Session, StoreError, create_cursor_store, count_quarantined,
}
use anti_soon.Relayer.CursorState.Pending.{
  stamp, list_durable_pending_queue_items, list_durable_pending_committed_candidates,
}
use anti_soon.Relayer.CursorState.Pending.Listing.{IsListing, list_queue_items-IsSorted}
use anti_soon.Relayer.CursorState.Claim.{
  claim_durable_queue_item, mark_durable_queue_item_quarantined,
}
use anti_soon.Relayer.CursorState.Runs.Invariant.{IsWellFormed}
use anti_soon.Relayer.CursorState.Runs.Progress.{cursor, status_of}
use anti_soon.Relayer.Keys.{Platform}
use anti_soon.Relayer.RunPlan.{build_run_once_plan}
use anti_soon.Relayer.RunPlan.Window.{plan_progress}
use anti_soon.Relayer.ScanRanges.{build_log_scan_ranges}
use anti_soon.Relayer.ScanRanges.Cover.{Tiles, holders, build_log_scan_ranges-Tiles}
use anti_soon.Relayer.Scan.{World, store_error}
use anti_soon.Relayer.Scan.Reach.{Reaches}
use anti_soon.Relayer.Scan.Triple.{Outcome}
use anti_soon.Relayer.Unique
use anti_soon.Relayer.Unique.Judge
use anti_soon.Relayer.Multi
use anti_soon.Relayer.Multi.Evaluate
use anti_soon.Relayer.Multi.Evaluate.{evaluate_pending_queue_item, eligible, ineligible}
use anti_soon.Relayer.Multi.Evaluate.Laws.{IsOpen, evaluate_iff}
use anti_soon.Relayer.Multi.Outcome.Journaled.{journaled, journaled-Journal}
use anti_soon.Relayer.Multi.Outcome.{IsBroken, IsDone, run_multi_deadline_scanner-Outcome}
use anti_soon.Relayer.Cycle.{plan_for, run_relayer_cycle}
use anti_soon.Relayer.Cycle.Laws.{run_relayer_cycle-Reaches, run_relayer_cycle-quarantined}
use anti_soon.Relayer.Tests.Fixtures.{empty_session, claimed_session, some_item, config}

build_log_scan_ranges-Tiles_example :
    Tiles 4 3 12 (build_log_scan_ranges 3 12 4)
    × ((b : ℕ) → 3 ≤ b → b ≤ 12 → holders b (build_log_scan_ranges 3 12 4) ≡ 1)
build_log_scan_ranges-Tiles_example = build_log_scan_ranges-Tiles 3 12 4 (omega arith)

plan_progress_example :
    let plan =
      build_run_once_plan config 100
        (record { recovered_processing_count = none; quarantined_item_count = none }) in
    ((100 ≤ plan.to_block) ↔ (12 ≤ 5000)) × ((100 < plan.to_block) ↔ (12 < 5000))
plan_progress_example =
    plan_progress config 100
      (record { recovered_processing_count = none; quarantined_item_count = none }) (omega arith)
      (omega arith)

abbrev open_submission : Evaluate.SubmissionSnapshot
open_submission = record { submission_id = 4; project_id = 2; status = Evaluate.committed }

abbrev open_project : Evaluate.ProjectSnapshot
open_project = record {
  project_id = 2;
  mode = Evaluate.multi;
  commit_deadline = 50;
  reveal_deadline = 90;
}

abbrev open_reveal : Evaluate.QueuedRevealSnapshot
open_reveal = record {
  submission_id = 4;
  auditor = "0xa0";
  salt = "0x5a";
  deadline = 80;
  queued = true;
}

evaluate_iff_example :
    (evaluate_pending_queue_item 60 open_submission open_project open_reveal ≡ eligible)
    ↔ IsOpen 60 open_submission open_project open_reveal
evaluate_iff_example = evaluate_iff 60 open_submission open_project open_reveal

abbrev unlocked : Judge.RevealStateSnapshot
unlocked = record {
  has_candidate = false;
  candidate_submission_id = 0;
  winner_locked = false;
  winner_submission_id = 0;
}

abbrev first_submission : Judge.SubmissionSnapshot
first_submission = record { submission_id = 4; project_id = 2; status = Judge.committed }

abbrev unique_project : Judge.ProjectSnapshot
unique_project = record { project_id = 2; mode = Judge.unique }

-- A host that compares texts as equal, for lists without ties.
abbrev flat : String → String → Ordering
flat x y = Ordering.eq

flat-IsComparator : IsComparator flat
flat-IsComparator = record { total = λ x y e. absurd (ground arith); trans = λ x y z a b. b }

abbrev platform : Platform
platform = record { to_lower_case = λ s. s; sha256 = λ s. s; locale_compare = flat }

abbrev multi_runtime : Multi.MultiRuntime ℕ
multi_runtime = record {
  get_now_timestamp_sec = λ e. (ok 60, e);
  get_queued_reveal_logs = λ range e. (
    ok (
        record {
          submission_id = 4;
          block_number = 20;
          transaction_hash = "0x1234567890123456789012345678901234567890123456789012345678901234";
          log_index = 0;
        }
        ∷ []),
    e,
  );
  read_submission = λ id e. (ok open_submission, e);
  read_project = λ id e. (ok open_project, e);
  read_queued_reveal = λ id e. (ok open_reveal, e);
  execute_queued_reveal = λ id e. (ok "0xfeed", e + 1);
}

abbrev candidate_runtime : Unique.CandidateRuntime ℕ
candidate_runtime = record {
  get_committed_logs = λ range e. (ok [], e);
  read_submission = λ id e. (ok (record first_submission { submission_id = id }), e);
  read_project = λ id e. (ok unique_project, e);
  read_unique_reveal_state = λ id e. (ok unlocked, e);
}

abbrev world : World ℕ
world = record { session = empty_session; env = 0 }

run_multi_deadline_scanner-Outcome_example :
    let plan = plan_for config empty_session.store in
    let journal = journaled-Journal multi_runtime in
    let (r, t) =
      Multi.run_multi_deadline_scanner platform config plan
        (journaled multi_runtime)
        700
        none
        (record { session = empty_session; env = (0, []) }) in
    let before = journal.executed (0, []) in
    Outcome (IsBroken journal config before) (IsDone journal config before plan) r t
run_multi_deadline_scanner-Outcome_example =
    run_multi_deadline_scanner-Outcome (journaled-Journal multi_runtime) platform config
      (plan_for config empty_session.store) 700 none
      (record { session = empty_session; env = (0, []) })

-- two candidates of one project
abbrev two_candidates : Session
two_candidates = record empty_session {
  store = record (empty_session.store) {
    pending_committed_candidates =
        (
          "b",
          stamp (record some_item { idempotency_key = "b"; submission_id = 5; block_number = 9 }) 10
              10,
        )
        ∷ ("a", stamp some_item 20 20)
        ∷ [];
  };
}

run_relayer_cycle-Reaches_example :
    let t = (run_relayer_cycle platform config candidate_runtime multi_runtime 700 none world).1 in
    Reaches empty_session t.session × (cursor empty_session ≤ cursor t.session)
run_relayer_cycle-Reaches_example =
    run_relayer_cycle-Reaches platform config candidate_runtime multi_runtime 700 none world

abbrev blocked_session : Session
blocked_session = mark_durable_queue_item_quarantined claimed_session "a" 800

blocked-IsWellFormed : IsWellFormed blocked_session
unfolding mark_durable_queue_item_quarantined claim_durable_queue_item create_cursor_store
    count_quarantined Map.get Map.set
blocked-IsWellFormed = record {
  counted = refl;
  queue_distinct = tt;
  candidates_distinct = tt;
  durable = λ e. refl;
}

blocked-quarantined : status_of blocked_session "a" ≡ some quarantined
unfolding mark_durable_queue_item_quarantined claim_durable_queue_item create_cursor_store Map.get
    Map.set
blocked-quarantined = refl

run_relayer_cycle-quarantined_example :
    (e : StoreError) × (run_relayer_cycle platform config candidate_runtime multi_runtime 900 none
        (record { session = blocked_session; env = 0 })
      ≡ (err (store_error e), record { session = blocked_session; env = 0 }))
run_relayer_cycle-quarantined_example =
    run_relayer_cycle-quarantined platform config candidate_runtime multi_runtime 900 none
      (record { session = blocked_session; env = 0 }) "a" blocked-IsWellFormed blocked-quarantined

abbrev two_pending : CursorStore
two_pending = record (empty_session.store) {
  pending_queue_items =
      ("b", stamp (record some_item { idempotency_key = "b"; block_number = 9 }) 10 10)
      ∷ ("a", stamp some_item 20 20)
      ∷ [];
}

list_queue_items-IsSorted_example :
    IsListing flat flat-IsComparator
      (list_durable_pending_queue_items flat two_pending)
      two_pending.pending_queue_items
    × IsListing flat flat-IsComparator
        (list_durable_pending_committed_candidates flat two_pending)
        two_pending.pending_committed_candidates
list_queue_items-IsSorted_example = list_queue_items-IsSorted flat flat-IsComparator two_pending
