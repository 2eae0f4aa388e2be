-- ===== src/Relayer/Multi/Types.antt =====
-- The results of a scan of the queued reveals, its runtime and its variables.
use anti_soon.Prelude.{ℕ, String, Bool, false, not, Option, none, some, List, [], ◌∷◌, ◌++◌, Result}
use anti_soon.Relayer.CursorState.{PendingItem}
use anti_soon.Relayer.RetryPolicy.Errors.{Thrown}
use anti_soon.Relayer.RetryPolicy.Runner.{FailureMetric, Event, slept, emitted}
use anti_soon.Relayer.ScanRanges.{BlockRange}
use anti_soon.Relayer.Scan.Logs.{LogPosition}
use anti_soon.Relayer.Multi.Evaluate.{
  SubmissionSnapshot, ProjectSnapshot, QueuedRevealSnapshot, SkipReason, is_committed,
}

pub record QueuedRevealLog : Type 0 where
  pub submission_id : ℕ
  pub block_number : ℕ
  pub transaction_hash : String
  pub log_index : ℕ

pub record SkipRecord : Type 0 where
  pub submission_id : ℕ
  pub reason : SkipReason
  pub terminal : Bool

pub record ScannerResult : Type 0 where
  pub scanned_log_count : ℕ
  pub executed_count : ℕ
  pub executed_submission_ids : List ℕ
  pub skipped : List SkipRecord
  pub pending_queue_items : List PendingItem
  pub failure_metrics : List FailureMetric
  pub cursor_advanced_to_block : ℕ

-- The calls into the chain, over the environment's hidden state.
pub record MultiRuntime (E : Type 0) : Type 0 where
  pub get_now_timestamp_sec : E → Result Thrown ℕ × E
  pub get_queued_reveal_logs : BlockRange → E → Result Thrown (List QueuedRevealLog) × E
  pub read_submission : ℕ → E → Result Thrown SubmissionSnapshot × E
  pub read_project : ℕ → E → Result Thrown ProjectSnapshot × E
  pub read_queued_reveal : ℕ → E → Result Thrown QueuedRevealSnapshot × E
  pub execute_queued_reveal : ℕ → E → Result Thrown String × E

-- The variables of the second loop.
pub record Execution : Type 0 where
  pub executed_count : ℕ
  pub executed_submission_ids : List ℕ
  pub skipped : List SkipRecord
  pub failure_metrics : List FailureMetric

abbrev pub position : QueuedRevealLog → LogPosition
position log = record {
  block_number = log.block_number;
  log_index = log.log_index;
  transaction_hash = log.transaction_hash;
}

abbrev pub metrics_of : List Event → List FailureMetric
metrics_of [] = []
metrics_of (slept _ ∷ l) = metrics_of l
metrics_of (emitted m ∷ l) = m ∷ metrics_of l

abbrev pub is_gone : Option SubmissionSnapshot → Bool
is_gone none = false
is_gone (some submission) = not (is_committed submission.status)

abbrev pub is_dequeued : Option QueuedRevealSnapshot → Bool
is_dequeued none = false
is_dequeued (some queued_reveal) = not queued_reveal.queued

abbrev pub skip_with : PendingItem → Execution → SkipReason → Bool → Execution
skip_with item acc reason terminal = record acc {
  skipped =
      acc.skipped
      ++ (record { submission_id = item.submission_id; reason = reason; terminal = terminal } ∷ []);
}
