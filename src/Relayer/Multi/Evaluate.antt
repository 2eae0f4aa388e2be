-- ===== src/Relayer/Multi/Evaluate.antt =====
-- What the scanner decides for one pending queue item, from what it read of the chain.
pub mod Laws
use anti_soon.Prelude.{ℕ, String, Bool, true, false, not, ◌&&◌, ◌||◌, ◌==◌, ltb, leb, if◌then◌else◌}
use anti_soon.Relayer.Idempotency.{Reason, first_seen, in_flight, already_completed, is_quarantined}

pub data SubmissionStatus : Type 0 where
  committed revealed verified invalid : SubmissionStatus

pub record SubmissionSnapshot : Type 0 where
  pub submission_id : ℕ
  pub project_id : ℕ
  pub status : SubmissionStatus

pub data Mode : Type 0 where
  unique multi : Mode

pub record ProjectSnapshot : Type 0 where
  pub project_id : ℕ
  pub mode : Mode
  pub commit_deadline : ℕ
  pub reveal_deadline : ℕ

pub record QueuedRevealSnapshot : Type 0 where
  pub submission_id : ℕ
  pub auditor : String
  pub salt : String
  pub deadline : ℕ
  pub queued : Bool

pub data SkipReason : Type 0 where
  not_multi commit_deadline_not_reached reveal_deadline_passed signature_expired : SkipReason
  queue_missing submission_not_committed completed_before in_flight_before : SkipReason
  quarantined_before batch_limit_reached : SkipReason

pub data Evaluation : Type 0 where
  eligible : Evaluation
  ineligible : SkipReason → (terminal : Bool) → Evaluation

abbrev pub is_committed : SubmissionStatus → Bool
is_committed committed = true
is_committed _ = false

abbrev pub is_multi : Mode → Bool
is_multi multi = true
is_multi unique = false

unfoldable pub evaluate_pending_queue_item :
    ℕ → SubmissionSnapshot → ProjectSnapshot → QueuedRevealSnapshot → Evaluation
evaluate_pending_queue_item current_timestamp_sec submission project queued_reveal =
    if not (is_committed submission.status)
    then ineligible submission_not_committed true
    else if not (is_multi project.mode)
    then ineligible not_multi true
    else if project.commit_deadline == 0 || leb current_timestamp_sec project.commit_deadline
    then ineligible commit_deadline_not_reached false
    else if not queued_reveal.queued
    then ineligible queue_missing true
    else if ltb queued_reveal.deadline current_timestamp_sec
    then ineligible signature_expired true
    else if ltb 0 project.reveal_deadline && ltb project.reveal_deadline current_timestamp_sec
    then ineligible reveal_deadline_passed true
    else eligible

-- The scanner throws before it asks for the reason `first_seen`.
unfoldable pub claim_reason_to_skip_reason : Reason → SkipReason
claim_reason_to_skip_reason in_flight = in_flight_before
claim_reason_to_skip_reason is_quarantined = quarantined_before
claim_reason_to_skip_reason already_completed = completed_before
claim_reason_to_skip_reason first_seen = completed_before
