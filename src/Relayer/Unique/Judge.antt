-- ===== src/Relayer/Unique/Judge.antt =====
-- What the scanner decides for one pending candidate, from what it read of the chain.
pub mod Laws
use anti_soon.Prelude.{ℕ, Bool, true, false, not, if◌then◌else◌}

pub data SubmissionStatus : Type 0 where
  committed revealed verified invalid finalized : SubmissionStatus

pub record SubmissionSnapshot : Type 0 where
  pub submission_id : ℕ
  pub project_id : ℕ
  pub status : SubmissionStatus

pub data Mode : Type 0 where
  unique multi : Mode

pub record ProjectSnapshot : Type 0 where
  pub project_id : ℕ
  pub mode : Mode

pub record RevealStateSnapshot : Type 0 where
  pub has_candidate : Bool
  pub candidate_submission_id : ℕ
  pub winner_locked : Bool
  pub winner_submission_id : ℕ

pub data SkipReason : Type 0 where
  not_unique candidate_pending earlier_commit_pending winner_locked : SkipReason
  poc_revealed_handoff submission_not_committed : SkipReason

-- A skip says whether it is terminal: the item is then removed.
pub data Verdict : Type 0 where
  skip : SkipReason → (terminal : Bool) → Verdict
  select : Verdict

-- the tests on the status, and those below them
judge_status : SubmissionStatus → (has_candidate already_selected : Bool) → Verdict
judge_status revealed _ _ = skip poc_revealed_handoff true
judge_status committed has_candidate already_selected =
    if has_candidate
    then skip candidate_pending false
    else if already_selected
    then skip earlier_commit_pending false
    else select
judge_status _ _ _ = skip submission_not_committed true

judge_mode : Mode → RevealStateSnapshot → SubmissionSnapshot → Bool → Verdict
unfolding judge_status
judge_mode multi state submission already_selected = skip not_unique true
judge_mode unique state submission already_selected =
    if state.winner_locked
    then skip winner_locked true
    else judge_status submission.status state.has_candidate already_selected

unfoldable pub judge : ProjectSnapshot → RevealStateSnapshot → SubmissionSnapshot → Bool → Verdict
unfolding judge_mode
judge project state submission already_selected =
    judge_mode project.mode state submission already_selected
