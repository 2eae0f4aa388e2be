-- ===== src/Relayer/Multi/Evaluate/Laws.antt =====
-- When a queued reveal is executed, and when a refused one is looked at again.
use anti_soon.Prelude.{ℕ, ◌≤◌, ◌<◌, ◌≡◌, ◌↔◌, ◌⊎◌, true, false, arith}
use anti_soon.Relayer.Multi.Evaluate.{
  SubmissionSnapshot, ProjectSnapshot, QueuedRevealSnapshot, SkipReason,
  commit_deadline_not_reached, eligible, ineligible, is_committed, is_multi,
  evaluate_pending_queue_item,
}

module _ (now : ℕ) (submission : SubmissionSnapshot) (project : ProjectSnapshot)
    (queued_reveal : QueuedRevealSnapshot) where
  -- The window in which a queued reveal may be executed.
  pub record IsOpen : Type 0 where
    pub is_committed_submission : is_committed submission.status ≡ true
    pub is_multi_project : is_multi project.mode ≡ true
    pub after_commit : (0 < project.commit_deadline) × (project.commit_deadline < now)
    pub is_queued : queued_reveal.queued ≡ true
    pub before_expiry : now ≤ queued_reveal.deadline
    pub before_reveal_deadline : (project.reveal_deadline ≡ 0) ⊎ (now ≤ project.reveal_deadline)

  -- A queued reveal is eligible exactly when its submission is committed to a MULTI project, it is
  -- queued, and the time is after the commit deadline, not after the signature's deadline, and not
  -- after the reveal deadline, if there is one.
  pub evaluate_iff :
      (evaluate_pending_queue_item now submission project queued_reveal ≡ eligible) ↔ IsOpen
  unfolding evaluate_pending_queue_item
  evaluate_iff = ground arith

  -- An item is refused without being dropped only for a commit deadline that is not set or not past.
  pub evaluate_kept :
      (reason : SkipReason)
      → evaluate_pending_queue_item now submission project queued_reveal ≡ ineligible reason false
      → (reason ≡ commit_deadline_not_reached)
        × ((project.commit_deadline ≡ 0) ⊎ (now ≤ project.commit_deadline))
  unfolding evaluate_pending_queue_item
  evaluate_kept reason h = ground arith
