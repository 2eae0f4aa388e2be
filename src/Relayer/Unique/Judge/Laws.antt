-- ===== src/Relayer/Unique/Judge/Laws.antt =====
-- The verdict on a pending candidate.
use anti_soon.Prelude.{◌≡◌, ◌↔◌, Bool, false, arith}
use anti_soon.Relayer.Unique.Judge.{
  SubmissionStatus, committed, revealed, verified, invalid, finalized, SubmissionSnapshot, Mode,
  unique, multi, ProjectSnapshot, RevealStateSnapshot, select, judge_status, judge_mode, judge,
}

module _ (project : ProjectSnapshot) (state : RevealStateSnapshot) (submission : SubmissionSnapshot)
    (already_selected : Bool) where
  -- The first candidate of an open UNIQUE project.
  abbrev pub FirstInLine : Type 0
  FirstInLine =
      (project.mode ≡ unique)
      × (state.winner_locked ≡ false)
      × (submission.status ≡ committed)
      × (state.has_candidate ≡ false)
      × (already_selected ≡ false)

  select_cases :
      (mode : Mode) (status : SubmissionStatus)
      → (judge_mode mode state (record submission { status = status }) already_selected ≡ select)
        ↔ ((mode ≡ unique)
            × (state.winner_locked ≡ false)
            × (status ≡ committed)
            × (state.has_candidate ≡ false)
            × (already_selected ≡ false))
  unfolding judge_mode judge_status
  select_cases multi status = ground arith
  select_cases unique committed = ground arith
  select_cases unique revealed = ground arith
  select_cases unique verified = ground arith
  select_cases unique invalid = ground arith
  select_cases unique finalized = ground arith

  -- The verdict is to select exactly when the project is UNIQUE and has neither a winner nor a
  -- candidate, the submission is committed, and the project is not among the selected ones.
  pub judge_select_iff : (judge project state submission already_selected ≡ select) ↔ FirstInLine
  unfolding judge
  judge_select_iff = select_cases project.mode submission.status
