-- ===== src/Verify/Grouping/PostVerdict.antt =====
-- The entry points of workflow/verify-poc/src/multiGrouping.ts: the groups of the submissions of a
-- project, and when they are made.
pub mod Made
use anti_soon.Prelude.{
  ℕ, String, Bool, true, false, not, ◌||◌, List, Option, none, some, Result, ok, err, map,
  if◌then◌else◌,
}
use anti_soon.Prelude.Results.{◌>>=◌}
use anti_soon.Verify.Grouping.Floats.{Floats}
use anti_soon.Verify.Grouping.Similarity.{Cohort, high, medium, other}
use anti_soon.Verify.Grouping.Ranked.{Texts, GroupingError}
use anti_soon.Verify.Grouping.Normalize.{
  TextFunctions, GroupingInput, normalize_severity_to_cohort, normalize_submission,
}
use anti_soon.Verify.Grouping.Build.{GroupingResult, build_groups}

pub data CompetitionMode : Type 0 where
  multi unique : CompetitionMode

pub data FinalValidity : Type 0 where
  no_validity valid invalid : FinalValidity

-- `PostVerdictMultiGroupingInput`
pub record PostVerdictInput : Type 0 where
  pub competition_mode : CompetitionMode
  pub final_validity : FinalValidity
  pub severity : String
  pub submissions : List GroupingInput

unfoldable pub is_multi : CompetitionMode → Bool
is_multi multi = true
is_multi unique = false

unfoldable pub is_valid : FinalValidity → Bool
is_valid valid = true
is_valid _ = false

-- `cohort === "HIGH" || cohort === "MEDIUM"`
unfoldable pub is_grouped_cohort : Cohort → Bool
is_grouped_cohort other = false
is_grouped_cohort _ = true

module _ (floats : Floats) (texts : Texts) (functions : TextFunctions) where
  unfoldable pub build_deterministic_groups :
      List GroupingInput → Result (GroupingError floats) (GroupingResult floats)
  unfolding normalize_submission
  build_deterministic_groups submissions =
      build_groups floats texts (map (normalize_submission functions texts) submissions)

  unfoldable pub build_post_verdict_groups :
      PostVerdictInput → Result (GroupingError floats) (Option (GroupingResult floats))
  unfolding is_multi is_valid is_grouped_cohort normalize_severity_to_cohort
  build_post_verdict_groups args =
      let groups = build_deterministic_groups args.submissions >>= λ r. ok (some r) in
      if not (is_multi args.competition_mode)
      then ok none
      else if not (is_valid args.final_validity)
      then ok none
      else if not (is_grouped_cohort (normalize_severity_to_cohort functions args.severity))
      then ok none
      else groups
