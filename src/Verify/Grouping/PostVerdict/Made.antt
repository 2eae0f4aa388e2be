-- ===== src/Verify/Grouping/PostVerdict/Made.antt =====
-- When groups are made, and of what.
use anti_soon.Prelude.{◌≡◌, ◌≢◌, true, false, ◌&&◌, Bool, List, Option, none, some, map}
use anti_soon.Prelude.Pairwise.{Pairwise}
use anti_soon.Verify.Grouping.Floats.{Floats}
use anti_soon.Verify.Grouping.Ranked.{Texts}
use anti_soon.Verify.Grouping.Normalize.{
  TextFunctions, GroupingInput, normalize_submission, normalize_severity_to_cohort,
}
use anti_soon.Verify.Grouping.Build.{GroupingResult}
use anti_soon.Verify.Grouping.Build.Grouped.{IsGrouping}
use anti_soon.Verify.Grouping.PostVerdict.{PostVerdictInput, is_multi, is_valid, is_grouped_cohort}

abbrev pub HaveDistinctIds : List GroupingInput → Type 0
HaveDistinctIds = Pairwise (λ x y. x.submission_id ≢ y.submission_id)

module _ (floats : Floats) (texts : Texts) (functions : TextFunctions) where
  -- the verdict calls for groups
  abbrev pub is_called_for : PostVerdictInput → Bool
  is_called_for args =
      is_multi args.competition_mode
      && is_valid args.final_validity
      && is_grouped_cohort (normalize_severity_to_cohort functions args.severity)

  -- what the entry point comes to
  abbrev pub Made : PostVerdictInput → Option (GroupingResult floats) → Type 0
  Made args none = is_called_for args ≡ false
  Made args (some r) =
      (is_called_for args ≡ true)
      × IsGrouping floats (map (normalize_submission functions texts) args.submissions) r
