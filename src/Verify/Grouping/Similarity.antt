-- ===== src/Verify/Grouping/Similarity.antt =====
-- The similarity of two submissions, of workflow/verify-poc/src/multiGrouping.ts. An id, the decimal
-- text of a bigint, stands as its number.
use mathlib.Core.List.{foldl}
use anti_soon.Prelude.{
  ℕ, String, Bool, true, false, not, ◌&&◌, ◌||◌, List, [], ◌++◌, str_eq, leb, ltb, ◌==◌,
  if◌then◌else◌, length, count,
}
use anti_soon.Prelude.Set.{contains_text, add_text}
use anti_soon.Verify.Grouping.Floats.{Floats}

-- `MultiGroupingCohort`
pub data Cohort : Type 0 where
  high medium other : Cohort

unfoldable pub same_cohort : Cohort → Cohort → Bool
same_cohort high high = true
same_cohort medium medium = true
same_cohort other other = true
same_cohort _ _ = false

-- `NormalizedSubmission`
pub record Submission : Type 0 where
  pub submission_id : ℕ
  pub cohort : Cohort
  pub target_contract : String
  pub impact_type : String
  pub summary_tokens : List String
  pub observed_selectors : List String
  pub cluster_fingerprint : String

-- `new Set(xs)`
unfoldable pub set_of : List String → List String
set_of = foldl (λ members x. add_text x members) []

-- `pairKey(leftId, rightId)`: the lower id in front
unfoldable pub pair_key : ℕ → ℕ → ℕ × ℕ
pair_key left right = if leb left right then (left, right) else (right, left)

module _ (floats : Floats) where
  open floats use {
    Float, of_nat, hundredths, plus, times, over, rounded, is_below, is_at_least, is_zero,
  }

  pub record PairwiseSimilarity : Type 0 where
    pub similar : Bool
    pub similarity_score : Float
    pub selector_similarity : Float
    pub text_similarity : Float

  unfoldable pub jaccard_similarity : List String → List String → Float
  unfolding set_of
  jaccard_similarity left right =
      let left_set = set_of left in
      let right_set = set_of right in
      let union = length (set_of (left_set ++ right_set)) in
      let intersection = count (λ item. contains_text item right_set) left_set in
      if length left == 0 && length right == 0
      then of_nat 1
      else if union == 0
      then of_nat 0
      else over (of_nat intersection) (of_nat union)

  unfoldable pub round_similarity : Float → Float
  round_similarity value = over (rounded (times value (of_nat 1000))) (of_nat 1000)

  -- the scores of two submissions of one cohort, contract and impact
  unfoldable pub score_pair :
      (both_have_selectors : Bool) (selectors text : Float) → PairwiseSimilarity
  unfolding round_similarity
  score_pair both selectors text =
      let dissimilar : PairwiseSimilarity = record {
        similar = false;
        similarity_score = of_nat 0;
        selector_similarity = selectors;
        text_similarity = text;
      } in
      let score = round_similarity (
        plus (plus (hundredths 55) (times selectors (hundredths 25)))
          (times text (hundredths 20))) in
      if both && is_zero selectors
      then dissimilar
      else if not both && is_below text (hundredths 60)
      then dissimilar
      else record {
        similar = is_at_least score (hundredths 70);
        similarity_score = score;
        selector_similarity = selectors;
        text_similarity = text;
      }

  unfoldable pub compute_pairwise_similarity : Submission → Submission → PairwiseSimilarity
  unfolding same_cohort jaccard_similarity round_similarity score_pair
  compute_pairwise_similarity left right =
      if not (same_cohort left.cohort right.cohort)
        || not (str_eq left.target_contract right.target_contract)
        || not (str_eq left.impact_type right.impact_type)
      then record {
        similar = false;
        similarity_score = of_nat 0;
        selector_similarity = of_nat 0;
        text_similarity = of_nat 0;
      }
      else score_pair
          (ltb 0 (length left.observed_selectors) && ltb 0 (length right.observed_selectors))
          (round_similarity (jaccard_similarity left.observed_selectors right.observed_selectors))
          (round_similarity (jaccard_similarity left.summary_tokens right.summary_tokens))
