-- ===== src/Jury/Recommendation.antt =====
-- `aggregateJuryRecommendationEnvelopes` of main.ts: the recommendations of the jury on the result of
-- the verification, and the quorum. An envelope is its payload; its fixed fields are left out.
pub mod Quorum
pub mod Laws
use anti_soon.Prelude.{
  ℕ, ◌+◌, max, String, Bool, true, false, Option, none, some, List, [], ◌∷◌, ◌||◌, Result, ok, err,
  ◌==◌, leb, ltb, length, keep, if◌then◌else◌,
}
use anti_soon.Prelude.Template.{template}
use anti_soon.Prelude.Decimal.{to_string}
use anti_soon.Prelude.Results.{◌>>=◌, ◌>>◌, demand}

-- `JuryRecommendationAction`
pub data Action : Type 0 where
  uphold_ai_result overturn_ai_result needs_owner_review : Action

abbrev pub same_action : Action → Action → Bool
same_action uphold_ai_result uphold_ai_result = true
same_action overturn_ai_result overturn_ai_result = true
same_action needs_owner_review needs_owner_review = true
same_action _ _ = false

abbrev pub action_text : Action → String
action_text uphold_ai_result = "UPHOLD_AI_RESULT"
action_text overturn_ai_result = "OVERTURN_AI_RESULT"
action_text needs_owner_review = "NEEDS_OWNER_REVIEW"

pub record Recommendation : Type 0 where
  pub submission_id : ℕ
  pub project_id : ℕ
  pub action : Action
  pub rationale : String

-- With no recommendation at all the code fails on reading the first.
pub data RecommendationError : Type 0 where
  no_recommendation other_submission other_project : RecommendationError

abbrev pub jury_action_order : List Action
jury_action_order = uphold_ai_result ∷ overturn_ai_result ∷ needs_owner_review ∷ []

-- the loop over the recommendations after the first
unfoldable pub assert_matching_scope :
    Recommendation → List Recommendation → Result RecommendationError (Unit {0})
assert_matching_scope first [] = ok tt
assert_matching_scope first (r ∷ rs) = do
  demand (r.submission_id == first.submission_id) other_submission
  demand (r.project_id == first.project_id) other_project
  assert_matching_scope first rs

-- `JuryConsensusCounts`
pub record Counts : Type 0 where
  pub uphold : ℕ
  pub overturn : ℕ
  pub owner_review : ℕ

-- `counts[action]`
abbrev pub count_of : Counts → Action → ℕ
count_of counts uphold_ai_result = counts.uphold
count_of counts overturn_ai_result = counts.overturn
count_of counts needs_owner_review = counts.owner_review

-- `counts[action] += 1`
abbrev pub count_action : Counts → Action → Counts
count_action counts uphold_ai_result = record counts { uphold = counts.uphold + 1 }
count_action counts overturn_ai_result = record counts { overturn = counts.overturn + 1 }
count_action counts needs_owner_review = record counts { owner_review = counts.owner_review + 1 }

unfoldable pub counts_from : Counts → List Recommendation → Counts
counts_from counts [] = counts
counts_from counts (r ∷ rs) = counts_from (count_action counts r.action) rs

unfoldable pub count_recommendation_actions : List Recommendation → Counts
unfolding counts_from
count_recommendation_actions rs =
    counts_from (record { uphold = 0; overturn = 0; owner_review = 0 }) rs

abbrev pub highest_count : Counts → ℕ
highest_count counts = max counts.uphold (max counts.overturn counts.owner_review)

abbrev pub leading_actions : Counts → List Action
leading_actions counts =
    keep (λ action. count_of counts action == highest_count counts) jury_action_order

abbrev pub quorum_actions : Counts → ℕ → List Action
quorum_actions counts quorum =
    keep (λ action. leb quorum (count_of counts action)) jury_action_order

-- the one leader, if it is the one action with the quorum
abbrev pub agreed_action : List Action → List Action → Option Action
agreed_action (a ∷ []) (b ∷ []) = if same_action a b then some a else none
agreed_action _ _ = none

unfoldable pub winning_action : Counts → ℕ → Option Action
winning_action counts quorum = agreed_action (leading_actions counts) (quorum_actions counts quorum)

unfoldable pub format_recommendation_counts : Counts → String
format_recommendation_counts counts = template (
    "UPHOLD_AI_RESULT="
    ∷ to_string counts.uphold
    ∷ ", OVERTURN_AI_RESULT="
    ∷ to_string counts.overturn
    ∷ ", NEEDS_OWNER_REVIEW="
    ∷ to_string counts.owner_review
    ∷ [])

unfoldable pub unresolved_reason : Counts → ℕ → Bool → String
unresolved_reason counts quorum timed_out =
    if timed_out
    then template ("Jury quorum " ∷ to_string quorum ∷ " was not reached before timeout" ∷ [])
    else if ltb 1 (length (leading_actions counts)) || ltb 1 (length (quorum_actions counts quorum))
    then "Jury recommendation state is unresolved without a deterministic quorum winner"
    else template ("Jury quorum " ∷ to_string quorum ∷ " was not reached" ∷ [])

-- what is returned for the winning action, or without one
unfoldable pub recommend : Recommendation → ℕ → Counts → ℕ → Bool → Option Action → Recommendation
unfolding format_recommendation_counts unresolved_reason
recommend first total counts quorum timed_out (some action) = record {
  submission_id = first.submission_id;
  project_id = first.project_id;
  action = action;
  rationale = template (
      "Deterministic jury quorum "
      ∷ to_string quorum
      ∷ " reached for "
      ∷ action_text action
      ∷ " with "
      ∷ to_string (count_of counts action)
      ∷ "/"
      ∷ to_string total
      ∷ " recommendations. Counts: "
      ∷ format_recommendation_counts counts
      ∷ "."
      ∷ []);
}
recommend first total counts quorum timed_out none = record {
  submission_id = first.submission_id;
  project_id = first.project_id;
  action = needs_owner_review;
  rationale = template (
      unresolved_reason counts quorum timed_out
      ∷ "; escalating to owner review. Counts: "
      ∷ format_recommendation_counts counts
      ∷ "."
      ∷ []);
}

unfoldable pub aggregate_recommendations :
    List Recommendation
    → (required_quorum : ℕ) (timed_out : Bool) → Result RecommendationError Recommendation
unfolding assert_matching_scope
aggregate_recommendations [] quorum timed_out = err no_recommendation
aggregate_recommendations (first ∷ rest) quorum timed_out = do
  assert_matching_scope first rest
  let counts = count_recommendation_actions (first ∷ rest)
  ok (
      recommend first (length (first ∷ rest)) counts quorum timed_out
        (winning_action counts quorum))
