-- ===== src/Jury/Tests/Recommendations.antt =====
-- Three recommendations, two of which uphold the result.
use anti_soon.Prelude.{◌≡◌, ◌↔◌, List, [], ◌∷◌, ok, false}
use anti_soon.Jury.Recommendation.{
  Action, uphold_ai_result, overturn_ai_result, Recommendation, aggregate_recommendations,
}
use anti_soon.Jury.Recommendation.Quorum.{HasQuorum, recommendations_for}
use anti_soon.Jury.Recommendation.Laws.{HaveScopeOf, aggregate_recommendations-action_iff}

abbrev recommendation_of : Action → Recommendation
recommendation_of a = record { submission_id = 4; project_id = 2; action = a; rationale = "seen" }

abbrev other_recommendations : List Recommendation
other_recommendations =
    recommendation_of overturn_ai_result ∷ recommendation_of uphold_ai_result ∷ []

aggregate_recommendations-action_iff_example :
    ((p : Recommendation) × (aggregate_recommendations
          (recommendation_of uphold_ai_result ∷ other_recommendations)
          2
          false
        ≡ ok p)
      × (p.action ≡ uphold_ai_result))
    ↔ (HaveScopeOf (recommendation_of uphold_ai_result) other_recommendations
        × HasQuorum 2 uphold_ai_result (λ b.
          recommendations_for b (recommendation_of uphold_ai_result ∷ other_recommendations)))
aggregate_recommendations-action_iff_example =
    aggregate_recommendations-action_iff (recommendation_of uphold_ai_result) other_recommendations
      2 false uphold_ai_result (λ e. cc)
