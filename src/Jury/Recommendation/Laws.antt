-- ===== src/Jury/Recommendation/Laws.antt =====
-- An action is recommended when it alone has the quorum.
use anti_soon.Prelude.{
  ℕ, ◌≡◌, ◌≢◌, ◌↔◌, refl, sym, ap, ◌∙◌, Bool, Option, none, some, List, [], ◌∷◌, ok, ◌==◌, length,
  arith, All, ==_iff,
}
use anti_soon.Prelude.Results.{demand_then, demand_holds, bind_parts, bind_ok, ok_unique}
use anti_soon.Jury.Recommendation.{
  Action, needs_owner_review, Recommendation, assert_matching_scope, Counts, count_of,
  count_recommendation_actions, winning_action, recommend, aggregate_recommendations,
}
use anti_soon.Jury.Recommendation.Quorum.{
  recommendations_for, HasQuorum, winning_action_iff, count_of-recommendations,
}

HasQuorum-same :
    (quorum : ℕ) (a : Action) (votes votes' : Action → ℕ)
    → ((b : Action) → votes b ≡ votes' b)
    → HasQuorum quorum a votes
    → HasQuorum quorum a votes'
HasQuorum-same quorum a votes votes' same h =
    (omega (arith, h.0, same a), λ b n. omega (arith, h.1 b n, same b))

-- All are about the submission and the project of the first.
abbrev pub HaveScopeOf : Recommendation → List Recommendation → Type 0
HaveScopeOf first rs =
    All (λ r. (r.submission_id ≡ first.submission_id) × (r.project_id ≡ first.project_id)) rs

assert_matching_scope-HaveScopeOf :
    (first : Recommendation) (rs : List Recommendation)
    → assert_matching_scope first rs ≡ ok tt
    → HaveScopeOf first rs
unfolding assert_matching_scope
assert_matching_scope-HaveScopeOf first [] h = tt
assert_matching_scope-HaveScopeOf first (r ∷ rs) h =
    let (s, h1) = demand_then (r.submission_id == first.submission_id) _ _ h in
    let (p, h2) = demand_then (r.project_id == first.project_id) _ _ h1 in
    (((==_iff _ _).0 s, (==_iff _ _).0 p), assert_matching_scope-HaveScopeOf first rs h2)

assert_matching_scope-ok :
    (first : Recommendation) (rs : List Recommendation)
    → HaveScopeOf first rs
    → assert_matching_scope first rs ≡ ok tt
unfolding assert_matching_scope
assert_matching_scope-ok first [] h = refl
assert_matching_scope-ok first (r ∷ rs) h =
    demand_holds {c = r.submission_id == first.submission_id} _ _ ((==_iff _ _).1 h.0.0)
    ∙ demand_holds {c = r.project_id == first.project_id} _ _ ((==_iff _ _).1 h.0.1)
    ∙ assert_matching_scope-ok first rs h.1

recommend-action :
    (first : Recommendation) (total : ℕ) (counts : Counts) (quorum : ℕ) (timed_out : Bool)
    (o : Option Action) (a : Action)
    → a ≢ needs_owner_review
    → (recommend first total counts quorum timed_out o).action ≡ a
    → o ≡ some a
unfolding recommend
recommend-action first total counts quorum timed_out none a n h = absurd (n (sym h))
recommend-action first total counts quorum timed_out (some b) a n h = ap some h

-- The aggregation of recommendations recommends an action that is not the review of the owner
-- exactly when all recommendations are about one submission and one project, at least the quorum of
-- them is for the action, and less than the quorum for every other.
pub aggregate_recommendations-action_iff :
    (first : Recommendation) (rest : List Recommendation) (quorum : ℕ) (timed_out : Bool)
    (a : Action)
    → a ≢ needs_owner_review
    → ((p : Recommendation) × (aggregate_recommendations (first ∷ rest) quorum timed_out ≡ ok p)
        × (p.action ≡ a))
      ↔ (HaveScopeOf first rest × HasQuorum quorum a (λ b. recommendations_for b (first ∷ rest)))
unfolding aggregate_recommendations recommend
aggregate_recommendations-action_iff first rest quorum timed_out a other =
    let counts = count_recommendation_actions (first ∷ rest) in
    let same = λ (b : Action). count_of-recommendations b (first ∷ rest) in
    (
      λ (p, e, q).
          let (_, scope, k) = bind_parts (assert_matching_scope first rest) _ e in
          let won =
            recommend-action first (length (first ∷ rest)) counts quorum timed_out
              (winning_action counts quorum) a other (ap (λ x. x.action) (ok_unique refl k) ∙ q) in
          (
            assert_matching_scope-HaveScopeOf first rest scope,
            HasQuorum-same quorum a (count_of counts) _ same
                ((winning_action_iff counts quorum a).0 won),
          ),
      λ (scope, h).
          let won =
            (winning_action_iff counts quorum a).1
              (HasQuorum-same quorum a _ (count_of counts) (λ b. sym (same b)) h) in
          (
            recommend first (length (first ∷ rest)) counts quorum timed_out (some a),
            bind_ok _ (assert_matching_scope-ok first rest scope)
                ∙ ap (λ o. ok (recommend first (length (first ∷ rest)) counts quorum timed_out o))
                    won,
            refl,
          ),
    )
