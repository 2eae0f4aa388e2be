-- ===== src/Jury/Recommendation/Quorum.antt =====
-- The votes of the actions, and which action wins.
use anti_soon.Prelude.{
  ℕ, ◌+◌, ◌≤◌, ◌<◌, ◌≡◌, ◌≢◌, ◌↔◌, refl, ◌∙◌, Bool, true, false, some, List, [], ◌∷◌, ◌==◌, leb,
  count, max, arith, if◌then◌else◌,
}
use anti_soon.Jury.Recommendation.{
  Action, uphold_ai_result, overturn_ai_result, needs_owner_review, same_action, Recommendation,
  Counts, count_of, count_action, counts_from, count_recommendation_actions, agreed_action,
  winning_action,
}

-- The recommendations of an action.
abbrev pub is_for : Action → Recommendation → Bool
is_for a r = same_action r.action a

unfoldable pub recommendations_for : Action → List Recommendation → ℕ
recommendations_for a rs = count (is_for a) rs

-- The action has the quorum and no other has.
abbrev pub HasQuorum : ℕ → Action → (Action → ℕ) → Type 0
HasQuorum quorum a votes = (quorum ≤ votes a) × ((b : Action) → b ≢ a → votes b < quorum)

count_of-count_action :
    (counts : Counts) (x a : Action)
    → count_of (count_action counts x) a ≡ count_of counts a + (if same_action x a then 1 else 0)
count_of-count_action counts uphold_ai_result uphold_ai_result = refl
count_of-count_action counts uphold_ai_result overturn_ai_result = omega arith
count_of-count_action counts uphold_ai_result needs_owner_review = omega arith
count_of-count_action counts overturn_ai_result uphold_ai_result = omega arith
count_of-count_action counts overturn_ai_result overturn_ai_result = refl
count_of-count_action counts overturn_ai_result needs_owner_review = omega arith
count_of-count_action counts needs_owner_review uphold_ai_result = omega arith
count_of-count_action counts needs_owner_review overturn_ai_result = omega arith
count_of-count_action counts needs_owner_review needs_owner_review = refl

count_of-counts_from :
    (a : Action) (counts : Counts) (rs : List Recommendation)
    → count_of (counts_from counts rs) a ≡ count_of counts a + recommendations_for a rs
unfolding counts_from recommendations_for
count_of-counts_from a counts [] = omega arith
count_of-counts_from a counts (r ∷ rs) = omega (
  arith,
  count_of-counts_from a (count_action counts r.action) rs,
  count_of-count_action counts r.action a,
)

-- the tests of the three actions, for `uphold`, `overturn` and `owner_review`
keep_tests : Bool → Bool → Bool → List Action
keep_tests x y z =
    if x
    then uphold_ai_result
      ∷ (if y
          then overturn_ai_result ∷ (if z then needs_owner_review ∷ [] else [])
          else (if z then needs_owner_review ∷ [] else []))
    else (if y
        then overturn_ai_result ∷ (if z then needs_owner_review ∷ [] else [])
        else (if z then needs_owner_review ∷ [] else []))

-- exactly the test of `a` holds
IsOnly : Action → Bool → Bool → Bool → Type 0
IsOnly uphold_ai_result x y z = (x ≡ true) × (y ≡ false) × (z ≡ false)
IsOnly overturn_ai_result x y z = (y ≡ true) × (x ≡ false) × (z ≡ false)
IsOnly needs_owner_review x y z = (z ≡ true) × (x ≡ false) × (y ≡ false)

agreed_action-IsOnly :
    (a : Action) (x y z t u v : Bool)
    → agreed_action (keep_tests x y z) (keep_tests t u v) ≡ some a
    → IsOnly a x y z × IsOnly a t u v
unfolding keep_tests IsOnly
agreed_action-IsOnly uphold_ai_result x y z t u v h = ground arith
agreed_action-IsOnly overturn_ai_result x y z t u v h = ground arith
agreed_action-IsOnly needs_owner_review x y z t u v h = ground arith

agreed_action-some :
    (a : Action) (x y z t u v : Bool)
    → IsOnly a x y z
    → IsOnly a t u v
    → agreed_action (keep_tests x y z) (keep_tests t u v) ≡ some a
unfolding keep_tests IsOnly
agreed_action-some uphold_ai_result x y z t u v h k = ground arith
agreed_action-some overturn_ai_result x y z t u v h k = ground arith
agreed_action-some needs_owner_review x y z t u v h k = ground arith

module _ (counts : Counts) (quorum : ℕ) where
  -- only this action has the quorum
  AloneInQuorum : Action → Type 0
  AloneInQuorum a =
      IsOnly a (leb quorum counts.uphold) (leb quorum counts.overturn)
        (leb quorum counts.owner_review)

  Leads : Action → Type 0
  Leads a =
      let highest = max counts.uphold (max counts.overturn counts.owner_review) in
      IsOnly a (counts.uphold == highest) (counts.overturn == highest)
        (counts.owner_review == highest)

  others_below : (a b : Action) → AloneInQuorum a → b ≢ a → count_of counts b < quorum
  unfolding AloneInQuorum IsOnly
  others_below uphold_ai_result uphold_ai_result h n = absurd (n refl)
  others_below uphold_ai_result overturn_ai_result h n = ground arith
  others_below uphold_ai_result needs_owner_review h n = ground arith
  others_below overturn_ai_result uphold_ai_result h n = ground arith
  others_below overturn_ai_result overturn_ai_result h n = absurd (n refl)
  others_below overturn_ai_result needs_owner_review h n = ground arith
  others_below needs_owner_review uphold_ai_result h n = ground arith
  others_below needs_owner_review overturn_ai_result h n = ground arith
  others_below needs_owner_review needs_owner_review h n = absurd (n refl)

  reaches_quorum : (a : Action) → AloneInQuorum a → quorum ≤ count_of counts a
  unfolding AloneInQuorum IsOnly
  reaches_quorum uphold_ai_result h = ground arith
  reaches_quorum overturn_ai_result h = ground arith
  reaches_quorum needs_owner_review h = ground arith

  -- who alone has the quorum also leads
  AloneInQuorum-of_HasQuorum :
      (a : Action) → HasQuorum quorum a (count_of counts) → AloneInQuorum a × Leads a
  unfolding AloneInQuorum Leads IsOnly
  AloneInQuorum-of_HasQuorum uphold_ai_result h =
      let o = h.1 overturn_ai_result (λ e. cc) in
      let n = h.1 needs_owner_review (λ e. cc) in
      (ground (arith, h.0, o, n), ground (arith, h.0, o, n))
  AloneInQuorum-of_HasQuorum overturn_ai_result h =
      let u = h.1 uphold_ai_result (λ e. cc) in
      let n = h.1 needs_owner_review (λ e. cc) in
      (ground (arith, h.0, u, n), ground (arith, h.0, u, n))
  AloneInQuorum-of_HasQuorum needs_owner_review h =
      let u = h.1 uphold_ai_result (λ e. cc) in
      let o = h.1 overturn_ai_result (λ e. cc) in
      (ground (arith, h.0, u, o), ground (arith, h.0, u, o))

  pub winning_action_iff :
      (a : Action) → (winning_action counts quorum ≡ some a) ↔ HasQuorum quorum a (count_of counts)
  unfolding winning_action keep_tests AloneInQuorum Leads
  winning_action_iff a = (
    λ e.
        let (_, alone) = agreed_action-IsOnly a _ _ _ _ _ _ e in
        (reaches_quorum a alone, λ b n. others_below a b alone n),
    λ h.
        let (alone, leads) = AloneInQuorum-of_HasQuorum a h in
        agreed_action-some a _ _ _ _ _ _ leads alone,
  )

count_of-nothing :
    (a : Action) → count_of (record { uphold = 0; overturn = 0; owner_review = 0 }) a ≡ 0
count_of-nothing uphold_ai_result = refl
count_of-nothing overturn_ai_result = refl
count_of-nothing needs_owner_review = refl

pub count_of-recommendations :
    (a : Action) (rs : List Recommendation)
    → count_of (count_recommendation_actions rs) a ≡ recommendations_for a rs
unfolding count_recommendation_actions
count_of-recommendations a rs =
    count_of-counts_from a (record { uphold = 0; overturn = 0; owner_review = 0 }) rs
    ∙ omega (arith, count_of-nothing a)
