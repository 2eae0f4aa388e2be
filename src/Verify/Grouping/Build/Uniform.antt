-- ===== src/Verify/Grouping/Build/Uniform.antt =====
-- A group does not mix cohorts, contracts or impacts.
use anti_soon.Prelude.{
  ℕ, String, ◌≡◌, ◌≢◌, ◌⊎◌, refl, ap, sym, ◌∙◌, inl, inr, true, false, List, [], ◌∷◌, Option, none,
  some, ◌==◌, ==_iff, arith, if◌then◌else◌, All, All-imp, All-zip, Bool-cases, ok, eq_iff,
}
use anti_soon.Prelude.Sort.{sort}
use anti_soon.Prelude.Set.{contains}
use anti_soon.Prelude.Pairwise.{Pairwise-sort, All-unsort}
use anti_soon.Verify.Grouping.Floats.{Floats}
use anti_soon.Verify.Grouping.Similarity.{
  Cohort, high, medium, other, same_cohort, Submission, compute_pairwise_similarity,
}
use anti_soon.Verify.Grouping.Components.{compare_submissions}
use anti_soon.Verify.Grouping.Components.Adjacency.{ids_of}
use anti_soon.Verify.Grouping.Components.Classes.{share}
use anti_soon.Verify.Grouping.Ranked.{Texts}
use anti_soon.Verify.Grouping.Build.{GroupingResult, build_groups}
use anti_soon.Verify.Grouping.Build.Pairwise.{IsDistinct, alike_from, alike}
use anti_soon.Verify.Grouping.Build.Chains.{Chain, here, step}
use anti_soon.Verify.Grouping.Build.Grouped.{members_of, build_groups-IsGrouping}

-- What the submissions of a group have in common.
pub record Kind : Type 0 where
  pub cohort : Cohort
  pub target_contract : String
  pub impact_type : String

abbrev pub kind : Submission → Kind
kind s = record {
  cohort = s.cohort;
  target_contract = s.target_contract;
  impact_type = s.impact_type;
}

-- the kind of the first submission of an id
abbrev kind_of : List Submission → ℕ → Option Kind
kind_of [] k = none
kind_of (s ∷ ss) k = if s.submission_id == k then some (kind s) else kind_of ss k

same_cohort→≡ : (a b : Cohort) → same_cohort a b ≡ true → a ≡ b
unfolding same_cohort
same_cohort→≡ high high h = refl
same_cohort→≡ medium medium h = refl
same_cohort→≡ other other h = refl
same_cohort→≡ high medium h = cc
same_cohort→≡ high other h = cc
same_cohort→≡ medium high h = cc
same_cohort→≡ medium other h = cc
same_cohort→≡ other high h = cc
same_cohort→≡ other medium h = cc

module _ (floats : Floats) where
  similar-kind :
      (l r : Submission) → (compute_pairwise_similarity floats l r).similar ≡ true → kind l ≡ kind r
  unfolding compute_pairwise_similarity
  similar-kind l r h = ground (
    arith,
    same_cohort→≡ l.cohort r.cohort,
    eq_iff l.target_contract r.target_contract,
    eq_iff l.impact_type r.impact_type,
  )

  kind_of-other :
      (k : ℕ) (ss : List Submission) → All (λ s. k ≢ s.submission_id) ss → kind_of ss k ≡ none
  kind_of-other k [] h = refl
  kind_of-other k (s ∷ ss) (h, hs) =
      ground (arith, h, kind_of-other k ss hs, ==_iff s.submission_id k)

  -- of two similar submissions one is `l`, and the other has its kind
  alike_from-kind :
      (l : Submission) (later : List Submission) (u w : ℕ)
      → IsDistinct later
      → alike_from floats l later u w ≡ true
      → (u ≡ l.submission_id) × (kind_of later w ≡ some (kind l))
        ⊎ (w ≡ l.submission_id) × (kind_of later u ≡ some (kind l))
  alike_from-kind l [] u w d h = cc
  alike_from-kind l (r ∷ later) u w (d, ds) h = ground (
    arith,
    similar-kind l r,
    alike_from-kind l later u w ds,
    kind_of-other r.submission_id later d,
    ==_iff r.submission_id u,
    ==_iff r.submission_id w,
    ==_iff l.submission_id u,
    ==_iff l.submission_id w,
  )

  -- two similar submissions have a kind in common
  alike-kind :
      (ss : List Submission) (u w : ℕ)
      → IsDistinct ss
      → alike floats ss u w ≡ true
      → (k : Kind) × (kind_of ss u ≡ some k) × (kind_of ss w ≡ some k)
  alike-kind [] u w d h = absurd (let t : false ≡ true = h in cc)
  alike-kind (l ∷ later) u w (d, ds) h =
      let apart = kind_of-other l.submission_id later d in
      elim (Bool-cases (alike_from floats l later u w)) [
        | inl t ↦ elim (alike_from-kind l later u w ds t) [
          | inl (p, q) ↦ (kind l, ground (arith, p, q, apart), ground (arith, p, q, apart))
          | inr (p, q) ↦ (kind l, ground (arith, p, q, apart), ground (arith, p, q, apart))
        ]
        | inr f ↦
            let (k, p, q) = alike-kind later u w ds (ground (arith, h, f)) in
            (
              k,
              ground (arith, p, apart, ==_iff l.submission_id u),
              ground (arith, q, apart, ==_iff l.submission_id w),
            )
      ]

  Chain-kind :
      (ss : List Submission) {u w : ℕ}
      → IsDistinct ss
      → Chain floats ss u w
      → kind_of ss u ≡ kind_of ss w
  Chain-kind ss d (here e) = ap (kind_of ss) e
  Chain-kind ss d (step {u} {v} {w} p a) =
      let (k, h, k') = alike-kind ss v w d a in Chain-kind ss d p ∙ h ∙ sym k'

  kind_of-own :
      (ss : List Submission)
      → IsDistinct ss
      → All (λ s. kind_of ss s.submission_id ≡ some (kind s)) ss
  kind_of-own [] d = tt
  kind_of-own (s ∷ ss) (d, ds) = (
    ground (arith, ==_iff s.submission_id s.submission_id),
    All-zip (λ x n h. ground (arith, h, n, ==_iff s.submission_id x.submission_id)) ss d
        (kind_of-own ss ds),
  )

  All-contains : (ss : List Submission) → All (λ s. contains s.submission_id (ids_of ss) ≡ true) ss
  All-contains [] = tt
  All-contains (s ∷ ss) = (
    ground (arith, ==_iff s.submission_id s.submission_id),
    All-imp (λ x h. ground (arith, h)) ss (All-contains ss),
  )

  -- no two submissions that share a group differ in kind
  abbrev pub IsUniform : List Submission → GroupingResult floats → Type 0
  IsUniform ss r =
      All
        (λ x.
          All
            (λ y.
              share x.submission_id y.submission_id (members_of floats r) ≡ true → kind x ≡ kind y)
            ss)
        ss

  -- For submissions with distinct ids the code returns groups in which no two submissions differ in
  -- their cohort, their contract or their impact.
  pub build_groups-IsUniform :
      (texts : Texts) (ss : List Submission)
      → IsDistinct ss
      → (r : GroupingResult floats) × (build_groups floats texts ss ≡ ok r) × IsUniform ss r
  build_groups-IsUniform texts ss d =
      let sorted = sort compare_submissions ss in
      let apart = Pairwise-sort _ compare_submissions (λ x y n q. n (sym q)) ss d in
      let (r, e, p) = build_groups-IsGrouping floats texts ss d in
      let own =
        All-unsort compare_submissions (λ s. kind_of sorted s.submission_id ≡ some (kind s)) ss
          (kind_of-own sorted apart) in
      (
        r,
        e,
        All-zip
            (λ x hx member.
              All-imp
                (λ y hy t.
                  let chain = (p.together_iff x.submission_id y.submission_id member).0 t in
                  cc (hx, hy, Chain-kind sorted apart chain))
                ss own)
            ss own (All-contains ss),
      )
