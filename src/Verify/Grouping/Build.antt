-- ===== src/Verify/Grouping/Build.antt =====
-- `buildDeterministicMultiSubmissionGroups` of workflow/verify-poc/src/multiGrouping.ts, from the
-- normalized submissions on: the pairs, the components, and the groups with their ranks.
pub mod Pairwise
pub mod Members
pub mod Chains
pub mod Grouped
pub mod Uniform
use Prim.Native.Nat.{Ordering, compare}
use mathlib.Core.List.{foldl}
use anti_soon.Prelude.{
  ℕ, zero, suc, ◌+◌, ◌≡◌, String, Bool, true, false, List, [], ◌∷◌, ◌++◌, Option, none, some, ◌==◌,
  length, map, Result, ok, err,
}
use anti_soon.Prelude.Results.{◌>>=◌}
use anti_soon.Prelude.Sort.{sort}
use anti_soon.Prelude.Keyed
use anti_soon.Verify.Grouping.Floats.{Floats}
use anti_soon.Verify.Grouping.Similarity.{
  Cohort, high, medium, other, same_cohort, Submission, pair_key, compute_pairwise_similarity,
}
use anti_soon.Verify.Grouping.Components.{
  Pairs, same_pair, compare_submission_ids, compare_submissions, compute_connected_components,
}
use anti_soon.Verify.Grouping.Ranked.{
  Texts, Scores, RankedGroup, GroupingError, out_of_fuel, build_ranked_group,
}

unfoldable pub cohort_priority : Cohort → ℕ
cohort_priority high = 0
cohort_priority medium = 1
cohort_priority other = 2

-- the sign of `left - right`, where the texts and the ids have not decided yet
abbrev pub or_else : Ordering → Ordering → Ordering
or_else Ordering.eq next = next
or_else Ordering.lt next = Ordering.lt
or_else Ordering.gt next = Ordering.gt

module _ (floats : Floats) where
  open floats use {Float, minus, sign}

  -- the pairs of a submission with all later ones
  unfoldable pub pair_row : Submission → List Submission → Pairs floats → Pairs floats
  pair_row left later pairs =
      foldl
        (λ m right.
          Keyed.set same_pair m (pair_key left.submission_id right.submission_id)
            (compute_pairwise_similarity floats left right))
        pairs later

  -- `pairwiseByKey`
  unfoldable pub pair_all : List Submission → Pairs floats → Pairs floats
  unfolding pair_row
  pair_all [] pairs = pairs
  pair_all (left ∷ later) pairs = pair_all later (pair_row left later pairs)

  unfoldable pub compare_groups : Texts → RankedGroup floats → RankedGroup floats → Ordering
  unfolding cohort_priority
  compare_groups texts left right =
      or_else (compare (cohort_priority left.cohort) (cohort_priority right.cohort)) (
        or_else (compare right.size left.size) (
          or_else (sign (minus right.average_similarity_score left.average_similarity_score)) (
            or_else
              (compare_submission_ids left.representative_submission_id
                right.representative_submission_id)
              (texts.compare_locale left.group_id right.group_id))))

  -- `MultiSubmissionGroup`
  pub record Group : Type 0 where
    pub ranked : RankedGroup floats
    pub group_rank : ℕ
    pub cohort_rank : ℕ

  -- `MultiSubmissionSimilarityRecord`
  pub record SimilarityRecord : Type 0 where
    pub submission_id : ℕ
    pub cohort : Cohort
    pub group_id : String
    pub cluster_key : String
    pub representative_submission_id : ℕ
    pub group_rank : ℕ
    pub cohort_rank : ℕ
    pub member_rank : ℕ
    pub group_size : ℕ
    pub scores : Scores floats

  pub record GroupingResult : Type 0 where
    pub groups : List Group
    pub submissions : List SimilarityRecord

  -- `cohortRankByCohort.get(cohort) ?? 0`
  unfoldable pub cohort_count : List (Cohort × ℕ) → Cohort → ℕ
  cohort_count counts cohort = elim (Keyed.get same_cohort counts cohort) [ none ↦ 0 | some n ↦ n ]

  -- the loop over the ranked groups, at the group of index `index`
  unfoldable pub rank_groups : ℕ → List (Cohort × ℕ) → List (RankedGroup floats) → List Group
  unfolding cohort_count
  rank_groups index counts [] = []
  rank_groups index counts (group ∷ later) =
      let rank = cohort_count counts group.cohort + 1 in
      record { ranked = group; group_rank = index + 1; cohort_rank = rank }
      ∷ rank_groups (index + 1) (Keyed.set same_cohort counts group.cohort rank) later

  -- the loop over the members of a group
  unfoldable pub member_records : Group → ℕ → List (ℕ × Scores floats) → List SimilarityRecord
  member_records group index [] = []
  member_records group index ((id, scores) ∷ later) =
      record {
        submission_id = id;
        cohort = group.ranked.cohort;
        group_id = group.ranked.group_id;
        cluster_key = group.ranked.cluster_key;
        representative_submission_id = group.ranked.representative_submission_id;
        group_rank = group.group_rank;
        cohort_rank = group.cohort_rank;
        member_rank = index + 1;
        group_size = group.ranked.size;
        scores = scores;
      }
      ∷ member_records group (index + 1) later

  unfoldable pub all_records : List Group → List SimilarityRecord
  unfolding member_records
  all_records [] = []
  all_records (group ∷ later) =
      member_records group 0 (map (λ m. (m.submission_id, m.scores)) group.ranked.members)
      ++ all_records later

  module _ (texts : Texts) where
    -- `components.map(component => buildRankedGroup(component, pairwiseByKey))`
    unfoldable pub build_ranked_groups :
        Pairs floats
        → List (List Submission)
        → Result (GroupingError floats) (List (RankedGroup floats))
    build_ranked_groups pairs [] = ok []
    build_ranked_groups pairs (component ∷ later) =
        build_ranked_group floats texts pairs component >>= λ group.
        build_ranked_groups pairs later >>= λ groups. ok (group ∷ groups)

    -- the groups of the components, or the model's fuel has run out
    unfoldable pub ranked_components :
        Pairs floats
        → Option (List (List Submission))
        → Result (GroupingError floats) (List (RankedGroup floats))
    unfolding build_ranked_groups
    ranked_components pairs none = err out_of_fuel
    ranked_components pairs (some components) = build_ranked_groups pairs components

    unfoldable pub build_groups : List Submission → Result (GroupingError floats) GroupingResult
    unfolding ranked_components pair_all compare_groups rank_groups all_records
    build_groups submissions =
        let normalized = sort compare_submissions submissions in
        let pairs = pair_all normalized [] in
        ranked_components pairs (compute_connected_components floats normalized pairs) >>= λ ranked.
        let groups = rank_groups 0 [] (sort (compare_groups texts) ranked) in
        ok (record { groups = groups; submissions = all_records groups })
