-- ===== src/Verify/Grouping/Ranked.antt =====
-- `buildRankedGroup` of workflow/verify-poc/src/multiGrouping.ts: what a component becomes.
use Prim.Native.Nat.{Ordering}
use mathlib.Core.List.{foldl}
use anti_soon.Prelude.{
  ℕ, zero, suc, String, List, [], ◌∷◌, none, some, ◌==◌, if◌then◌else◌, length, map, keep, Result,
  ok, err,
}
use anti_soon.Prelude.Set.{contains_text}
use anti_soon.Prelude.Sort.{sort}
use anti_soon.Prelude.Keyed
use anti_soon.Prelude.Template.{template}
use anti_soon.Verify.Grouping.Floats.{Floats}
use anti_soon.Verify.Grouping.Similarity.{
  Cohort, high, medium, other, Submission, pair_key, round_similarity,
}
use anti_soon.Verify.Grouping.Components.{Pairs, same_pair, compare_submission_ids}

unfoldable pub cohort_text : Cohort → String
cohort_text high = "HIGH"
cohort_text medium = "MEDIUM"
cohort_text other = "OTHER"

-- `cohort.toLowerCase()`
unfoldable pub lower_cohort : Cohort → String
lower_cohort high = "high"
lower_cohort medium = "medium"
lower_cohort other = "other"

-- What `JSON.stringify` is given.
pub record ClusterKey : Type 0 where
  pub cohort : Cohort
  pub target_contract : String
  pub impact_type : String
  pub member_fingerprints : List String

-- The texts of the language, and the encoding and the hash of viem.
pub record Texts : Type 0 where
  pub key_text : ClusterKey → String
  -- the order of `.sort()` on texts, and that of `localeCompare`
  pub compare_code_units : String → String → Ordering
  pub compare_locale : String → String → Ordering
  -- `keccak256(encodeAbiParameters(groupIdParams, ...))`
  pub group_hash : (version cohort cluster_key : String) → String

abbrev pub multi_grouping_version : String
multi_grouping_version = "anti-soon.verify-poc.multi-grouping.v1"

-- `text.slice(from, from + count)`
unfoldable pub slice_text : ℕ → ℕ → String → String
slice_text from n String.[] = ""
slice_text zero zero (String.◌∷◌ c s) = ""
slice_text zero (suc n) (String.◌∷◌ c s) = String.◌∷◌ c (slice_text zero n s)
slice_text (suc from) n (String.◌∷◌ c s) = slice_text from n s

unfoldable pub intersect_sorted : List String → List String → List String
intersect_sorted left right = keep (λ item. contains_text item right) left

-- the items of the first list that are in all others
unfoldable pub shared : List (List String) → List String
unfolding intersect_sorted
shared [] = []
shared (first ∷ later) = foldl intersect_sorted first later

module _ (floats : Floats) where
  open floats use {Float, of_nat, plus, minus, over, sign}

  pub record Scores : Type 0 where
    pub similarity_score : Float
    pub selector_similarity : Float
    pub text_similarity : Float

  abbrev pub all_scores : Float → Scores
  all_scores x = record { similarity_score = x; selector_similarity = x; text_similarity = x }

  -- of a member and a peer
  unfoldable pub pair_scores : Pairs floats → ℕ → ℕ → Scores
  pair_scores pairs member peer =
      if peer == member
      then all_scores (of_nat 1)
      else elim (Keyed.get same_pair pairs (pair_key member peer)) [
        | none ↦ all_scores (of_nat 0)
        | some p ↦ record {
          similarity_score = p.similarity_score;
          selector_similarity = p.selector_similarity;
          text_similarity = p.text_similarity;
        }
      ]

  unfoldable pub average : List Float → Float
  average values =
      if length values == 0
      then of_nat 0
      else over (foldl plus (of_nat 0) values) (of_nat (length values))

  unfoldable pub member_scores : Pairs floats → List Submission → Submission → Scores
  unfolding pair_scores average round_similarity
  member_scores pairs members member =
      let scores =
        map (λ (peer : Submission). pair_scores pairs member.submission_id peer.submission_id)
          members in
      record {
        similarity_score = round_similarity floats (average (map (λ s. s.similarity_score) scores));
        selector_similarity =
            round_similarity floats (average (map (λ s. s.selector_similarity) scores));
        text_similarity = round_similarity floats (average (map (λ s. s.text_similarity) scores));
      }

  -- `similarityByMember`
  unfoldable pub similarity_by_member : Pairs floats → List Submission → List (ℕ × Scores)
  unfolding member_scores
  similarity_by_member pairs members =
      foldl (λ m member. Keyed.set ◌==◌ m member.submission_id (member_scores pairs members member))
        [] members

  -- `similarityByMember.get(id)?.field ?? otherwise`
  unfoldable pub score_at : (Scores → Float) → List (ℕ × Scores) → ℕ → Float → Float
  score_at field by_member id otherwise = elim (Keyed.get ◌==◌ by_member id) [
    | none ↦ otherwise
    | some s ↦ field s
  ]

  unfoldable pub compare_members : List (ℕ × Scores) → Submission → Submission → Ordering
  unfolding score_at
  compare_members by_member left right =
      let score = λ (s : Submission).
        score_at (λ x. x.similarity_score) by_member s.submission_id (of_nat 0) in
      elim (sign (minus (score right) (score left))) [
        | Ordering.eq ↦ compare_submission_ids left.submission_id right.submission_id
        | Ordering.lt ↦ Ordering.lt
        | Ordering.gt ↦ Ordering.gt
      ]

  pub record Member : Type 0 where
    pub submission_id : ℕ
    pub scores : Scores

  pub record RankedGroup : Type 0 where
    pub group_id : String
    pub cohort : Cohort
    pub cluster_key : String
    pub size : ℕ
    pub representative_submission_id : ℕ
    pub member_submission_ids : List ℕ
    pub shared_selectors : List String
    pub shared_summary_tokens : List String
    pub average_similarity_score : Float
    pub members : List Member

  pub data GroupingError : Type 0 where
    -- a component of no members has no representative: the code throws a TypeError
    no_representative : GroupingError
    -- the model's fuel, which `build_groups-IsGrouping` shows to be enough
    out_of_fuel : GroupingError

  module _ (texts : Texts) (pairs : Pairs floats) where
    unfoldable pub cluster_key_of : List Submission → Submission → String
    cluster_key_of members representative = texts.key_text (record {
      cohort = representative.cohort;
      target_contract = representative.target_contract;
      impact_type = representative.impact_type;
      member_fingerprints =
          sort texts.compare_code_units (map (λ m. m.cluster_fingerprint) members);
    })

    unfoldable pub group_id_of : Cohort → String → String
    unfolding slice_text cohort_text lower_cohort
    group_id_of cohort cluster_key = template (
        "multi-"
        ∷ lower_cohort cohort
        ∷ "-"
        ∷ slice_text 2 10 (texts.group_hash multi_grouping_version (cohort_text cohort) cluster_key)
        ∷ [])

    unfoldable pub ranked_member : List (ℕ × Scores) → Submission → Submission → Member
    unfolding score_at
    ranked_member by_member representative m =
        let of_representative =
          score_at (λ x. x.similarity_score) by_member representative.submission_id (of_nat 0) in
        let id = m.submission_id in
        record {
          submission_id = id;
          scores = record {
            similarity_score = score_at (λ x. x.similarity_score) by_member id of_representative;
            selector_similarity = score_at (λ x. x.selector_similarity) by_member id (of_nat 0);
            text_similarity = score_at (λ x. x.text_similarity) by_member id (of_nat 0);
          };
        }

    -- the group of the sorted members
    unfoldable pub ranked_from :
        List Submission → List (ℕ × Scores) → List Submission → Result GroupingError RankedGroup
    unfolding cluster_key_of group_id_of ranked_member shared average round_similarity
    ranked_from members by_member [] = err no_representative
    ranked_from members by_member (representative ∷ later) =
        let sorted = representative ∷ later in
        let cluster_key = cluster_key_of members representative in
        ok (record {
          group_id = group_id_of representative.cohort cluster_key;
          cohort = representative.cohort;
          cluster_key = cluster_key;
          size = length sorted;
          representative_submission_id = representative.submission_id;
          member_submission_ids = map (λ m. m.submission_id) sorted;
          shared_selectors = shared (map (λ m. m.observed_selectors) sorted);
          shared_summary_tokens = shared (map (λ m. m.summary_tokens) sorted);
          average_similarity_score =
              round_similarity floats (average (map (λ (_, s). s.similarity_score) by_member));
          members = map (ranked_member by_member representative) sorted;
        })

    unfoldable pub build_ranked_group : List Submission → Result GroupingError RankedGroup
    unfolding ranked_from similarity_by_member compare_members
    build_ranked_group members =
        let by_member = similarity_by_member pairs members in
        ranked_from members by_member (sort (compare_members by_member) members)
