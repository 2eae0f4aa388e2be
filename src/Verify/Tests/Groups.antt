-- ===== src/Verify/Tests/Groups.antt =====
-- Four submissions, of which two are about the same calls, in fixed-point numbers of thousandths.
use Prim.Native.Nat.{compare, Ordering}
use anti_soon.Prelude.{
  ℕ, ◌+◌, ◌*◌, ◌/◌, ◌≡◌, refl, List, [], ◌∷◌, some, ok, map, ltb, leb, ◌==◌, arith,
}
use anti_soon.Prelude.Template.{template}
use anti_soon.Prelude.Keyed
use anti_soon.Prelude.Sort.{sort}
use anti_soon.Verify.Grouping.Floats.{Floats}
use anti_soon.Verify.Grouping.Similarity.{Submission, pair_key, compute_pairwise_similarity}
use anti_soon.Verify.Grouping.Components.{component_ids, add_neighbor, no_neighbors}
use anti_soon.Verify.Grouping.Components.Adjacency.{ids_of}
use anti_soon.Verify.Grouping.Components.Partition.{IsPartition}
use anti_soon.Verify.Grouping.Components.Exact.{neighbors_in, component_ids-IsPartition}
use anti_soon.Verify.Grouping.Ranked.{Texts}
use anti_soon.Verify.Grouping.Normalize.{TextFunctions, GroupingInput, normalize_submission}
use anti_soon.Verify.Grouping.Build.{GroupingResult, build_groups, pair_all}
use anti_soon.Verify.Grouping.Build.Pairwise.{IsDistinct}
use anti_soon.Verify.Grouping.Build.Grouped.{IsGrouping, build_groups-IsGrouping}
use anti_soon.Verify.Grouping.Build.Uniform.{IsUniform, build_groups-IsUniform}
use anti_soon.Verify.Grouping.PostVerdict.{PostVerdictInput, multi, valid}
use anti_soon.Verify.Grouping.PostVerdict.Made.{Made}

-- the difference of two numbers of thousandths
abbrev fixed : Floats
fixed = record {
  Float = ℕ × ℕ;
  of_nat = λ n. (n * 1000, 0);
  hundredths = λ n. (n * 10, 0);
  plus = λ (a, b) (c, d). (a + c, b + d);
  minus = λ (a, b) (c, d). (a + d, b + c);
  times = λ (a, b) (c, d). (a * c / 1000, 0);
  over = λ (a, b) (c, d). (a * 1000 / c, 0);
  rounded = λ (a, b). ((a + 500) / 1000 * 1000, b);
  is_below = λ (a, b) (c, d). ltb (a + d) (c + b);
  is_at_least = λ (a, b) (c, d). leb (c + b) (a + d);
  is_zero = λ (a, b). a == b;
  sign = λ (a, b). compare a b;
}

abbrev plain_texts : Texts
plain_texts = record {
  key_text = λ k. k.target_contract;
  compare_code_units = λ a b. Ordering.eq;
  compare_locale = λ a b. Ordering.eq;
  group_hash = λ v c k. "0x0123456789abcdef";
}

abbrev plain_functions : TextFunctions
plain_functions = record {
  trim = λ s. s;
  to_lower_case = λ s. s;
  to_upper_case = λ s. s;
  submission_fingerprint = λ v c t i s o. t;
}

abbrev drain : GroupingInput
drain = record {
  submission_id = 7;
  severity = "HIGH";
  target_contract = "0xvault";
  impact_type = "FUNDS";
  summary = "reentrant withdrawal drains vault";
  observed_calldata = "0x12345678aa" ∷ "0xabcdef0012" ∷ [];
}

abbrev drain_again : GroupingInput
drain_again = record drain { submission_id = 3; summary = "withdrawals drained" }

abbrev pause : GroupingInput
pause = record drain { submission_id = 5; observed_calldata = "0x99999999" ∷ [] }

abbrev late_drain : GroupingInput
late_drain = record drain { submission_id = 9; severity = "MEDIUM" }

abbrev inputs : List GroupingInput
inputs = drain ∷ drain_again ∷ pause ∷ late_drain ∷ []

abbrev samples : List Submission
samples = map (normalize_submission plain_functions plain_texts) inputs

samples-IsDistinct : IsDistinct samples
unfolding normalize_submission
samples-IsDistinct = omega arith

two_together :
    component_ids fixed samples (pair_all fixed samples [])
    ≡ some ((3 ∷ 7 ∷ []) ∷ (5 ∷ []) ∷ (9 ∷ []) ∷ [])
unfolding component_ids sort normalize_submission Keyed.get pair_all Keyed.set pair_key
    compute_pairwise_similarity template add_neighbor no_neighbors
two_together = refl

component_ids-IsPartition_example :
    (cs : List (List ℕ)) × (component_ids fixed samples (pair_all fixed samples []) ≡ some cs)
    × IsPartition (neighbors_in fixed samples (pair_all fixed samples [])) (ids_of samples) cs
component_ids-IsPartition_example =
    component_ids-IsPartition fixed samples (pair_all fixed samples [])

build_groups-IsGrouping_example :
    (r : GroupingResult fixed) × (build_groups fixed plain_texts samples ≡ ok r)
    × IsGrouping fixed samples r
build_groups-IsGrouping_example =
    build_groups-IsGrouping fixed plain_texts samples samples-IsDistinct

build_groups-IsUniform_example :
    (r : GroupingResult fixed) × (build_groups fixed plain_texts samples ≡ ok r)
    × IsUniform fixed samples r
build_groups-IsUniform_example = build_groups-IsUniform fixed plain_texts samples samples-IsDistinct

abbrev verdict : PostVerdictInput
verdict = record {
  competition_mode = multi;
  final_validity = valid;
  severity = "HIGH";
  submissions = inputs;
}
