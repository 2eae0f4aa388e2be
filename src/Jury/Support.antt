-- ===== src/Jury/Support.antt =====
-- The support of the three validities in main.ts: the buckets that the votes are counted into, which
-- validity qualifies for a consensus, and which one leads.
pub mod Laws
use anti_soon.Prelude.{
  ℕ, ◌+◌, Bool, ◌&&◌, Option, none, some, List, [], ◌∷◌, ◌++◌, ltb, leb, take, if◌then◌else◌,
}
use anti_soon.Jury.Types.{Cohort, llm, human, Validity, high, medium, invalid, OpinionRecord}
use anti_soon.Jury.Ledger.{sort_opinion_records}

abbrev pub required_consensus_count : ℕ
required_consensus_count = 8

abbrev pub required_cohort_count : ℕ
required_cohort_count = 3

-- `TargetStateOpinionSupportBucket`
pub record Bucket : Type 0 where
  pub total : ℕ
  pub llm_votes : ℕ
  pub human_votes : ℕ
  pub records : List OpinionRecord

abbrev pub empty_bucket : Bucket
empty_bucket = record { total = 0; llm_votes = 0; human_votes = 0; records = [] }

-- `bucket.total += 1`, `bucket[record.cohort] += 1`, `bucket.records.push(record)`
abbrev pub count_vote : Bucket → OpinionRecord → Cohort → Bucket
count_vote b r llm = record b {
  total = b.total + 1;
  llm_votes = b.llm_votes + 1;
  records = b.records ++ r ∷ [];
}
count_vote b r human = record b {
  total = b.total + 1;
  human_votes = b.human_votes + 1;
  records = b.records ++ r ∷ [];
}

pub record Support : Type 0 where
  pub for_high : Bucket
  pub for_medium : Bucket
  pub for_invalid : Bucket

-- `support[validity]`
abbrev pub bucket_of : Support → Validity → Bucket
bucket_of s high = s.for_high
bucket_of s medium = s.for_medium
bucket_of s invalid = s.for_invalid

abbrev pub no_support : Support
no_support = record {
  for_high = empty_bucket;
  for_medium = empty_bucket;
  for_invalid = empty_bucket;
}

abbrev pub support_record : Support → OpinionRecord → Validity → Support
support_record s r high = record s { for_high = count_vote s.for_high r r.cohort }
support_record s r medium = record s { for_medium = count_vote s.for_medium r r.cohort }
support_record s r invalid = record s { for_invalid = count_vote s.for_invalid r r.cohort }

unfoldable pub support_from : Support → List OpinionRecord → Support
support_from s [] = s
support_from s (r ∷ rs) = support_from (support_record s r r.final_validity) rs

unfoldable pub summarize_opinion_support : List OpinionRecord → Support
unfolding support_from
summarize_opinion_support records = support_from no_support (sort_opinion_records records)

abbrev pub qualifies : Bucket → Bool
qualifies b =
    leb required_consensus_count b.total
    && leb required_cohort_count b.llm_votes
    && leb required_cohort_count b.human_votes

-- The first of the validities that qualifies.
unfoldable pub winner : Support → Option Validity
winner s =
    if qualifies s.for_high
    then some high
    else if qualifies s.for_medium
    then some medium
    else if qualifies s.for_invalid
    then some invalid
    else none

-- `leadingFinalValidity`
unfoldable pub leading_final_validity : Support → Option Validity
leading_final_validity s =
    if ltb s.for_medium.total s.for_high.total && ltb s.for_invalid.total s.for_high.total
    then some high
    else if ltb s.for_high.total s.for_medium.total && ltb s.for_invalid.total s.for_medium.total
    then some medium
    else if ltb s.for_high.total s.for_invalid.total && ltb s.for_medium.total s.for_invalid.total
    then some invalid
    else none

abbrev pub leading_bucket : Support → Option Validity → Bucket
leading_bucket s none = empty_bucket
leading_bucket s (some v) = bucket_of s v

unfoldable pub select_consensus_support : List OpinionRecord → List OpinionRecord
select_consensus_support records = take required_consensus_count (sort_opinion_records records)
