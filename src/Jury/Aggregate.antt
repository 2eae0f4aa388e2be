-- ===== src/Jury/Aggregate.antt =====
-- `aggregateTargetStateOpinionRecords` and `deriveTrustedOpinionAggregationEnvelope` of main.ts: the
-- votes of the jury make a consensus or go to the owner. What the two builders of the result add, its
-- report type and `magic`, is fixed and is left out.
pub mod Laws
pub mod Seats
pub mod Trusted
pub mod Opinions
use anti_soon.Prelude.{
  ℕ, ◌+◌, ◌-◌, String, Bool, true, false, not, ◌&&◌, ◌||◌, Option, none, some, List, [], ◌∷◌, ◌++◌,
  Result, ok, err, ltb, leb, length, map, take, count, if◌then◌else◌,
}
use anti_soon.Prelude.Template.{template}
use anti_soon.Prelude.Decimal.{to_string}
use anti_soon.Prelude.Results.{◌>>=◌, ◌>>◌, demand}
use anti_soon.Jury.Types.{
  Cohort, llm, human, Validity, high, medium, invalid, same_cohort, CasePackage, OpinionRecord,
  OpinionIngest, JuryError, no_records, not_positive, before_deadline, ConsensusPayload,
  HandoffPayload, Aggregation, jury_consensus, owner_handoff,
}
use anti_soon.Jury.Digest.{Digests}
use anti_soon.Jury.Ledger.{derive_scope_key}
use anti_soon.Jury.Support.{
  required_consensus_count, required_cohort_count, Bucket, Support, bucket_of, leading_bucket,
  summarize_opinion_support, winner, leading_final_validity, select_consensus_support,
}
use anti_soon.Jury.Ledger.Read.{assert_read_consistency}

abbrev pub validity_text : Validity → String
validity_text high = "HIGH"
validity_text medium = "MEDIUM"
validity_text invalid = "INVALID"

unfoldable pub format_opinion_support : Validity → Bucket → String
format_opinion_support v b = template (
    validity_text v
    ∷ "="
    ∷ to_string b.total
    ∷ " (LLM="
    ∷ to_string b.llm_votes
    ∷ ", HUMAN="
    ∷ to_string b.human_votes
    ∷ ")"
    ∷ [])

-- The end of every rationale and reason, from `Counts: ` on.
unfoldable pub counts_text : Support → String
unfolding format_opinion_support
counts_text s = template (
    " Counts: "
    ∷ format_opinion_support high s.for_high
    ∷ ", "
    ∷ format_opinion_support medium s.for_medium
    ∷ ", "
    ∷ format_opinion_support invalid s.for_invalid
    ∷ "."
    ∷ [])

unfoldable pub handoff_reason : Support → Option Validity → Bucket → String
unfolding counts_text
handoff_reason s none b = template (
    "Owner review required because jury aggregation ended without a deterministic leader."
    ∷ counts_text s
    ∷ [])
handoff_reason s (some v) b =
    if leb required_consensus_count b.total
      && (ltb b.llm_votes required_cohort_count || ltb b.human_votes required_cohort_count)
    then template (
        "Owner review required because 8/10 support for "
        ∷ validity_text v
        ∷ " did not satisfy the three-per-cohort minimum."
        ∷ counts_text s
        ∷ [])
    else template (
        "Owner review required because "
        ∷ validity_text v
        ∷ " reached only "
        ∷ to_string b.total
        ∷ "/10 votes instead of the required 8/10."
        ∷ counts_text s
        ∷ [])

module _ (d : Digests) (c : CasePackage) where
  unfoldable pub consensus_payload : ℕ → Support → Validity → ConsensusPayload
  consensus_payload now s v =
      let records = select_consensus_support (bucket_of s v).records in
      let llm_count = count (λ r. same_cohort r.cohort llm) records in
      record {
        submission_id = c.submission_id;
        project_id = c.project_id;
        jury_round_id = c.jury_round_id;
        final_validity = v;
        aggregated_at_timestamp_sec = now;
        jury_deadline_timestamp_sec = c.jury_deadline_timestamp_sec;
        adjudication_deadline_timestamp_sec = c.adjudication_deadline_timestamp_sec;
        scope_key = derive_scope_key d c;
        consensus_vote_count = length records;
        llm_agreeing_vote_count = llm_count;
        human_agreeing_vote_count = length records - llm_count;
        supporting_opinion_record_keys = map (λ r. r.record_key) records;
        supporting_rationale_digests = map (λ r. r.rationale_digest) records;
        supporting_testimony_digests = map (λ r. r.testimony_digest) records;
        rationale = template (
            "Jury reached the 8/10 + 3-per-cohort consensus threshold for "
            ∷ validity_text v
            ∷ "."
            ∷ counts_text s
            ∷ []);
      }

  unfoldable pub handoff_payload : ℕ → Support → List OpinionRecord → HandoffPayload
  handoff_payload now s records =
      let leading = leading_final_validity s in
      let bucket = leading_bucket s leading in
      record {
        submission_id = c.submission_id;
        project_id = c.project_id;
        jury_round_id = c.jury_round_id;
        aggregated_at_timestamp_sec = now;
        jury_deadline_timestamp_sec = c.jury_deadline_timestamp_sec;
        adjudication_deadline_timestamp_sec = c.adjudication_deadline_timestamp_sec;
        scope_key = derive_scope_key d c;
        received_vote_count = length records;
        required_consensus_count = required_consensus_count;
        required_cohort_count = required_cohort_count;
        leading_final_validity = leading;
        leading_vote_count = bucket.total;
        leading_llm_vote_count = bucket.llm_votes;
        leading_human_vote_count = bucket.human_votes;
        supporting_opinion_record_keys = map (λ r. r.record_key) bucket.records;
        supporting_rationale_digests = map (λ r. r.rationale_digest) bucket.records;
        supporting_testimony_digests = map (λ r. r.testimony_digest) bucket.records;
        reason = handoff_reason s leading bucket;
      }

  -- The consensus of the winner, or the handoff when nothing qualifies.
  decide : ℕ → Support → List OpinionRecord → Option Validity → Aggregation
  decide now s records none = owner_handoff (handoff_payload now s records)
  decide now s records (some v) = jury_consensus (consensus_payload now s v)

  unfoldable pub aggregate_opinion_records : ℕ → List OpinionRecord → Result JuryError Aggregation
  unfolding decide
  aggregate_opinion_records now records = do
    demand (ltb 0 now) (not_positive "currentTimestampSec")
    demand (ltb 0 (length records)) no_records
    demand (leb c.jury_deadline_timestamp_sec now)
        (before_deadline now c.jury_deadline_timestamp_sec)
    let s = summarize_opinion_support records
    ok (decide now s records (winner s))

  unfoldable pub derive_trusted_opinion_aggregation :
      OpinionIngest → ℕ → Result JuryError Aggregation
  derive_trusted_opinion_aggregation ingest now =
      assert_read_consistency d c ingest >>= λ records. aggregate_opinion_records now records
