-- ===== src/Jury/Tests/Rounds.antt =====
-- A round of the jury: a replacement, ten opinions, the read of the ledger and the decision.
use anti_soon.Prelude.{◌≤◌, ◌<◌, ◌≡◌, ◌↔◌, ◌∙◌, refl, List, [], ok, arith, All, length}
use anti_soon.Prelude.Results.{ok_or, bind_ok}
use anti_soon.Prelude.Map.{has, get, set, values}
use anti_soon.Prelude.Pairwise.{Pairwise}
use anti_soon.Prelude.Sort.{sort}
use anti_soon.Jury.Types.{high, OpinionRecord, OpinionIngest, ConsensusPayload, jury_consensus}
use anti_soon.Jury.Roster.{
  resolve_effective_roster_slots, apply_replacement, assert_roster_slot_authorized,
}
use anti_soon.Jury.Ledger.{
  ingest_juror_opinions, opinion_record, derive_record_key, derive_scope_key, sort_opinion_records,
}
use anti_soon.Prelude.Decimal.{to_string}
use anti_soon.Jury.Ledger.Ingested.{
  HasOtherKey, Ingested, ledger_of, ingest_juror_opinions-Ingested,
}
use anti_soon.Jury.Ledger.Read.Votes.{IsConsistent, assert_read_consistency-IsConsistent}
use anti_soon.Jury.Support.{summarize_opinion_support}
use anti_soon.Jury.Support.Laws.{votes_for, cohort_votes_for}
use anti_soon.Jury.Aggregate.{
  consensus_payload, aggregate_opinion_records, derive_trusted_opinion_aggregation,
}
use anti_soon.Jury.Aggregate.Laws.{
  HasConsensus, aggregate_opinion_records-consensus, aggregate_opinion_records-consensus_iff,
}
use anti_soon.Jury.Aggregate.Seats.{IsSound}
use anti_soon.Jury.Aggregate.Trusted.{derive_trusted_opinion_aggregation-IsSound}
use anti_soon.Jury.Aggregate.Opinions.{opinions_for, ingest_juror_opinions-consensus_iff}
use anti_soon.Jury.Ledger.Read.{assert_read_consistency}
use anti_soon.Jury.Ledger.Roundtrip.{ingest_juror_opinions-read}
use anti_soon.Jury.Tests.Fixtures.{
  show, written_out, some_case, slots_in_effect, ten_opinions, some_case-effective,
  committed_slots-IsRoster,
}

abbrev empty_ledger : OpinionIngest
empty_ledger = ledger_of written_out some_case slots_in_effect []

abbrev round_ledger : OpinionIngest
round_ledger = ok_or (ingest_juror_opinions written_out some_case ten_opinions) empty_ledger

round_ledger-ingested : ingest_juror_opinions written_out some_case ten_opinions ≡ ok round_ledger
unfolding ingest_juror_opinions assert_roster_slot_authorized resolve_effective_roster_slots
    apply_replacement has get set derive_record_key written_out show derive_scope_key to_string
round_ledger-ingested = refl

opinions-timely : All (λ o. o.ingest_timestamp_sec ≤ 100) ten_opinions
opinions-timely = ground arith

ingest_juror_opinions-read_example :
    assert_read_consistency written_out some_case round_ledger ≡ ok round_ledger.records
ingest_juror_opinions-read_example =
    ingest_juror_opinions-read written_out some_case slots_in_effect ten_opinions round_ledger
      some_case-effective round_ledger-ingested opinions-timely refl

ingest_juror_opinions-Ingested_example :
    (rs : List OpinionRecord) × Ingested written_out some_case slots_in_effect ten_opinions rs
    × Pairwise HasOtherKey rs
    × (round_ledger ≡ ledger_of written_out some_case slots_in_effect rs)
ingest_juror_opinions-Ingested_example =
    ingest_juror_opinions-Ingested written_out some_case slots_in_effect ten_opinions round_ledger
      some_case-effective round_ledger-ingested

round_ledger-read :
    assert_read_consistency written_out some_case round_ledger ≡ ok round_ledger.records
round_ledger-read =
    ingest_juror_opinions-read written_out some_case slots_in_effect ten_opinions round_ledger
      some_case-effective round_ledger-ingested opinions-timely refl

assert_read_consistency-IsConsistent_example :
    IsConsistent written_out some_case round_ledger round_ledger.records
assert_read_consistency-IsConsistent_example =
    assert_read_consistency-IsConsistent written_out some_case round_ledger round_ledger.records
      round_ledger-read

ingest_juror_opinions-consensus_iff_example :
    ((p : ConsensusPayload) × (derive_trusted_opinion_aggregation written_out some_case round_ledger
          150
        ≡ ok (jury_consensus p))
      × (p.final_validity ≡ high))
    ↔ (8 ≤ opinions_for high ten_opinions)
ingest_juror_opinions-consensus_iff_example =
    ingest_juror_opinions-consensus_iff written_out some_case slots_in_effect ten_opinions
      round_ledger 150 high committed_slots-IsRoster some_case-effective round_ledger-ingested
      opinions-timely refl (omega arith) (omega arith)

round_ledger-size : (0 < length round_ledger.records) × (length round_ledger.records ≤ 15)
unfolding ingest_juror_opinions sort_opinion_records assert_roster_slot_authorized
    resolve_effective_roster_slots apply_replacement has get set derive_record_key written_out show
    derive_scope_key to_string sort values opinion_record
round_ledger-size = (omega arith, omega arith)

round_ledger-eight : HasConsensus high round_ledger.records
unfolding ingest_juror_opinions sort_opinion_records assert_roster_slot_authorized
    resolve_effective_roster_slots apply_replacement has get set derive_record_key written_out show
    derive_scope_key to_string sort values opinion_record votes_for cohort_votes_for
round_ledger-eight = (omega arith, omega arith, omega arith)

abbrev round_consensus : ConsensusPayload
round_consensus =
    consensus_payload written_out some_case 150 (summarize_opinion_support round_ledger.records)
      high

round_ledger-consensus :
    derive_trusted_opinion_aggregation written_out some_case round_ledger 150
    ≡ ok (jury_consensus round_consensus)
unfolding derive_trusted_opinion_aggregation
round_ledger-consensus =
    bind_ok (aggregate_opinion_records written_out some_case 150) round_ledger-read
    ∙ aggregate_opinion_records-consensus written_out some_case 150 round_ledger.records high
        (omega arith) round_ledger-size.0 round_ledger-size.1 (omega arith) round_ledger-eight

derive_trusted_opinion_aggregation-IsSound_example : IsSound round_consensus
derive_trusted_opinion_aggregation-IsSound_example =
    derive_trusted_opinion_aggregation-IsSound written_out some_case committed_slots-IsRoster
      round_ledger 150 round_consensus round_ledger-consensus

aggregate_opinion_records-consensus_iff_example :
    ((p : ConsensusPayload) × (aggregate_opinion_records written_out some_case 150
          round_ledger.records
        ≡ ok (jury_consensus p))
      × (p.final_validity ≡ high))
    ↔ HasConsensus high round_ledger.records
aggregate_opinion_records-consensus_iff_example =
    aggregate_opinion_records-consensus_iff written_out some_case 150 round_ledger.records high
      (omega arith) round_ledger-size.0 round_ledger-size.1 (omega arith)
