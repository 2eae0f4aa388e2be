-- ===== src/Jury/Aggregate/Trusted.antt =====
-- The aggregation of a consistent read of the ledger.
use anti_soon.Prelude.{ℕ, ◌≤◌, ◌<◌, ◌≡◌, ◌↔◌, sym, ◌∙◌, subst, List, ok, length, arith}
use anti_soon.Prelude.Results.{bind_parts, bind_ok}
use anti_soon.Jury.Types.{
  Validity, CasePackage, OpinionRecord, OpinionIngest, ConsensusPayload, jury_consensus,
}
use anti_soon.Jury.Digest.{Digests}
use anti_soon.Jury.Roster.Resolve.{IsRoster, resolve_effective_roster_slots-IsRoster}
use anti_soon.Jury.Ledger.Read.{assert_read_consistency}
use anti_soon.Jury.Ledger.Read.Votes.{IsConsistent, assert_read_consistency-IsConsistent}
use anti_soon.Jury.Support.Laws.{votes_for, cohort_votes_for-sum}
use anti_soon.Jury.Aggregate.{aggregate_opinion_records, derive_trusted_opinion_aggregation}
use anti_soon.Jury.Aggregate.Laws.{
  winner_iff, aggregate_opinion_records-winner, aggregate_opinion_records-consensus_iff,
}
use anti_soon.Jury.Aggregate.Seats.{
  IsSound, consistent-seats, cohort_votes_for-seats, payload-IsSound,
}

module _ (d : Digests) (c : CasePackage) (committed : IsRoster c.roster_commitment.slots) where
  consistent-ten :
      (ingest : OpinionIngest) (records : List OpinionRecord)
      → IsConsistent d c ingest records
      → length records ≡ 10
  consistent-ten ingest records h =
      h.complete
      ∙ (resolve_effective_roster_slots-IsRoster c.roster_commitment.slots
          c.roster_commitment.human_slot_replacements h.slots committed h.effective).ten

  -- Over a committed roster, a consensus that is derived from a read of the ledger meets every
  -- condition that the parser of a consensus has on its counts: eight votes, at least three of each
  -- cohort, and as many keys and digests as votes.
  pub derive_trusted_opinion_aggregation-IsSound :
      (ingest : OpinionIngest) (now : ℕ) (p : ConsensusPayload)
      → derive_trusted_opinion_aggregation d c ingest now ≡ ok (jury_consensus p)
      → IsSound p
  unfolding derive_trusted_opinion_aggregation
  derive_trusted_opinion_aggregation-IsSound ingest now p h =
      let (records, read, k) = bind_parts (assert_read_consistency d c ingest) _ h in
      let consistent = assert_read_consistency-IsConsistent d c ingest records read in
      let (l, m) = consistent-seats d c committed ingest records consistent in
      let (v, win, same) = aggregate_opinion_records-winner d c now records p k in
      let few = consistent-ten ingest records consistent in
      let eight = ((winner_iff records (omega (arith, few)) v).0 win).0 in
      subst IsSound (sym same) (payload-IsSound d c committed now records v eight l m)

  -- Over a committed roster, once a read past the deadline is consistent, eight votes for a
  -- validity are all that a consensus on it takes: three of each cohort are then among them.
  pub derive_trusted_opinion_aggregation-consensus_iff :
      (ingest : OpinionIngest) (now : ℕ) (records : List OpinionRecord) (v : Validity)
      → 0 < now
      → c.jury_deadline_timestamp_sec ≤ now
      → assert_read_consistency d c ingest ≡ ok records
      → ((p : ConsensusPayload) × (derive_trusted_opinion_aggregation d c ingest now
            ≡ ok (jury_consensus p))
          × (p.final_validity ≡ v))
        ↔ (8 ≤ votes_for v records)
  unfolding derive_trusted_opinion_aggregation
  derive_trusted_opinion_aggregation-consensus_iff ingest now records v pos late read =
      let consistent = assert_read_consistency-IsConsistent d c ingest records read in
      let (l, m) = consistent-seats d c committed ingest records consistent in
      let ten = consistent-ten ingest records consistent in
      let seats = cohort_votes_for-seats v records in
      let sum = cohort_votes_for-sum v records in
      let iff =
        aggregate_opinion_records-consensus_iff d c now records v pos (omega (arith, ten))
          (omega (arith, ten)) late in
      let same = bind_ok (aggregate_opinion_records d c now) read in
      (
        λ found. (iff.0 (found.0, sym same ∙ found.1, found.2)).0,
        λ eight.
            let (p, e, q) = iff.1 (
              eight,
              omega (arith, sum, seats.1, m, eight),
              omega (arith, sum, seats.0, l, eight),
            ) in
            (p, same ∙ e, q),
      )
