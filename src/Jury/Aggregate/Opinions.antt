-- ===== src/Jury/Aggregate/Opinions.antt =====
-- From the sealed opinions to the decision of the jury.
use anti_soon.Prelude.{
  ℕ, ◌≤◌, ◌<◌, ◌≡◌, ◌↔◌, refl, sym, ap, ◌∙◌, subst, List, [], ◌∷◌, ok, length, count, All,
}
use anti_soon.Prelude.Sort.{count-sort}
use anti_soon.Jury.Types.{
  Validity, same_validity, RosterSlot, CasePackage, OpinionRecord, OpinionIngest, ConsensusPayload,
  jury_consensus,
}
use anti_soon.Jury.Digest.{Digests}
use anti_soon.Jury.Roster.{effective_slots}
use anti_soon.Jury.Roster.Resolve.{IsRoster, resolve_effective_roster_slots-IsRoster}
use anti_soon.Jury.Ledger.{
  SealedOpinion, by_slot_index, sort_opinion_records, opinion_record, ingest_juror_opinions,
}
use anti_soon.Jury.Ledger.Ingested.{Ingested, ingest_juror_opinions-Ingested}
use anti_soon.Jury.Ledger.Roundtrip.{ingest_juror_opinions-read}
use anti_soon.Jury.Support.Laws.{votes_for, is_vote_for}
use anti_soon.Jury.Aggregate.{derive_trusted_opinion_aggregation}
use anti_soon.Jury.Aggregate.Trusted.{derive_trusted_opinion_aggregation-consensus_iff}

-- The opinions for a validity.
unfoldable pub opinions_for : Validity → List SealedOpinion → ℕ
opinions_for v os = count (λ o. same_validity o.final_validity v) os

module _ (d : Digests) (c : CasePackage) (slots : List RosterSlot) where
  votes_for-Ingested :
      (v : Validity) (os : List SealedOpinion) (rs : List OpinionRecord)
      → Ingested d c slots os rs
      → votes_for v rs ≡ opinions_for v os
  unfolding votes_for opinions_for opinion_record
  votes_for-Ingested v [] [] h = refl
  votes_for-Ingested v [] (r ∷ rs) h = elim h [ ]
  votes_for-Ingested v (o ∷ os) [] h = elim h [ ]
  votes_for-Ingested v (o ∷ os) (r ∷ rs) h =
      let same : is_vote_for v r ≡ same_validity o.final_validity v = ap (is_vote_for v) h.0.2 in
      rw (same, votes_for-Ingested v os rs h.1) refl

  -- When ten timely opinions have been ingested over a committed roster, the aggregation past the
  -- deadline is a consensus on a validity exactly when at least eight of the opinions are for it.
  pub ingest_juror_opinions-consensus_iff :
      (os : List SealedOpinion) (ledger : OpinionIngest) (now : ℕ) (v : Validity)
      → IsRoster c.roster_commitment.slots
      → effective_slots c ≡ ok slots
      → ingest_juror_opinions d c os ≡ ok ledger
      → All (λ o. o.ingest_timestamp_sec ≤ c.jury_deadline_timestamp_sec) os
      → length os ≡ 10
      → 0 < now
      → c.jury_deadline_timestamp_sec ≤ now
      → ((p : ConsensusPayload) × (derive_trusted_opinion_aggregation d c ledger now
            ≡ ok (jury_consensus p))
          × (p.final_validity ≡ v))
        ↔ (8 ≤ opinions_for v os)
  unfolding votes_for sort_opinion_records
  ingest_juror_opinions-consensus_iff os ledger now v committed e h timely size pos late =
      let roster =
        resolve_effective_roster_slots-IsRoster c.roster_commitment.slots
          c.roster_commitment.human_slot_replacements slots committed e in
      let (rs, each, _, same) = ingest_juror_opinions-Ingested d c slots os ledger e h in
      let read =
        ingest_juror_opinions-read d c slots os ledger e h timely (size ∙ sym roster.ten) in
      let votes : votes_for v ledger.records ≡ opinions_for v os =
        ap (λ l. votes_for v l.records) same
        ∙ count-sort by_slot_index (is_vote_for v) rs
        ∙ votes_for-Ingested v os rs each in
      let iff =
        derive_trusted_opinion_aggregation-consensus_iff d c committed ledger now ledger.records v
          pos late read in
      (
        λ found. subst (λ n. 8 ≤ n) votes (iff.0 found),
        λ eight. iff.1 (subst (λ n. 8 ≤ n) (sym votes) eight),
      )
