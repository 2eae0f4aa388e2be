-- ===== src/Jury/Ledger/Roundtrip.antt =====
-- From the opinions through the ledger to the votes that are counted.
use anti_soon.Prelude.{
  ◌≡◌, ◌≤◌, refl, sym, ap, ◌∙◌, subst, true, List, ok, ◌==◌, str_eq, length, arith, eq_refl, ==_iff,
  All, All-imp,
}
use anti_soon.Prelude.Sort.{sort-IsSorted, length-sort, All-sort}
use anti_soon.Prelude.Pairwise.{Pairwise, Pairwise-sort, sort-sorted}
use anti_soon.Prelude.Results.{bind_ok, demand_holds}
use anti_soon.Jury.Types.{RosterSlot, CasePackage, OpinionRecord, OpinionIngest}
use anti_soon.Jury.Digest.{Digests}
use anti_soon.Jury.Roster.{effective_slots}
use anti_soon.Jury.Ledger.{
  SealedOpinion, by_slot_index, sort_opinion_records, derive_scope_key, ingest_juror_opinions,
}
use anti_soon.Jury.Ledger.Ingested.{HasOtherKey, ledger_of, ingest_juror_opinions-Ingested}
use anti_soon.Jury.Ledger.Read.{nothing_read, check_records, assert_read_consistency}
use anti_soon.Jury.Ledger.Read.Votes.{IsVote, by_slot_index-IsComparator}
use anti_soon.Jury.Ledger.Read.Complete.{IsFresh, check_records-ok, Ingested-votes}

module _ (d : Digests) (c : CasePackage) (slots : List RosterSlot) where
  IsFresh-at_first : (r : OpinionRecord) → IsFresh d c slots nothing_read r
  unfolding IsFresh
  IsFresh-at_first r = (refl, refl)

  read-ledger_of :
      (rs : List OpinionRecord)
      → effective_slots c ≡ ok slots
      → All (IsVote d c slots) rs
      → Pairwise HasOtherKey rs
      → length rs ≡ length slots
      → assert_read_consistency d c (ledger_of d c slots rs) ≡ ok (sort_opinion_records rs)
  unfolding assert_read_consistency sort_opinion_records
  read-ledger_of rs e votes other size =
      let sorted = sort_opinion_records rs in
      let again : sort_opinion_records sorted ≡ sorted =
        sort-sorted by_slot_index sorted (sort-IsSorted by_slot_index-IsComparator rs) in
      let all = All-sort by_slot_index (IsVote d c slots) rs votes in
      let (st, read) =
        check_records-ok d c slots nothing_read sorted all
          (All-imp (λ r _. IsFresh-at_first r) sorted all)
          (Pairwise-sort HasOtherKey by_slot_index (λ x y n q. n (sym q)) rs other) in
      let loop : check_records d c (derive_scope_key d c) slots nothing_read
            (sort_opinion_records sorted)
          ≡ ok st =
        ap (check_records d c (derive_scope_key d c) slots nothing_read) again ∙ read.result in
      let full : (length st.seen_slot_indices == length slots) ≡ true =
        (==_iff _ _).1 (read.seen ∙ omega (arith, length-sort by_slot_index rs, size)) in
      bind_ok _ e
      ∙ demand_holds {c = length sorted == length sorted} _ _ ((==_iff _ _).1 refl)
      ∙ demand_holds {c = c.submission_id == c.submission_id} _ _ ((==_iff _ _).1 refl)
      ∙ demand_holds {c = c.project_id == c.project_id} _ _ ((==_iff _ _).1 refl)
      ∙ demand_holds {c = c.jury_round_id == c.jury_round_id} _ _ ((==_iff _ _).1 refl)
      ∙ demand_holds {c = str_eq (derive_scope_key d c) (derive_scope_key d c)} _ _ (eq_refl _)
      ∙ bind_ok _ loop
      ∙ demand_holds {c = length st.seen_slot_indices == length slots} _ _ full
      ∙ ap ok read.validated

  -- A ledger that was written from timely opinions, as many as the effective roster has slots,
  -- passes the checks of a read, which gives back its records.
  pub ingest_juror_opinions-read :
      (os : List SealedOpinion) (ledger : OpinionIngest)
      → effective_slots c ≡ ok slots
      → ingest_juror_opinions d c os ≡ ok ledger
      → All (λ o. o.ingest_timestamp_sec ≤ c.jury_deadline_timestamp_sec) os
      → length os ≡ length slots
      → assert_read_consistency d c ledger ≡ ok ledger.records
  ingest_juror_opinions-read os ledger e h timely size =
      let (rs, each, other, same) = ingest_juror_opinions-Ingested d c slots os ledger e h in
      let (votes, n) = Ingested-votes d c slots os rs each timely in
      subst (λ x. assert_read_consistency d c x ≡ ok x.records) (sym same)
        (read-ledger_of rs e votes other (n ∙ size))
