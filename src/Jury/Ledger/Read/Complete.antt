-- ===== src/Jury/Ledger/Read/Complete.antt =====
-- A ledger that `ingestJurorOpinions` has written passes the checks of a read.
use anti_soon.Prelude.{
  suc, ◌+◌, ◌≡◌, ◌≢◌, ◌≤◌, refl, sym, ap, ◌∙◌, subst, true, false, not, ◌||◌, some, List, [], ◌∷◌,
  ◌++◌, ok, str_eq, leb, length, arith, eq_iff, ==_iff, both_hold, All, All-zip,
}
use mathlib.Core.List.{append_assoc, append-nil}
use anti_soon.Prelude.Set.{contains, contains_text}
use anti_soon.Prelude.Pairwise.{Pairwise}
use anti_soon.Prelude.Results.{bind_ok, demand_holds}
use anti_soon.Jury.Types.{Cohort, llm, human, same_cohort, RosterSlot, CasePackage, OpinionRecord}
use anti_soon.Jury.Digest.{Digests}
use anti_soon.Jury.Roster.{slot_at}
use anti_soon.Jury.Reissue.Laws.{slot_at-slot_index}
use anti_soon.Jury.Ledger.{
  SealedOpinion, derive_scope_key, derive_record_key, derive_slot_id, opinion_record,
}
use anti_soon.Jury.Ledger.Ingested.{HasOtherKey, Ingested}
use anti_soon.Jury.Ledger.Read.{ReadState, matches_slot, check_record, check_records}
use anti_soon.Jury.Ledger.Read.Votes.{IsHeldBy, IsVote}

same_cohort_refl : (k : Cohort) → same_cohort k k ≡ true
same_cohort_refl llm = refl
same_cohort_refl human = refl

matches_slot-held :
    (slot : RosterSlot) (r : OpinionRecord) → IsHeldBy r slot → matches_slot (some slot) r ≡ true
unfolding matches_slot
matches_slot-held slot r h =
    both_hold
      (both_hold (rw (h.same_cohort) (same_cohort_refl r.cohort))
        ((==_iff _ _).1 h.same_cohort_slot))
      ((eq_iff _ _).1 h.same_juror)

module _ (d : Digests) (c : CasePackage) (slots : List RosterSlot) where
  -- The record is not yet among those that were read.
  unfoldable pub IsFresh : ReadState → OpinionRecord → Type 0
  IsFresh st r =
      (contains_text r.record_key st.seen_record_keys ≡ false)
      × (contains r.slot_index st.seen_slot_indices ≡ false)

  abbrev pub after : ReadState → OpinionRecord → ReadState
  after st r = record {
    seen_record_keys = r.record_key ∷ st.seen_record_keys;
    seen_slot_indices = r.slot_index ∷ st.seen_slot_indices;
    validated_records = st.validated_records ++ r ∷ [];
  }

  check_record-ok :
      (st : ReadState) (r : OpinionRecord)
      → IsVote d c slots r
      → IsFresh st r
      → check_record d c (derive_scope_key d c) slots st r ≡ ok (after st r)
  unfolding check_record IsFresh
  check_record-ok st r vote fresh =
      let v = vote.0 in
      demand_holds {c = str_eq r.scope_key (derive_scope_key d c)} _ _ ((eq_iff _ _).1 v.in_scope)
      ∙ demand_holds
          {c = not (
            contains_text r.record_key st.seen_record_keys
            || contains r.slot_index st.seen_slot_indices)}
          _ _ (rw (fresh.0, fresh.1) refl)
      ∙ demand_holds {c = leb r.ingest_timestamp_sec c.jury_deadline_timestamp_sec} _ _
          (ground (arith, vote.1))
      ∙ demand_holds {c = matches_slot (slot_at slots r.slot_index) r} _ _
          (ap (λ o. matches_slot o r) v.found ∙ matches_slot-held v.slot r v.held)
      ∙ demand_holds {c = str_eq r.record_key (derive_record_key d c r.slot_index)} _ _
          ((eq_iff _ _).1 v.record_key_derived)
      ∙ demand_holds {c = str_eq r.slot_id (derive_slot_id d c r.slot_index)} _ _
          ((eq_iff _ _).1 v.slot_id_derived)
      ∙ rw (fresh.0, fresh.1) refl

  IsFresh-after :
      (st : ReadState) (r x : OpinionRecord)
      → IsVote d c slots r
      → IsVote d c slots x
      → HasOtherKey r x
      → IsFresh st x
      → IsFresh (after st r) x
  unfolding IsFresh
  IsFresh-after st r x v w other fresh =
      let other_slot : r.slot_index ≢ x.slot_index = λ q.
        other
          (v.0.record_key_derived ∙ ap (derive_record_key d c) q ∙ sym w.0.record_key_derived) in
      (
        ground (arith, fresh.0, eq_iff r.record_key x.record_key, other),
        ground (arith, fresh.1, other_slot),
      )

  pub record AllRead (st final : ReadState) (rs : List OpinionRecord) : Type 0 where
    pub result : check_records d c (derive_scope_key d c) slots st rs ≡ ok final
    pub seen : length final.seen_slot_indices ≡ length st.seen_slot_indices + length rs
    pub validated : final.validated_records ≡ st.validated_records ++ rs

  pub check_records-ok :
      (st : ReadState) (rs : List OpinionRecord)
      → All (IsVote d c slots) rs
      → All (IsFresh st) rs
      → Pairwise HasOtherKey rs
      → (final : ReadState) × AllRead st final rs
  unfolding check_records
  check_records-ok st [] v f p = (
    st,
    record { result = refl; seen = omega arith; validated = sym (append-nil st.validated_records) },
  )
  check_records-ok st (r ∷ rs) v f p =
      let still = All-zip (λ x w o. IsFresh-after st r x v.0 w o) rs v.1 p.0 in
      let (final, h) =
        check_records-ok (after st r) rs v.1 (All-zip (λ x g e. g e) rs still f.1) p.1 in
      (
        final,
        record {
          result = bind_ok _ (check_record-ok st r v.0 f.0) ∙ h.result;
          seen = h.seen ∙ omega arith;
          validated = h.validated ∙ append_assoc st.validated_records (r ∷ []) rs;
        },
      )

  -- the votes of an ingest
  pub Ingested-votes :
      (os : List SealedOpinion) (rs : List OpinionRecord)
      → Ingested d c slots os rs
      → All (λ o. o.ingest_timestamp_sec ≤ c.jury_deadline_timestamp_sec) os
      → All (IsVote d c slots) rs × (length rs ≡ length os)
  unfolding opinion_record
  Ingested-votes [] [] h t = (tt, refl)
  Ingested-votes [] (r ∷ rs) h t = elim h [ ]
  Ingested-votes (o ∷ os) [] h t = elim h [ ]
  Ingested-votes (o ∷ os) (r ∷ rs) h t =
      let (slot, a, same) = h.0 in
      let rest = Ingested-votes os rs h.1 t.1 in
      let place = slot_at-slot_index slots o.slot_index slot a.found in
      let vote : IsVote d c slots (opinion_record d c slot o) = (
        record {
          in_scope = refl;
          slot = slot;
          found = ap (slot_at slots) place ∙ a.found;
          held = record { same_cohort = refl; same_cohort_slot = refl; same_juror = refl };
          record_key_derived = refl;
          slot_id_derived = refl;
        },
        t.0,
      ) in
      ((subst (IsVote d c slots) (sym same) vote, rest.0), ap suc rest.1)
