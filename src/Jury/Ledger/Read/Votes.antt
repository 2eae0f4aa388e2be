-- ===== src/Jury/Ledger/Read/Votes.antt =====
-- What a consistent read of the ledger gives: for every slot of the effective roster the timely vote
-- of the juror who holds it.
use anti_soon.Jury.Ledger.Read.Seats.{matches_slot-IsHeldBy, IsAscending-of_sorted}
pub use anti_soon.Jury.Ledger.Read.Seats.{
  IsAscending, HasDistinctSlots, IsHeldBy, by_slot_index-IsComparator,
}
use anti_soon.Prelude.{
  ◌+◌, ◌≡◌, ◌≢◌, ◌≤◌, refl, sym, ap, ◌∙◌, false, not, ◌||◌, some, List, [], ◌∷◌, ◌++◌, ok, ◌==◌,
  str_eq, leb, length, arith, eq_iff, ==_iff, leb→le, All, All-imp, if◌then◌else◌, subst,
}
use mathlib.Core.List.{append-nil, append_assoc}
use anti_soon.Prelude.Set.{contains, contains_text}
use anti_soon.Prelude.Sort.{sort-IsSorted}
use anti_soon.Prelude.Results.{bind_parts, demand_then, ok_unique}
use anti_soon.Jury.Types.{RosterSlot, CasePackage, OpinionRecord, OpinionIngest}
use anti_soon.Jury.Digest.{Digests}
use anti_soon.Jury.Roster.{effective_slots, slot_at}
use anti_soon.Jury.Ledger.{
  sort_opinion_records, derive_scope_key, derive_record_key, derive_slot_id,
}
use anti_soon.Jury.Ledger.Read.{
  ReadState, nothing_read, matches_slot, check_record, check_records, assert_read_consistency,
}

module _ (d : Digests) (c : CasePackage) where
  -- A record of the juror who holds its slot, under the keys of the case.
  pub record IsCommitted (slots : List RosterSlot) (r : OpinionRecord) : Type 0 where
    pub in_scope : r.scope_key ≡ derive_scope_key d c
    pub slot : RosterSlot
    pub found : slot_at slots r.slot_index ≡ some slot
    pub held : IsHeldBy r slot
    pub record_key_derived : r.record_key ≡ derive_record_key d c r.slot_index
    pub slot_id_derived : r.slot_id ≡ derive_slot_id d c r.slot_index

  abbrev pub IsTimely : OpinionRecord → Type 0
  IsTimely r = r.ingest_timestamp_sec ≤ c.jury_deadline_timestamp_sec

  abbrev pub IsVote : List RosterSlot → OpinionRecord → Type 0
  IsVote slots r = IsCommitted slots r × IsTimely r

  -- What one round of the loop gives.
  record Checked (slots : List RosterSlot) (st next : ReadState) (r : OpinionRecord) : Type 0 where
    vote : IsVote slots r
    fresh : contains r.slot_index st.seen_slot_indices ≡ false
    slots_grow : next.seen_slot_indices ≡ r.slot_index ∷ st.seen_slot_indices
    records_grow : next.validated_records ≡ st.validated_records ++ r ∷ []

  check_record-Checked :
      (slots : List RosterSlot) (st next : ReadState) (r : OpinionRecord)
      → check_record d c (derive_scope_key d c) slots st r ≡ ok next
      → Checked slots st next r
  unfolding check_record
  check_record-Checked slots st next r h =
      let (a, h1) = demand_then (str_eq r.scope_key (derive_scope_key d c)) _ _ h in
      let (b, h2) =
        demand_then
          (not (
            contains_text r.record_key st.seen_record_keys
            || contains r.slot_index st.seen_slot_indices))
          _ _ h1 in
      let (t, h3) = demand_then (leb r.ingest_timestamp_sec c.jury_deadline_timestamp_sec) _ _ h2 in
      let (m, h4) = demand_then (matches_slot (slot_at slots r.slot_index) r) _ _ h3 in
      let (k, h5) = demand_then (str_eq r.record_key (derive_record_key d c r.slot_index)) _ _ h4 in
      let (i, h6) = demand_then (str_eq r.slot_id (derive_slot_id d c r.slot_index)) _ _ h5 in
      let (slot, found, held) = matches_slot-IsHeldBy (slot_at slots r.slot_index) r m in
      let fresh : contains r.slot_index st.seen_slot_indices ≡ false = ground (arith, b) in
      record {
        vote = (
          record {
            in_scope = (eq_iff _ _).0 a;
            slot = slot;
            found = found;
            held = held;
            record_key_derived = (eq_iff _ _).0 k;
            slot_id_derived = (eq_iff _ _).0 i;
          },
          leb→le _ _ t,
        );
        fresh = fresh;
        slots_grow =
            ap (λ s. s.seen_slot_indices) (ok_unique h6 refl)
            ∙ ap (λ b. if b then st.seen_slot_indices else r.slot_index ∷ st.seen_slot_indices)
                fresh;
        records_grow = ap (λ s. s.validated_records) (ok_unique h6 refl);
      }

  -- What the loop gives.
  record AllChecked (slots : List RosterSlot) (st final : ReadState) (rs : List OpinionRecord)
      : Type 0 where
    votes : All (IsVote slots) rs
    fresh : All (λ r. contains r.slot_index st.seen_slot_indices ≡ false) rs
    distinct : HasDistinctSlots rs
    seen : length final.seen_slot_indices ≡ length st.seen_slot_indices + length rs
    validated : final.validated_records ≡ st.validated_records ++ rs

  check_records-AllChecked :
      (slots : List RosterSlot) (st final : ReadState) (rs : List OpinionRecord)
      → check_records d c (derive_scope_key d c) slots st rs ≡ ok final
      → AllChecked slots st final rs
  unfolding check_records
  check_records-AllChecked slots st final [] h =
      let same = ok_unique {m = ok st} h refl in
      record {
        votes = tt;
        fresh = tt;
        distinct = tt;
        seen = ap (λ s. length s.seen_slot_indices) same ∙ omega arith;
        validated = ap (λ s. s.validated_records) same ∙ sym (append-nil st.validated_records);
      }
  check_records-AllChecked slots st final (r ∷ rs) h =
      let (next, p, q) = bind_parts (check_record d c (derive_scope_key d c) slots st r) _ h in
      let one = check_record-Checked slots st next r p in
      let rest = check_records-AllChecked slots next final rs q in
      let later : (x : OpinionRecord)
          → contains x.slot_index next.seen_slot_indices ≡ false
          → (r.slot_index ≢ x.slot_index) × (contains x.slot_index st.seen_slot_indices ≡ false) =
        λ x e.
          let k : contains x.slot_index (r.slot_index ∷ st.seen_slot_indices) ≡ false =
            ap (contains x.slot_index) (sym one.slots_grow) ∙ e in
          ground arith in
      record {
        votes = (one.vote, rest.votes);
        fresh = (one.fresh, All-imp (λ x e. (later x e).1) rs rest.fresh);
        distinct = (All-imp (λ x e. (later x e).0) rs rest.fresh, rest.distinct);
        seen = rest.seen ∙ ap (λ s. length s + length rs) one.slots_grow ∙ omega arith;
        validated =
            rest.validated
            ∙ ap (λ s. s ++ rs) one.records_grow
            ∙ append_assoc st.validated_records (r ∷ []) rs;
      }

  -- What a consistent read has found.
  pub record IsConsistent (ingest : OpinionIngest) (records : List OpinionRecord) : Type 0 where
    pub same_submission : ingest.submission_id ≡ c.submission_id
    pub same_project : ingest.project_id ≡ c.project_id
    pub same_round : ingest.jury_round_id ≡ c.jury_round_id
    pub slots : List RosterSlot
    pub effective : effective_slots c ≡ ok slots
    pub sorted : records ≡ sort_opinion_records ingest.records
    pub ascending : IsAscending records
    pub votes : All (IsVote slots) records
    pub complete : length records ≡ length slots

  -- A read that the checks let through is of the case's own round, and its records, in the order of
  -- the slots, are timely votes of the jurors in effect, one for each slot: no slot has two or
  -- none.
  pub assert_read_consistency-IsConsistent :
      (ingest : OpinionIngest) (records : List OpinionRecord)
      → assert_read_consistency d c ingest ≡ ok records
      → IsConsistent ingest records
  unfolding assert_read_consistency sort_opinion_records
  assert_read_consistency-IsConsistent ingest records h =
      let (slots, effective, h1) = bind_parts (effective_slots c) _ h in
      let (n, h2) = demand_then (ingest.record_count == length ingest.records) _ _ h1 in
      let (s, h3) = demand_then (ingest.submission_id == c.submission_id) _ _ h2 in
      let (p, h4) = demand_then (ingest.project_id == c.project_id) _ _ h3 in
      let (j, h5) = demand_then (ingest.jury_round_id == c.jury_round_id) _ _ h4 in
      let (k, h6) = demand_then (str_eq ingest.scope_key (derive_scope_key d c)) _ _ h5 in
      let (st, checks, h7) =
        bind_parts
          (check_records d c ingest.scope_key slots nothing_read
            (sort_opinion_records ingest.records))
          _ h6 in
      let (m, h8) = demand_then (length st.seen_slot_indices == length slots) _ _ h7 in
      let in_order = sort_opinion_records ingest.records in
      let all = check_records-AllChecked slots nothing_read st in_order (
        ap (λ key. check_records d c key slots nothing_read in_order) (sym ((eq_iff _ _).0 k))
        ∙ checks) in
      let same : records ≡ in_order = ok_unique h8 refl ∙ all.validated in
      record {
        same_submission = (==_iff _ _).0 s;
        same_project = (==_iff _ _).0 p;
        same_round = (==_iff _ _).0 j;
        slots = slots;
        effective = effective;
        sorted = same;
        ascending = subst IsAscending (sym same) (
            IsAscending-of_sorted in_order (sort-IsSorted by_slot_index-IsComparator ingest.records)
              all.distinct);
        votes = subst (All (IsVote slots)) (sym same) all.votes;
        complete = ap length same ∙ omega (arith, all.seen) ∙ (==_iff _ _).0 m;
      }
