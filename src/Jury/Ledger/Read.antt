-- ===== src/Jury/Ledger/Read.antt =====
-- `assertOpinionAggregationReadConsistency` of main.ts: what is read back from the ledger of opinions
-- is checked against the case, record by record in the order of the slots.
pub mod Seats
pub mod Votes
pub mod Complete
use anti_soon.Prelude.{
  ℕ, String, Bool, true, false, not, ◌&&◌, ◌||◌, Option, none, some, List, [], ◌∷◌, ◌++◌, Result,
  ok, err, ◌==◌, str_eq, leb, length,
}
use anti_soon.Prelude.Set.{contains, add, contains_text, add_text}
use anti_soon.Prelude.Results.{◌>>=◌, ◌>>◌, demand}
use anti_soon.Jury.Types.{
  same_cohort, RosterSlot, CasePackage, OpinionRecord, OpinionIngest, wrong_record_count,
  wrong_submission, wrong_project, wrong_round, wrong_scope_key, wrong_record_scope, missing_vote,
  duplicate_slot, late_vote, wrong_roster_slot, wrong_record_key, wrong_slot_id, JuryError,
  read_failed,
}
use anti_soon.Jury.Digest.{Digests}
use anti_soon.Jury.Roster.{effective_slots, slot_at}
use anti_soon.Jury.Ledger.{
  sort_opinion_records, derive_scope_key, derive_record_key, derive_slot_id,
}

-- The variables of the loop over the records.
pub record ReadState : Type 0 where
  pub seen_record_keys : List String
  pub seen_slot_indices : List ℕ
  pub validated_records : List OpinionRecord

abbrev pub nothing_read : ReadState
nothing_read = record { seen_record_keys = []; seen_slot_indices = []; validated_records = [] }

-- `committedSlot` is the slot of the record's index, if the roster has one
unfoldable pub matches_slot : Option RosterSlot → OpinionRecord → Bool
matches_slot none r = false
matches_slot (some slot) r =
    same_cohort slot.cohort r.cohort
    && (slot.cohort_slot_index == r.cohort_slot_index)
    && str_eq slot.juror_id r.juror_id

module _ (d : Digests) (c : CasePackage) where
  -- one round of the loop over the records
  unfoldable pub check_record :
      String → List RosterSlot → ReadState → OpinionRecord → Result JuryError ReadState
  check_record scope_key slots st r = do
    demand (str_eq r.scope_key scope_key) (read_failed wrong_record_scope)
    demand
        (not (
          contains_text r.record_key st.seen_record_keys
          || contains r.slot_index st.seen_slot_indices))
        (read_failed (duplicate_slot r.slot_index))
    demand (leb r.ingest_timestamp_sec c.jury_deadline_timestamp_sec)
        (read_failed (late_vote r.slot_index))
    demand (matches_slot (slot_at slots r.slot_index) r)
        (read_failed (wrong_roster_slot r.slot_index))
    demand (str_eq r.record_key (derive_record_key d c r.slot_index))
        (read_failed (wrong_record_key r.slot_index))
    demand (str_eq r.slot_id (derive_slot_id d c r.slot_index))
        (read_failed (wrong_slot_id r.slot_index))
    ok (record {
      seen_record_keys = add_text r.record_key st.seen_record_keys;
      seen_slot_indices = add r.slot_index st.seen_slot_indices;
      validated_records = st.validated_records ++ r ∷ [];
    })

  unfoldable pub check_records :
      String → List RosterSlot → ReadState → List OpinionRecord → Result JuryError ReadState
  unfolding check_record
  check_records scope_key slots st [] = ok st
  check_records scope_key slots st (r ∷ rs) =
      check_record scope_key slots st r >>= λ next. check_records scope_key slots next rs

  unfoldable pub assert_read_consistency : OpinionIngest → Result JuryError (List OpinionRecord)
  unfolding check_records
  assert_read_consistency ingest = do
    slots ← effective_slots c
    demand (ingest.record_count == length ingest.records) (read_failed wrong_record_count)
    demand (ingest.submission_id == c.submission_id) (read_failed wrong_submission)
    demand (ingest.project_id == c.project_id) (read_failed wrong_project)
    demand (ingest.jury_round_id == c.jury_round_id) (read_failed wrong_round)
    demand (str_eq ingest.scope_key (derive_scope_key d c)) (read_failed wrong_scope_key)
    st ← check_records ingest.scope_key slots nothing_read (sort_opinion_records ingest.records)
    demand (length st.seen_slot_indices == length slots) (read_failed missing_vote)
    ok st.validated_records
