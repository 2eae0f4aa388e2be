-- ===== src/Jury/Ledger.antt =====
-- The confidential ledger of opinions of main.ts: its keys, and `ingestJurorOpinions`, which writes it.
pub mod Read
pub mod Ingested
pub mod Roundtrip
use Prim.Native.Nat.{compare, Ordering}
use anti_soon.Prelude.{
  ℕ, suc, String, Bool, true, false, not, ◌&&◌, ◌||◌, Option, none, some, List, [], ◌∷◌, ◌++◌,
  Result, ok, err, ◌==◌, str_eq, ltb, length, if◌then◌else◌,
}
use anti_soon.Prelude.Decimal.{pad_start_4}
use anti_soon.Prelude.Template.{template}
use anti_soon.Prelude.Map.{Map, has, set, values}
use anti_soon.Prelude.Set.{contains}
use anti_soon.Prelude.Sort.{sort}
use anti_soon.Prelude.Results.{◌>>=◌, ◌>>◌, demand}
use anti_soon.Jury.Types.{
  Cohort, Validity, same_cohort, RosterSlot, CasePackage, OpinionRecord, OpinionIngest, ReadFailure,
  wrong_record_count, wrong_submission, wrong_project, wrong_round, wrong_scope_key,
  wrong_record_scope, missing_vote, duplicate_slot, late_vote, wrong_roster_slot, wrong_record_key,
  wrong_slot_id, JuryError, append_only, read_failed,
}
use anti_soon.Jury.Digest.{Digests, text, number, bigint, object, end, field, hex}
use anti_soon.Jury.Roster.{effective_slots, slot_at, assert_roster_slot_authorized}

-- `ParsedSealedOpinionInput`
pub record SealedOpinion : Type 0 where
  pub slot_index : ℕ
  pub cohort : Cohort
  pub juror_id : String
  pub final_validity : Validity
  pub rationale_digest : String
  pub testimony_digest : String
  pub ingest_timestamp_sec : ℕ

-- the comparator `left.slotIndex - right.slotIndex`
abbrev pub by_slot_index : OpinionRecord → OpinionRecord → Ordering
by_slot_index left right = compare left.slot_index right.slot_index

unfoldable pub sort_opinion_records : List OpinionRecord → List OpinionRecord
sort_opinion_records records = sort by_slot_index records

module _ (d : Digests) (c : CasePackage) where
  unfoldable pub derive_scope_key : String
  derive_scope_key = d.stable_digest "anti-soon.jury-ledger.scope.v1" (
      object (
        field "submissionId" (bigint c.submission_id)
          (field "juryRoundId" (bigint c.jury_round_id) end)))

  unfoldable pub derive_record_key : ℕ → String
  derive_record_key slot_index = d.stable_digest "anti-soon.jury-ledger.record.v1" (
      object (
        field "scopeKey" (hex d derive_scope_key)
          (field "role" (text "sealed_opinion") (field "roleSlot" (number slot_index) end))))

  unfoldable pub derive_slot_id : ℕ → String
  derive_slot_id slot_index = template (
      "jury-ledger/v1/"
      ∷ derive_scope_key
      ∷ "/sealed-opinion/slot-"
      ∷ pad_start_4 slot_index
      ∷ "/"
      ∷ derive_record_key slot_index
      ∷ [])

  -- the record of an opinion in the slot that it was authorised for
  unfoldable pub opinion_record : RosterSlot → SealedOpinion → OpinionRecord
  opinion_record slot opinion = record {
    slot_index = slot.slot_index;
    cohort = slot.cohort;
    cohort_slot_index = slot.cohort_slot_index;
    juror_id = slot.juror_id;
    final_validity = opinion.final_validity;
    rationale_digest = opinion.rationale_digest;
    testimony_digest = opinion.testimony_digest;
    ingest_timestamp_sec = opinion.ingest_timestamp_sec;
    scope_key = derive_scope_key;
    record_key = derive_record_key slot.slot_index;
    slot_id = derive_slot_id slot.slot_index;
  }

  -- one round of the loop over the opinions
  unfoldable pub ingest_opinion :
      Map OpinionRecord → SealedOpinion → Result JuryError (Map OpinionRecord)
  ingest_opinion records opinion = do
    slot ← assert_roster_slot_authorized c opinion.slot_index opinion.cohort opinion.juror_id
    demand (not (has records (derive_record_key slot.slot_index)))
        (append_only (derive_record_key slot.slot_index))
    ok (set records (derive_record_key slot.slot_index) (opinion_record slot opinion))

  unfoldable pub ingest_opinions :
      Map OpinionRecord → List SealedOpinion → Result JuryError (Map OpinionRecord)
  unfolding ingest_opinion
  ingest_opinions records [] = ok records
  ingest_opinions records (x ∷ xs) = ingest_opinion records x >>= λ next. ingest_opinions next xs

  unfoldable pub ingest_juror_opinions : List SealedOpinion → Result JuryError OpinionIngest
  unfolding ingest_opinions
  ingest_juror_opinions opinions = ingest_opinions [] opinions >>= λ records.
      let sorted = sort_opinion_records (values records) in
      ok (record {
        submission_id = c.submission_id;
        project_id = c.project_id;
        jury_round_id = c.jury_round_id;
        scope_key = derive_scope_key;
        record_count = length sorted;
        records = sorted;
      })
