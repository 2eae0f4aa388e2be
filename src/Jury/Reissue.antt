-- ===== src/Jury/Reissue.antt =====
-- `reissueHumanJurorSlot` of main.ts: a human slot of the roster goes to another juror, and the
-- roster keeps a record of it.
pub mod Laws
pub mod Authorized
use anti_soon.Prelude.{
  ℕ, String, Bool, not, Option, none, some, List, [], ◌∷◌, ◌++◌, Result, ok, err, ◌==◌, str_eq,
}
use anti_soon.Prelude.Results.{◌>>=◌, ◌>>◌, demand}
use anti_soon.Jury.Types.{
  Cohort, human, same_cohort, RosterSlot, Replacement, RosterCommitment, CasePackage, JuryError,
  no_human_slot, juror_unchanged, juror_already_active,
}
use anti_soon.Jury.Digest.{
  Digests, text, number, bigint, array, object, end, field, hex, serialize_slots,
  serialize_replacements,
}
use anti_soon.Jury.Roster.{
  resolve_effective_roster_slots, effective_slots, slot_at, ReplacementInput, is_held_by_other,
}

module _ (d : Digests) where
  digest_from : RosterCommitment → List Replacement → Result JuryError String
  digest_from roster [] = ok roster.commitment_digest
  digest_from roster (r ∷ rs) = resolve_effective_roster_slots roster.slots (r ∷ rs) >>= λ slots.
      ok (
        d.stable_digest "anti-soon.jury-roster-effective.v1" (
          object (
            field "commitmentDigest" (hex d roster.commitment_digest) (
              field "effectiveSlots" (array (serialize_slots d slots))
                (field "replacementTrail" (array (serialize_replacements d (r ∷ rs))) end)))))

  unfoldable pub derive_effective_roster_digest : RosterCommitment → Result JuryError String
  unfolding digest_from
  derive_effective_roster_digest roster = digest_from roster roster.human_slot_replacements

  unfoldable pub replacement_record : CasePackage → RosterSlot → ReplacementInput → Replacement
  replacement_record c slot input = record {
    slot_index = slot.slot_index;
    cohort_slot_index = slot.cohort_slot_index;
    previous_juror_id = slot.juror_id;
    next_juror_id = input.next_juror_id;
    replacement_reason = input.replacement_reason;
    replacement_timestamp_sec = input.replacement_timestamp_sec;
    replacement_source = input.replacement_source;
    replacement_nonce = input.replacement_nonce;
    replacement_randomness_digest = input.replacement_randomness_digest;
    replacement_digest = d.stable_digest "anti-soon.human-juror-replacement.v1" (
        object (
          field "commitmentDigest" (hex d c.roster_commitment.commitment_digest) (
            field "slotIndex" (number slot.slot_index) (
              field "cohortSlotIndex" (number slot.cohort_slot_index) (
                field "previousJurorId" (text slot.juror_id) (
                  field "nextJurorId" (text input.next_juror_id) (
                    field "replacementReason" (text input.replacement_reason) (
                      field "replacementTimestampSec" (bigint input.replacement_timestamp_sec) (
                        field "replacementSource" (text input.replacement_source) (
                          field "replacementNonce" (hex d input.replacement_nonce) (
                            field "replacementRandomnessDigest"
                              (hex d input.replacement_randomness_digest) end)))))))))));
  }

  -- The roster with one more replacement, under the digest of what is then in effect.
  unfoldable pub extend_roster : RosterCommitment → Replacement → Result JuryError RosterCommitment
  extend_roster roster r =
      let next = record roster {
        human_slot_replacements = roster.human_slot_replacements ++ r ∷ [];
      } in
      derive_effective_roster_digest next >>= λ digest. ok (record next { roster_digest = digest })

  reissue_slot :
      CasePackage
      → ReplacementInput
      → List RosterSlot
      → Option RosterSlot
      → Result JuryError CasePackage
  reissue_slot c input slots none = err no_human_slot
  reissue_slot c input slots (some slot) = do
    demand (same_cohort slot.cohort human) no_human_slot
    demand (not (str_eq slot.juror_id input.next_juror_id)) juror_unchanged
    demand (not (is_held_by_other slot.slot_index input.next_juror_id slots))
        (juror_already_active input.next_juror_id)
    roster ← extend_roster c.roster_commitment (replacement_record c slot input)
    ok (record c { roster_commitment = roster })

  unfoldable pub reissue_human_juror_slot :
      CasePackage → ReplacementInput → Result JuryError CasePackage
  unfolding reissue_slot
  reissue_human_juror_slot c input =
      effective_slots c >>= λ slots. reissue_slot c input slots (slot_at slots input.slot_index)
