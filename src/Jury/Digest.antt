-- ===== src/Jury/Digest.antt =====
-- The values that `deriveStableDigest` takes, and the serializers of main.ts. `deriveStableDigest`
-- itself and `String.prototype.toLowerCase` are parameters.
use anti_soon.Prelude.{ℕ, String, List, [], ◌∷◌}
use anti_soon.Jury.Types.{Cohort, llm, human, RosterSlot, Replacement}

mutual
  -- `CanonicalDigestValue`, with the cases that the serializers build
  pub data DigestValue : Type 0 where
    text : String → DigestValue
    number bigint : ℕ → DigestValue
    array : Items → DigestValue
    object : Fields → DigestValue

  pub data Items : Type 0 where
    nil : Items
    cons : DigestValue → Items → Items

  pub data Fields : Type 0 where
    end : Fields
    field : String → DigestValue → Fields → Fields

pub record Digests : Type 0 where
  pub stable_digest : (version : String) → DigestValue → String
  pub to_lower_case : String → String

abbrev pub cohort_text : Cohort → String
cohort_text llm = "LLM"
cohort_text human = "HUMAN"

module _ (d : Digests) where
  -- `normalizeHexForDigest`
  abbrev pub hex : String → DigestValue
  hex value = text (d.to_lower_case value)

  unfoldable pub serialize_slot : RosterSlot → DigestValue
  serialize_slot slot = object (
      field "slotIndex" (number slot.slot_index) (
        field "cohort" (text (cohort_text slot.cohort)) (
          field "cohortSlotIndex" (number slot.cohort_slot_index) (
            field "jurorId" (text slot.juror_id)
              (field "assignmentDigest" (hex slot.assignment_digest) end)))))

  unfoldable pub serialize_replacement : Replacement → DigestValue
  serialize_replacement r = object (
      field "replacementVersion" (text "anti-soon.human-juror-replacement.v1") (
        field "slotIndex" (number r.slot_index) (
          field "cohortSlotIndex" (number r.cohort_slot_index) (
            field "previousJurorId" (text r.previous_juror_id) (
              field "nextJurorId" (text r.next_juror_id) (
                field "replacementReason" (text r.replacement_reason) (
                  field "replacementTimestampSec" (bigint r.replacement_timestamp_sec) (
                    field "replacementSource" (text r.replacement_source) (
                      field "replacementNonce" (hex r.replacement_nonce) (
                        field "replacementRandomnessDigest" (hex r.replacement_randomness_digest)
                          (field "replacementDigest" (hex r.replacement_digest) end)))))))))))

  unfoldable pub serialize_slots : List RosterSlot → Items
  serialize_slots [] = nil
  serialize_slots (x ∷ xs) = cons (serialize_slot x) (serialize_slots xs)

  unfoldable pub serialize_replacements : List Replacement → Items
  serialize_replacements [] = nil
  serialize_replacements (x ∷ xs) = cons (serialize_replacement x) (serialize_replacements xs)
