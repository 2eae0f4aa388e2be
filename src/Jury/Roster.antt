-- ===== src/Jury/Roster.antt =====
-- The committed roster and its replacements: `resolveEffectiveRosterSlots`,
-- `assertOpinionIngestRosterSlotAuthorized` and `reissueHumanJurorSlot`. `deriveStableDigest` is the
-- parameter `stable_digest`: the laws hold for every digest.
pub mod Resolve
pub mod Append
pub mod Order
use anti_soon.Prelude.{
  ℕ, zero, suc, ◌+◌, String, Bool, true, false, not, ◌&&◌, ◌||◌, Option, none, some, List, [], ◌∷◌,
  ◌++◌, Result, ok, err, ◌==◌, str_eq, find?, get_elem?, if◌then◌else◌,
}
use anti_soon.Prelude.Results.{◌>>=◌, ◌>>◌, demand}
use anti_soon.Jury.Types.{
  Cohort, llm, human, same_cohort, RosterSlot, Replacement, RosterCommitment, CasePackage,
  JuryError, missing_slot, not_human_slot, wrong_cohort_slot, wrong_previous_juror,
  juror_already_active, slot_not_committed, no_human_slot, juror_unchanged,
}

-- `slots[i] = slot`
abbrev pub set_slot : List RosterSlot → ℕ → RosterSlot → List RosterSlot
set_slot [] i slot = []
set_slot (x ∷ xs) zero slot = slot ∷ xs
set_slot (x ∷ xs) (suc i) slot = x ∷ set_slot xs i slot

-- `slots.some((candidate, index) => index !== i && candidate.jurorId === juror)`, from index `n` on
unfoldable pub is_active_elsewhere : ℕ → ℕ → String → List RosterSlot → Bool
is_active_elsewhere n i juror [] = false
is_active_elsewhere n i juror (x ∷ xs) =
    (not (n == i) && str_eq x.juror_id juror) || is_active_elsewhere (n + 1) i juror xs

replace_at : List RosterSlot → Replacement → Option RosterSlot → Result JuryError (List RosterSlot)
replace_at slots r none = err (missing_slot r.slot_index)
replace_at slots r (some slot) = do
  demand (same_cohort slot.cohort human) (not_human_slot r.slot_index)
  demand (slot.cohort_slot_index == r.cohort_slot_index) (wrong_cohort_slot r.slot_index)
  demand (str_eq slot.juror_id r.previous_juror_id) (wrong_previous_juror r.slot_index)
  demand (not (is_active_elsewhere 0 r.slot_index r.next_juror_id slots))
      (juror_already_active r.next_juror_id)
  ok (
      set_slot slots r.slot_index
        (record slot { juror_id = r.next_juror_id; assignment_digest = r.replacement_digest }))

-- one round of the loop over the replacements
unfoldable pub apply_replacement :
    List RosterSlot → Replacement → Result JuryError (List RosterSlot)
unfolding replace_at is_active_elsewhere
apply_replacement slots r = replace_at slots r (get_elem? slots r.slot_index)

apply_replacements : List RosterSlot → List Replacement → Result JuryError (List RosterSlot)
apply_replacements slots [] = ok slots
apply_replacements slots (r ∷ rs) = apply_replacement slots r >>= λ next. apply_replacements next rs

unfoldable pub resolve_effective_roster_slots :
    List RosterSlot → List Replacement → Result JuryError (List RosterSlot)
unfolding apply_replacements
resolve_effective_roster_slots slots replacements = apply_replacements slots replacements

abbrev pub effective_slots : CasePackage → Result JuryError (List RosterSlot)
effective_slots c =
    resolve_effective_roster_slots c.roster_commitment.slots
      c.roster_commitment.human_slot_replacements

-- `slots.find((candidate) => candidate.slotIndex === i)`
abbrev pub slot_at : List RosterSlot → ℕ → Option RosterSlot
slot_at slots i = find? (λ slot. slot.slot_index == i) slots

unfoldable pub check_slot : Option RosterSlot → Cohort → String → Result JuryError RosterSlot
check_slot none cohort juror = err slot_not_committed
check_slot (some slot) cohort juror =
    if same_cohort slot.cohort cohort && str_eq slot.juror_id juror
    then ok slot
    else err slot_not_committed

unfoldable pub assert_roster_slot_authorized :
    CasePackage → ℕ → Cohort → String → Result JuryError RosterSlot
unfolding check_slot
assert_roster_slot_authorized c slot_index cohort juror =
    effective_slots c >>= λ slots. check_slot (slot_at slots slot_index) cohort juror

-- `ParsedHumanJurorReplacementInput`
pub record ReplacementInput : Type 0 where
  pub slot_index : ℕ
  pub next_juror_id : String
  pub replacement_reason : String
  pub replacement_timestamp_sec : ℕ
  pub replacement_source : String
  pub replacement_nonce : String
  pub replacement_randomness_digest : String

-- `slots.some((candidate) => candidate.slotIndex !== i && candidate.jurorId === juror)`
abbrev pub is_held_by_other : ℕ → String → List RosterSlot → Bool
is_held_by_other i juror [] = false
is_held_by_other i juror (x ∷ xs) =
    (not (x.slot_index == i) && str_eq x.juror_id juror) || is_held_by_other i juror xs
