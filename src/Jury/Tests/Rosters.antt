-- ===== src/Jury/Tests/Rosters.antt =====
-- The roster of the case, and the reissue of ben's slot to gus.
use anti_soon.Prelude.{ℕ, ◌≡◌, ◌≢◌, ◌↔◌, refl, String, List, ok, err, true, false, eq_iff}
use anti_soon.Prelude.Results.{ok_or}
use anti_soon.Jury.Types.{Cohort, human, CasePackage, RosterSlot, slot_not_committed}
use anti_soon.Jury.Roster.{
  set_slot, effective_slots, assert_roster_slot_authorized, resolve_effective_roster_slots,
  apply_replacement,
}
use anti_soon.Jury.Roster.Resolve.{IsRoster, resolve_effective_roster_slots-IsRoster}
use anti_soon.Jury.Roster.Order.{assert_roster_slot_order, assert_roster_slot_order_iff}
use anti_soon.Jury.Reissue.{
  reissue_human_juror_slot, extend_roster, derive_effective_roster_digest, replacement_record,
}
use anti_soon.Jury.Reissue.Laws.{
  IsAllowed, reissued, reissued_slot, reissue_human_juror_slot-ok,
  reissue_human_juror_slot-IsAllowed,
}
use anti_soon.Jury.Reissue.Authorized.{reissue_human_juror_slot-authorized}
use anti_soon.Jury.Tests.Fixtures.{
  written_out, some_case, committed_slots, slot_of, slots_in_effect, some_case-effective,
  committed_slots-IsRoster, reissue_input,
}

assert_roster_slot_order_iff_example :
    (assert_roster_slot_order committed_slots ≡ ok tt) ↔ IsRoster committed_slots
assert_roster_slot_order_iff_example = assert_roster_slot_order_iff committed_slots

resolve_effective_roster_slots-IsRoster_example : IsRoster slots_in_effect
resolve_effective_roster_slots-IsRoster_example =
    resolve_effective_roster_slots-IsRoster committed_slots
      some_case.roster_commitment.human_slot_replacements slots_in_effect committed_slots-IsRoster
      some_case-effective

reissue_input-IsAllowed : IsAllowed slots_in_effect reissue_input (slot_of 6 "ben")
reissue_input-IsAllowed = record {
  found = refl;
  is_human = refl;
  changes = λ q. (let t : false ≡ true = (eq_iff "ben" "gus").1 q in cc);
  is_free = refl;
}

reissue_human_juror_slot-ok_example :
    (digest : String) × (reissue_human_juror_slot written_out some_case reissue_input
      ≡ ok (reissued written_out some_case reissue_input (slot_of 6 "ben") digest))
    × (derive_effective_roster_digest written_out
          (reissued written_out some_case reissue_input (slot_of 6 "ben") digest).roster_commitment
        ≡ ok digest)
    × (effective_slots (reissued written_out some_case reissue_input (slot_of 6 "ben") digest)
        ≡ ok (
            set_slot slots_in_effect 6
              (reissued_slot written_out some_case (slot_of 6 "ben") reissue_input)))
reissue_human_juror_slot-ok_example =
    reissue_human_juror_slot-ok written_out some_case reissue_input slots_in_effect
      (slot_of 6 "ben") committed_slots-IsRoster some_case-effective reissue_input-IsAllowed

abbrev reissued_case : CasePackage
reissued_case = ok_or (reissue_human_juror_slot written_out some_case reissue_input) some_case

some_case-reissued : reissue_human_juror_slot written_out some_case reissue_input ≡ ok reissued_case
unfolding reissue_human_juror_slot resolve_effective_roster_slots apply_replacement extend_roster
    derive_effective_roster_digest replacement_record
some_case-reissued = refl

reissue_human_juror_slot-IsAllowed_example :
    (slots : List RosterSlot) × (slot : RosterSlot) × (effective_slots some_case ≡ ok slots)
    × IsAllowed slots reissue_input slot
reissue_human_juror_slot-IsAllowed_example =
    reissue_human_juror_slot-IsAllowed written_out some_case reissue_input reissued_case
      some_case-reissued

reissue_human_juror_slot-authorized_example :
    (slot held : RosterSlot) × (assert_roster_slot_authorized reissued_case 6 human "gus" ≡ ok slot)
    × (assert_roster_slot_authorized some_case 6 human held.juror_id ≡ ok held)
    × ((cohort : Cohort)
        → assert_roster_slot_authorized reissued_case 6 cohort held.juror_id
          ≡ err slot_not_committed)
    × ((cohort : Cohort) (juror : String)
        → "gus" ≢ juror
        → assert_roster_slot_authorized reissued_case 6 cohort juror ≡ err slot_not_committed)
    × ((i : ℕ) (cohort : Cohort) (juror : String)
        → i ≢ 6
        → assert_roster_slot_authorized reissued_case i cohort juror
          ≡ assert_roster_slot_authorized some_case i cohort juror)
reissue_human_juror_slot-authorized_example =
    reissue_human_juror_slot-authorized written_out some_case reissue_input reissued_case
      committed_slots-IsRoster some_case-reissued
