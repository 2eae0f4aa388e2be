-- ===== src/Jury/Reissue/Laws.antt =====
-- A reissue changes the juror of one human slot, and only a reissue that the rules allow is made.
mod Slots
unfoldable pub use Slots.*
use anti_soon.Prelude.{
  ℕ, zero, suc, ◌+◌, ◌≡◌, ◌≢◌, refl, sym, ap, ◌∙◌, String, false, not, some, List, [], ◌∷◌, ◌++◌,
  ok, str_eq, get_elem?, arith, eq_iff, Option-cases, inl, inr,
}
use anti_soon.Prelude.Results.{bind_parts, demand_then, bind_ok, demand_holds}
use anti_soon.Jury.Types.{
  human, same_cohort, RosterSlot, Replacement, RosterCommitment, CasePackage,
}
use anti_soon.Jury.Digest.{Digests}
use anti_soon.Jury.Roster.{
  set_slot, is_active_elsewhere, resolve_effective_roster_slots, effective_slots, slot_at,
  ReplacementInput, is_held_by_other,
}
use anti_soon.Jury.Roster.Resolve.{
  IsOrdered, IsRoster, reassign, resolve_effective_roster_slots-IsRoster, same_cohort_eq,
}
use anti_soon.Jury.Roster.Append.{Fits, resolve_effective_roster_slots-append}
use anti_soon.Jury.Reissue.{
  digest_from, derive_effective_roster_digest, replacement_record, extend_roster, reissue_slot,
  reissue_human_juror_slot,
}

module _ (d : Digests) where
  -- The slot after the reissue.
  abbrev pub reissued_slot : CasePackage → RosterSlot → ReplacementInput → RosterSlot
  reissued_slot c slot input = reassign slot (replacement_record d c slot input)

  replacement-Fits :
      (c : CasePackage) (input : ReplacementInput) (slots : List RosterSlot) (slot : RosterSlot)
      → IsRoster slots
      → IsAllowed slots input slot
      → Fits slots (replacement_record d c slot input) slot
  unfolding replacement_record
  replacement-Fits c input slots slot roster h =
      let same = slot_at-slot_index slots input.slot_index slot h.found in
      record {
        found =
            sym (slot_at-get_elem? 0 slot.slot_index slots roster.ordered)
            ∙ ap (slot_at slots) (omega (arith, same))
            ∙ h.found;
        is_human = h.is_human;
        same_slot = refl;
        was_active = refl;
        inactive =
            rw
              (
                is_active_elsewhere-is_held_by_other 0 slot.slot_index input.next_juror_id slots
                    roster.ordered,
                same,
              )
              h.is_free;
      }

  digest_from-ok :
      (roster : RosterCommitment) (rs : List Replacement) (slots : List RosterSlot)
      → resolve_effective_roster_slots roster.slots rs ≡ ok slots
      → (digest : String) × (digest_from d roster rs ≡ ok digest)
  unfolding digest_from
  digest_from-ok roster [] slots e = (roster.commitment_digest, refl)
  digest_from-ok roster (r ∷ rs) slots e = (_, bind_ok _ e)

  abbrev pub extended : RosterCommitment → Replacement → String → RosterCommitment
  extended roster r digest = record roster {
    human_slot_replacements = roster.human_slot_replacements ++ r ∷ [];
    roster_digest = digest;
  }

  extend_roster-ok :
      (roster : RosterCommitment) (r : Replacement) (slots : List RosterSlot)
      → resolve_effective_roster_slots roster.slots (roster.human_slot_replacements ++ r ∷ [])
        ≡ ok slots
      → (digest : String) × (extend_roster d roster r ≡ ok (extended roster r digest))
        × (derive_effective_roster_digest d (extended roster r digest) ≡ ok digest)
  unfolding extend_roster derive_effective_roster_digest
  extend_roster-ok roster r slots e =
      let (digest, p) =
        digest_from-ok
          (record roster { human_slot_replacements = roster.human_slot_replacements ++ r ∷ [] })
          (roster.human_slot_replacements ++ r ∷ []) slots e in
      (digest, rw p refl, p)

  reissue_slot-IsAllowed :
      (c : CasePackage) (input : ReplacementInput) (slots : List RosterSlot) (slot : RosterSlot)
      (c' : CasePackage)
      → slot_at slots input.slot_index ≡ some slot
      → reissue_slot d c input slots (some slot) ≡ ok c'
      → IsAllowed slots input slot
  unfolding reissue_slot
  reissue_slot-IsAllowed c input slots slot c' f h =
      let a = demand_then (same_cohort slot.cohort human) _ _ h in
      let b = demand_then (not (str_eq slot.juror_id input.next_juror_id)) _ _ a.1 in
      let e =
        demand_then (not (is_held_by_other slot.slot_index input.next_juror_id slots)) _ _ b.1 in
      let same = slot_at-slot_index slots input.slot_index slot f in
      record {
        found = f;
        is_human = same_cohort_eq slot.cohort human a.0;
        changes = λ q. ground (arith, eq_iff slot.juror_id input.next_juror_id, b);
        is_free =
            ap (λ i. is_held_by_other i input.next_juror_id slots) (sym same) ∙ ground (arith, e);
      }

  reissue_slot-ok :
      (c : CasePackage) (input : ReplacementInput) (slots : List RosterSlot) (slot : RosterSlot)
      (roster : RosterCommitment)
      → IsAllowed slots input slot
      → extend_roster d c.roster_commitment (replacement_record d c slot input) ≡ ok roster
      → reissue_slot d c input slots (some slot) ≡ ok (record c { roster_commitment = roster })
  unfolding reissue_slot
  reissue_slot-ok c input slots slot roster h e =
      let same = slot_at-slot_index slots input.slot_index slot h.found in
      let changes : str_eq slot.juror_id input.next_juror_id ≡ false =
        ground (arith, eq_iff slot.juror_id input.next_juror_id, h) in
      let is_free : is_held_by_other slot.slot_index input.next_juror_id slots ≡ false =
        ap (λ i. is_held_by_other i input.next_juror_id slots) same ∙ h.is_free in
      demand_holds _ _ (ap (λ x. same_cohort x human) h.is_human)
      ∙ demand_holds _ _ (ap not changes)
      ∙ demand_holds _ _ (ap not is_free)
      ∙ bind_ok _ e

  -- The case after the reissue.
  abbrev pub reissued : CasePackage → ReplacementInput → RosterSlot → String → CasePackage
  reissued c input slot digest = record c {
    roster_commitment = extended c.roster_commitment (replacement_record d c slot input) digest;
  }

  effective_slots-reissued :
      (c : CasePackage) (input : ReplacementInput) (slots : List RosterSlot) (slot : RosterSlot)
      → IsRoster c.roster_commitment.slots
      → effective_slots c ≡ ok slots
      → IsAllowed slots input slot
      → resolve_effective_roster_slots c.roster_commitment.slots
          (c.roster_commitment.human_slot_replacements ++ replacement_record d c slot input ∷ [])
        ≡ ok (set_slot slots slot.slot_index (reissued_slot c slot input))
  unfolding replacement_record
  effective_slots-reissued c input slots slot roster e h =
      resolve_effective_roster_slots-append _ _ slots (replacement_record d c slot input) slot e (
        replacement-Fits c input slots slot
          (resolve_effective_roster_slots-IsRoster _ _ slots roster e) h)

  -- Over a committed roster whose replacements apply, a reissue that the rules allow is made: the
  -- case changes in its roster commitment alone, where the replacement is appended and the roster
  -- digest becomes the one that is derived from the roster so extended, and what is in effect is as
  -- before but for the reissued slot.
  pub reissue_human_juror_slot-ok :
      (c : CasePackage) (input : ReplacementInput) (slots : List RosterSlot) (slot : RosterSlot)
      → IsRoster c.roster_commitment.slots
      → effective_slots c ≡ ok slots
      → IsAllowed slots input slot
      → (digest : String) × (reissue_human_juror_slot d c input ≡ ok (reissued c input slot digest))
        × (derive_effective_roster_digest d (reissued c input slot digest).roster_commitment
            ≡ ok digest)
        × (effective_slots (reissued c input slot digest)
            ≡ ok (set_slot slots input.slot_index (reissued_slot c slot input)))
  unfolding reissue_human_juror_slot
  reissue_human_juror_slot-ok c input slots slot roster e h =
      let after = effective_slots-reissued c input slots slot roster e h in
      let (digest, p, renewed) =
        extend_roster-ok c.roster_commitment (replacement_record d c slot input) _ after in
      let same = slot_at-slot_index slots input.slot_index slot h.found in
      (
        digest,
        bind_ok _ e
            ∙ ap (reissue_slot d c input slots) h.found
            ∙ reissue_slot-ok c input slots slot _ h p,
        renewed,
        after ∙ ap (λ i. ok (set_slot slots i (reissued_slot c slot input))) same,
      )

  reissue_slot-found :
      (c : CasePackage) (input : ReplacementInput) (slots : List RosterSlot) (c' : CasePackage)
      → reissue_slot d c input slots (slot_at slots input.slot_index) ≡ ok c'
      → (slot : RosterSlot) × IsAllowed slots input slot
  unfolding reissue_slot
  reissue_slot-found c input slots c' h = elim (Option-cases (slot_at slots input.slot_index)) [
    | inl e ↦ cc
    | inr (slot, e) ↦ (
      slot,
      reissue_slot-IsAllowed c input slots slot c' e
          (ap (reissue_slot d c input slots) (sym e) ∙ h),
    )
  ]

  -- A reissue is made only when the rules allow it: the slot is an active human slot, the juror
  -- changes, and holds no other slot.
  pub reissue_human_juror_slot-IsAllowed :
      (c : CasePackage) (input : ReplacementInput) (c' : CasePackage)
      → reissue_human_juror_slot d c input ≡ ok c'
      → (slots : List RosterSlot) × (slot : RosterSlot) × (effective_slots c ≡ ok slots)
        × IsAllowed slots input slot
  unfolding reissue_human_juror_slot
  reissue_human_juror_slot-IsAllowed c input c' h =
      let (slots, e, k) = bind_parts (effective_slots c) _ h in
      let (slot, a) = reissue_slot-found c input slots c' k in (slots, slot, e, a)
