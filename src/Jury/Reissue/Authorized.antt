-- ===== src/Jury/Reissue/Authorized.antt =====
-- Who may hand in an opinion after a reissue.
use anti_soon.Prelude.{
  ℕ, zero, suc, ◌+◌, ◌≡◌, ◌≢◌, refl, sym, ap, ◌∙◌, String, some, List, [], ◌∷◌, ok, err, ◌==◌,
  get_elem?, arith, eq_iff, if◌then◌else◌, eq_refl,
}
use anti_soon.Prelude.Results.{bind_ok, ok_unique}
use anti_soon.Jury.Types.{Cohort, human, RosterSlot, CasePackage, slot_not_committed}
use anti_soon.Jury.Digest.{Digests}
use anti_soon.Jury.Roster.{
  set_slot, effective_slots, slot_at, check_slot, assert_roster_slot_authorized, ReplacementInput,
}
use anti_soon.Jury.Roster.Resolve.{IsOrdered, IsRoster, resolve_effective_roster_slots-IsRoster}
use anti_soon.Jury.Reissue.{replacement_record, reissue_human_juror_slot}
use anti_soon.Jury.Reissue.Laws.{
  slot_at-get_elem?, slot_at-slot_index, reissued_slot, reissue_human_juror_slot-ok,
  reissue_human_juror_slot-IsAllowed,
}

slot_at-set_slot :
    (n i j : ℕ) (slots : List RosterSlot) (old new : RosterSlot)
    → IsOrdered n slots
    → get_elem? slots i ≡ some old
    → new.slot_index ≡ n + i
    → slot_at (set_slot slots i new) j ≡ (if n + i == j then some new else slot_at slots j)
slot_at-set_slot n i j [] old new h e p = cc
slot_at-set_slot n zero j (x ∷ xs) old new h e p = ground arith
slot_at-set_slot n (suc i) j (x ∷ xs) old new h e p =
    let shift : n + 1 + i ≡ n + suc i = omega arith in
    let rest : slot_at (set_slot xs i new) j ≡ (if n + suc i == j then some new else slot_at xs j) =
      rw (← shift) (slot_at-set_slot (n + 1) i j xs old new h.3 e (p ∙ sym shift)) in
    ground (arith, rest)

assert_roster_slot_authorized-effective :
    (c : CasePackage) (slots : List RosterSlot) (i : ℕ) (cohort : Cohort) (juror : String)
    → effective_slots c ≡ ok slots
    → assert_roster_slot_authorized c i cohort juror ≡ check_slot (slot_at slots i) cohort juror
unfolding assert_roster_slot_authorized
assert_roster_slot_authorized-effective c slots i cohort juror e = bind_ok _ e

check_slot-refused :
    (slot : RosterSlot) (cohort : Cohort) (juror : String)
    → slot.juror_id ≢ juror
    → check_slot (some slot) cohort juror ≡ err slot_not_committed
unfolding check_slot
check_slot-refused slot cohort juror h = ground (arith, eq_iff slot.juror_id juror)

check_slot-ok :
    (slot : RosterSlot) (juror : String)
    → slot.cohort ≡ human
    → slot.juror_id ≡ juror
    → check_slot (some slot) human juror ≡ ok slot
unfolding check_slot
check_slot-ok slot juror h p = rw (h, p, eq_refl) refl

module _ (d : Digests) where
  -- After a reissue over a committed roster the next juror is authorised for the slot. The juror
  -- who was authorised for it before no longer is, in either cohort, nor is anybody else but the
  -- next juror, and whoever asks for another slot gets the answer of before.
  pub reissue_human_juror_slot-authorized :
      (c : CasePackage) (input : ReplacementInput) (c' : CasePackage)
      → IsRoster c.roster_commitment.slots
      → reissue_human_juror_slot d c input ≡ ok c'
      → (slot held : RosterSlot) × (assert_roster_slot_authorized c' input.slot_index human
            input.next_juror_id
          ≡ ok slot)
        × (assert_roster_slot_authorized c input.slot_index human held.juror_id ≡ ok held)
        × ((cohort : Cohort)
            → assert_roster_slot_authorized c' input.slot_index cohort held.juror_id
              ≡ err slot_not_committed)
        × ((cohort : Cohort) (juror : String)
            → input.next_juror_id ≢ juror
            → assert_roster_slot_authorized c' input.slot_index cohort juror
              ≡ err slot_not_committed)
        × ((i : ℕ) (cohort : Cohort) (juror : String)
            → i ≢ input.slot_index
            → assert_roster_slot_authorized c' i cohort juror
              ≡ assert_roster_slot_authorized c i cohort juror)
  unfolding replacement_record
  reissue_human_juror_slot-authorized c input c' roster h =
      let (slots, slot, e, a) = reissue_human_juror_slot-IsAllowed d c input c' h in
      let (digest, p, renewed, after) =
        reissue_human_juror_slot-ok d c input slots slot roster e a in
      let new = reissued_slot d c slot input in
      let i = input.slot_index in
      let full =
        resolve_effective_roster_slots-IsRoster c.roster_commitment.slots
          c.roster_commitment.human_slot_replacements slots roster e in
      let found : get_elem? slots i ≡ some slot =
        sym (slot_at-get_elem? 0 i slots full.ordered)
        ∙ ap (slot_at slots) (omega arith)
        ∙ a.found in
      let same : new.slot_index ≡ 0 + i = slot_at-slot_index slots i slot a.found ∙ omega arith in
      let lookup = λ (j : ℕ). slot_at-set_slot 0 i j slots slot new full.ordered found same in
      let effective : effective_slots c' ≡ ok (set_slot slots i new) =
        ap effective_slots (ok_unique h p) ∙ after in
      let answer = λ (j : ℕ) (cohort : Cohort) (juror : String).
        assert_roster_slot_authorized-effective c' (set_slot slots i new) j cohort juror
          effective in
      let here : slot_at (set_slot slots i new) i ≡ some new = ground (arith, lookup i) in
      let refused = λ (cohort : Cohort) (juror : String) (n : input.next_juror_id ≢ juror).
        answer i cohort juror
        ∙ ap (λ s. check_slot s cohort juror) here
        ∙ check_slot-refused new cohort juror n in
      (
        new,
        slot,
        answer i human input.next_juror_id
            ∙ ap (λ s. check_slot s human input.next_juror_id) here
            ∙ check_slot-ok new input.next_juror_id a.is_human refl,
        assert_roster_slot_authorized-effective c slots i human slot.juror_id e
            ∙ ap (λ s. check_slot s human slot.juror_id) a.found
            ∙ check_slot-ok slot slot.juror_id a.is_human refl,
        λ cohort. refused cohort slot.juror_id (λ q. a.changes (sym q)),
        refused,
        λ j cohort juror n.
            answer j cohort juror
            ∙ ap (λ s. check_slot s cohort juror) (ground (arith, lookup j))
            ∙ sym (assert_roster_slot_authorized-effective c slots j cohort juror e),
      )
