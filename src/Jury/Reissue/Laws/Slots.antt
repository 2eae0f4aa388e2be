-- ===== src/Jury/Reissue/Laws/Slots.antt =====
-- The slots of a roster by their indexes, and what the rules ask of a reissue.
use anti_soon.Prelude.{
  ℕ, zero, suc, ◌+◌, ◌≡◌, ◌≢◌, refl, String, false, some, List, [], ◌∷◌, get_elem?, arith,
}
use anti_soon.Jury.Types.{human, RosterSlot}
use anti_soon.Jury.Roster.{is_active_elsewhere, slot_at, ReplacementInput, is_held_by_other}
use anti_soon.Jury.Roster.Resolve.{IsOrdered}

-- In a roster the slot of index `n + i` stands at place `i`.
pub slot_at-get_elem? :
    (n i : ℕ) (slots : List RosterSlot)
    → IsOrdered n slots
    → slot_at slots (n + i) ≡ get_elem? slots i
slot_at-get_elem? n i [] h = refl
slot_at-get_elem? n zero (x ∷ xs) h = ground arith
slot_at-get_elem? n (suc i) (x ∷ xs) h =
    let shift : n + 1 + i ≡ n + suc i = omega arith in
    let rest : slot_at xs (n + suc i) ≡ get_elem? xs i =
      rw (← shift) (slot_at-get_elem? (n + 1) i xs h.3) in
    ground arith

pub slot_at-slot_index :
    (slots : List RosterSlot) (i : ℕ) (slot : RosterSlot)
    → slot_at slots i ≡ some slot
    → slot.slot_index ≡ i
slot_at-slot_index [] i slot e = cc
slot_at-slot_index (x ∷ xs) i slot e = ground (arith, slot_at-slot_index xs i slot)

pub is_active_elsewhere-is_held_by_other :
    (n i : ℕ) (juror : String) (slots : List RosterSlot)
    → IsOrdered n slots
    → is_active_elsewhere n i juror slots ≡ is_held_by_other i juror slots
unfolding is_active_elsewhere
is_active_elsewhere-is_held_by_other n i juror [] h = refl
is_active_elsewhere-is_held_by_other n i juror (x ∷ xs) h =
    rw (h.0, is_active_elsewhere-is_held_by_other (n + 1) i juror xs h.3) refl

-- What the rules ask of a reissue: the slot is a human's, the juror changes, and holds no other slot.
pub record IsAllowed (slots : List RosterSlot) (input : ReplacementInput) (slot : RosterSlot)
    : Type 0 where
  pub found : slot_at slots input.slot_index ≡ some slot
  pub is_human : slot.cohort ≡ human
  pub changes : slot.juror_id ≢ input.next_juror_id
  pub is_free : is_held_by_other input.slot_index input.next_juror_id slots ≡ false
