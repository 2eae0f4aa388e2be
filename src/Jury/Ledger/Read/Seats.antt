-- ===== src/Jury/Ledger/Read/Seats.antt =====
-- The order of votes, and the slots that hold them.
use anti_soon.Prelude.{
  ◌≡◌, ◌≢◌, ◌<◌, refl, true, Option, none, some, List, [], ◌∷◌, str_eq, arith, eq_iff, ==_iff, All,
  All-zip, both_true,
}
use anti_soon.Prelude.Sort.{IsSorted, IsComparator}
use anti_soon.Jury.Types.{same_cohort, RosterSlot, OpinionRecord}
use anti_soon.Jury.Roster.Resolve.{same_cohort_eq}
use anti_soon.Jury.Ledger.{by_slot_index}
use anti_soon.Jury.Ledger.Read.{matches_slot}

-- The slots of the records rise.
abbrev pub IsAscending : List OpinionRecord → Type 0
IsAscending [] = Unit
IsAscending (x ∷ xs) = All (λ y. x.slot_index < y.slot_index) xs × IsAscending xs

-- No two records are of one slot.
abbrev pub HasDistinctSlots : List OpinionRecord → Type 0
HasDistinctSlots [] = Unit
HasDistinctSlots (x ∷ xs) = All (λ y. x.slot_index ≢ y.slot_index) xs × HasDistinctSlots xs

-- The record is of the juror who holds its slot.
pub record IsHeldBy (r : OpinionRecord) (slot : RosterSlot) : Type 0 where
  pub same_cohort : slot.cohort ≡ r.cohort
  pub same_cohort_slot : slot.cohort_slot_index ≡ r.cohort_slot_index
  pub same_juror : slot.juror_id ≡ r.juror_id

pub matches_slot-IsHeldBy :
    (o : Option RosterSlot) (r : OpinionRecord)
    → matches_slot o r ≡ true
    → (slot : RosterSlot) × (o ≡ some slot) × IsHeldBy r slot
unfolding matches_slot
matches_slot-IsHeldBy none r h = cc
matches_slot-IsHeldBy (some slot) r h =
    let (ab, e) = both_true _ (str_eq slot.juror_id r.juror_id) h in
    let (a, b) = both_true (same_cohort slot.cohort r.cohort) _ ab in
    (
      slot,
      refl,
      record {
        same_cohort = same_cohort_eq slot.cohort r.cohort a;
        same_cohort_slot = (==_iff _ _).0 b;
        same_juror = (eq_iff _ _).0 e;
      },
    )

pub by_slot_index-IsComparator : IsComparator by_slot_index
by_slot_index-IsComparator = record {
  total = λ x y e. ground arith;
  trans = λ x y z h k. ground arith;
}

pub IsAscending-of_sorted :
    (rs : List OpinionRecord) → IsSorted by_slot_index rs → HasDistinctSlots rs → IsAscending rs
IsAscending-of_sorted [] h k = tt
IsAscending-of_sorted (r ∷ rs) h k =
    (All-zip (λ x p q. ground arith) rs h.0 k.0, IsAscending-of_sorted rs h.1 k.1)
