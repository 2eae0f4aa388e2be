-- ===== src/Jury/Roster/Order.antt =====
-- `assertRosterSlotOrder` of main.ts, which every committed roster has passed, lets exactly the rosters
-- through.
use anti_soon.Prelude.{
  ℕ, ◌+◌, ◌-◌, ◌≡◌, ◌↔◌, refl, sym, ap, ◌∙◌, String, true, false, not, List, [], ◌∷◌, Result, ok,
  ◌==◌, ltb, length, map, arith, eq_iff, ==_iff, if◌then◌else◌, All,
}
use anti_soon.Prelude.Set.{contains_text, add_text}
use anti_soon.Prelude.Results.{◌>>◌, demand, demand_then, demand_holds, bind_parts, bind_ok}
use anti_soon.Jury.Types.{
  Cohort, llm, human, same_cohort, RosterSlot, JuryError, wrong_slot_count, misnumbered_slot,
  misplaced_cohort, misplaced_cohort_slot, duplicate_juror,
}
use anti_soon.Jury.Roster.Resolve.{
  expected_cohort, expected_cohort_slot, IsOrdered, IsAbsent, IsDistinct, IsRoster, same_cohort_eq,
}

unfoldable pub assert_unique_juror_ids : List String → List String → Result JuryError (Unit {0})
assert_unique_juror_ids seen [] = ok tt
assert_unique_juror_ids seen (x ∷ xs) =
    demand (not (contains_text x seen)) (duplicate_juror x)
    >> assert_unique_juror_ids (add_text x seen) xs

-- the loop over the slots, from index `n` on
unfoldable pub assert_slots_in_order : ℕ → List RosterSlot → Result JuryError (Unit {0})
assert_slots_in_order n [] = ok tt
assert_slots_in_order n (x ∷ xs) = do
  demand (x.slot_index == n) (misnumbered_slot n)
  demand (same_cohort x.cohort (if ltb n 5 then llm else human)) (misplaced_cohort n)
  demand (x.cohort_slot_index == (if ltb n 5 then n else n - 5)) (misplaced_cohort_slot n)
  assert_slots_in_order (n + 1) xs

unfoldable pub assert_roster_slot_order : List RosterSlot → Result JuryError (Unit {0})
unfolding assert_slots_in_order assert_unique_juror_ids
assert_roster_slot_order slots = do
  demand (length slots == 10) wrong_slot_count
  assert_slots_in_order 0 slots
  assert_unique_juror_ids [] (map (λ slot. slot.juror_id) slots)

assert_slots_in_order-IsOrdered :
    (n : ℕ) (slots : List RosterSlot) → assert_slots_in_order n slots ≡ ok tt → IsOrdered n slots
unfolding assert_slots_in_order
assert_slots_in_order-IsOrdered n [] h = tt
assert_slots_in_order-IsOrdered n (x ∷ xs) h =
    let (a, h1) = demand_then (x.slot_index == n) _ _ h in
    let (b, h2) = demand_then (same_cohort x.cohort (expected_cohort n)) _ _ h1 in
    let (e, h3) = demand_then (x.cohort_slot_index == expected_cohort_slot n) _ _ h2 in
    (
      (==_iff _ _).0 a,
      same_cohort_eq x.cohort (expected_cohort n) b,
      (==_iff _ _).0 e,
      assert_slots_in_order-IsOrdered (n + 1) xs h3,
    )

-- nobody of `slots` has been seen
AllUnseen : List String → List RosterSlot → Type 0
AllUnseen seen slots = All (λ slot. contains_text slot.juror_id seen ≡ false) slots

unseen_rest :
    (juror : String) (seen : List String) (slots : List RosterSlot)
    → contains_text juror seen ≡ false
    → AllUnseen (add_text juror seen) slots
    → IsAbsent juror slots × AllUnseen seen slots
unfolding AllUnseen
unseen_rest juror seen [] e h = (tt, tt)
unseen_rest juror seen (x ∷ xs) e h =
    let (a, b) = unseen_rest juror seen xs e h.1 in
    let first : contains_text x.juror_id (juror ∷ seen) ≡ false =
      ap (λ t. contains_text x.juror_id (if t then seen else juror ∷ seen)) (sym e) ∙ h.0 in
    ((λ q. ground (arith, first, eq_iff juror x.juror_id), a), (ground (arith, first), b))

assert_unique_juror_ids-IsDistinct :
    (seen : List String) (slots : List RosterSlot)
    → assert_unique_juror_ids seen (map (λ slot. slot.juror_id) slots) ≡ ok tt
    → IsDistinct slots × AllUnseen seen slots
unfolding assert_unique_juror_ids AllUnseen
assert_unique_juror_ids-IsDistinct seen [] h = (tt, tt)
assert_unique_juror_ids-IsDistinct seen (x ∷ xs) h =
    let (a, h1) = demand_then (not (contains_text x.juror_id seen)) _ _ h in
    let (distinct, unseen) = assert_unique_juror_ids-IsDistinct (add_text x.juror_id seen) xs h1 in
    let new : contains_text x.juror_id seen ≡ false = ground (arith, a) in
    let (absent, rest) = unseen_rest x.juror_id seen xs new unseen in
    ((absent, distinct), (new, rest))

assert_roster_slot_order-IsRoster :
    (slots : List RosterSlot) → assert_roster_slot_order slots ≡ ok tt → IsRoster slots
unfolding assert_roster_slot_order
assert_roster_slot_order-IsRoster slots h =
    let (a, h1) = demand_then (length slots == 10) _ _ h in
    let (_, order, unique) = bind_parts (assert_slots_in_order 0 slots) _ h1 in
    record {
      ordered = assert_slots_in_order-IsOrdered 0 slots order;
      distinct = (assert_unique_juror_ids-IsDistinct [] slots unique).0;
      ten = (==_iff _ _).0 a;
    }

same_cohort_of : {k e : Cohort} → k ≡ e → same_cohort k e ≡ true
same_cohort_of {k = llm} h = ap (same_cohort llm) (sym h)
same_cohort_of {k = human} h = ap (same_cohort human) (sym h)

assert_slots_in_order-ok :
    (n : ℕ) (slots : List RosterSlot) → IsOrdered n slots → assert_slots_in_order n slots ≡ ok tt
unfolding assert_slots_in_order
assert_slots_in_order-ok n [] h = refl
assert_slots_in_order-ok n (x ∷ xs) h =
    demand_holds {c = x.slot_index == n} _ _ ((==_iff _ _).1 h.0)
    ∙ demand_holds {c = same_cohort x.cohort (expected_cohort n)} _ _ (same_cohort_of h.1)
    ∙ demand_holds {c = x.cohort_slot_index == expected_cohort_slot n} _ _ ((==_iff _ _).1 h.2)
    ∙ assert_slots_in_order-ok (n + 1) xs h.3

seen_rest :
    (juror : String) (seen : List String) (slots : List RosterSlot)
    → contains_text juror seen ≡ false
    → IsAbsent juror slots
    → AllUnseen seen slots
    → AllUnseen (add_text juror seen) slots
unfolding AllUnseen
seen_rest juror seen [] e a h = tt
seen_rest juror seen (x ∷ xs) e a h = (
  ap (λ t. contains_text x.juror_id (if t then seen else juror ∷ seen)) e
      ∙ ground (arith, h.0, a.0, eq_iff juror x.juror_id),
  seen_rest juror seen xs e a.1 h.1,
)

assert_unique_juror_ids-ok :
    (seen : List String) (slots : List RosterSlot)
    → IsDistinct slots
    → AllUnseen seen slots
    → assert_unique_juror_ids seen (map (λ slot. slot.juror_id) slots) ≡ ok tt
unfolding assert_unique_juror_ids AllUnseen
assert_unique_juror_ids-ok seen [] h u = refl
assert_unique_juror_ids-ok seen (x ∷ xs) h u =
    demand_holds {c = not (contains_text x.juror_id seen)} _ _ (ap not u.0)
    ∙ assert_unique_juror_ids-ok (add_text x.juror_id seen) xs h.1
        (seen_rest x.juror_id seen xs u.0 h.0 u.1)

all_unseen : (slots : List RosterSlot) → AllUnseen [] slots
unfolding AllUnseen
all_unseen [] = tt
all_unseen (x ∷ xs) = (refl, all_unseen xs)

-- The check of the order lets through exactly the rosters: ten slots in order, the first five the
-- LLM jurors', and no juror in two of them.
pub assert_roster_slot_order_iff :
    (slots : List RosterSlot) → (assert_roster_slot_order slots ≡ ok tt) ↔ IsRoster slots
unfolding assert_roster_slot_order
assert_roster_slot_order_iff slots = (
  assert_roster_slot_order-IsRoster slots,
  λ h.
      demand_holds {c = length slots == 10} _ _ ((==_iff _ _).1 h.ten)
      ∙ bind_ok _ (assert_slots_in_order-ok 0 slots h.ordered)
      ∙ assert_unique_juror_ids-ok [] slots h.distinct (all_unseen slots),
)
