-- ===== src/Jury/Roster/Resolve.antt =====
-- The effective roster is a roster again: same slots in the same order, no juror twice.
use anti_soon.Prelude.{
  ℕ, zero, suc, ◌+◌, ◌<◌, ◌≡◌, ◌≢◌, refl, String, true, false, not, some, List, [], ◌∷◌, ok, ◌==◌,
  str_eq, get_elem?, length, arith, eq_iff, if◌then◌else◌, ltb, ap, ◌∙◌, sym, subst, ◌-◌,
  Option-cases, inl, inr,
}
use anti_soon.Prelude.Results.{bind_parts, demand_then, ok_unique}
use anti_soon.Jury.Types.{Cohort, llm, human, same_cohort, RosterSlot, Replacement}
use anti_soon.Jury.Roster.{
  set_slot, is_active_elsewhere, replace_at, apply_replacement, apply_replacements,
  resolve_effective_roster_slots,
}

abbrev pub expected_cohort : ℕ → Cohort
expected_cohort n = if ltb n 5 then llm else human

abbrev pub expected_cohort_slot : ℕ → ℕ
expected_cohort_slot n = if ltb n 5 then n else n - 5

-- The slots are numbered from `n` on, the first five of all are the LLM jurors'.
abbrev pub IsOrdered : ℕ → List RosterSlot → Type 0
IsOrdered n [] = Unit
IsOrdered n (x ∷ xs) =
    (x.slot_index ≡ n)
    × (x.cohort ≡ expected_cohort n)
    × (x.cohort_slot_index ≡ expected_cohort_slot n)
    × IsOrdered (n + 1) xs

abbrev pub IsAbsent : String → List RosterSlot → Type 0
IsAbsent juror [] = Unit
IsAbsent juror (x ∷ xs) = (x.juror_id ≢ juror) × IsAbsent juror xs

-- No juror holds two slots.
abbrev pub IsDistinct : List RosterSlot → Type 0
IsDistinct [] = Unit
IsDistinct (x ∷ xs) = IsAbsent x.juror_id xs × IsDistinct xs

pub record IsRoster (slots : List RosterSlot) : Type 0 where
  pub ordered : IsOrdered 0 slots
  pub distinct : IsDistinct slots
  pub ten : length slots ≡ 10

set_slot-IsOrdered :
    (n : ℕ) (slots : List RosterSlot) (i : ℕ) (old new : RosterSlot)
    → IsOrdered n slots
    → get_elem? slots i ≡ some old
    → new.slot_index ≡ old.slot_index
    → new.cohort ≡ old.cohort
    → new.cohort_slot_index ≡ old.cohort_slot_index
    → IsOrdered n (set_slot slots i new)
set_slot-IsOrdered n [] i old new h e p q r = tt
set_slot-IsOrdered n (x ∷ xs) zero old new h e p q r = ground arith
set_slot-IsOrdered n (x ∷ xs) (suc i) old new h e p q r =
    (h.0, h.1, h.2, set_slot-IsOrdered (n + 1) xs i old new h.3 e p q r)

length-set_slot :
    (slots : List RosterSlot) (i : ℕ) (new : RosterSlot)
    → length (set_slot slots i new) ≡ length slots
length-set_slot [] i new = refl
length-set_slot (x ∷ xs) zero new = refl
length-set_slot (x ∷ xs) (suc i) new = ap suc (length-set_slot xs i new)

-- `n` is where the list begins
IsAbsent-of_inactive :
    (n i : ℕ) (juror : String) (slots : List RosterSlot)
    → i < n
    → is_active_elsewhere n i juror slots ≡ false
    → IsAbsent juror slots
unfolding is_active_elsewhere
IsAbsent-of_inactive n i juror [] h e = tt
IsAbsent-of_inactive n i juror (x ∷ xs) h e =
    ground (arith, eq_iff x.juror_id juror, IsAbsent-of_inactive (n + 1) i juror xs)

set_slot-IsAbsent :
    (juror : String) (slots : List RosterSlot) (i : ℕ) (new : RosterSlot)
    → IsAbsent juror slots
    → new.juror_id ≢ juror
    → IsAbsent juror (set_slot slots i new)
set_slot-IsAbsent juror [] i new h p = tt
set_slot-IsAbsent juror (x ∷ xs) zero new h p = (p, h.1)
set_slot-IsAbsent juror (x ∷ xs) (suc i) new h p = (h.0, set_slot-IsAbsent juror xs i new h.1 p)

-- `m` is where the list begins, and `m + i` the place that is written
set_slot-IsDistinct :
    (m i : ℕ) (slots : List RosterSlot) (new : RosterSlot)
    → IsDistinct slots
    → is_active_elsewhere m (m + i) new.juror_id slots ≡ false
    → IsDistinct (set_slot slots i new)
unfolding is_active_elsewhere
set_slot-IsDistinct m i [] new h e = tt
set_slot-IsDistinct m zero (x ∷ xs) new h e =
    (IsAbsent-of_inactive (m + 1) (m + 0) new.juror_id xs (omega arith) (ground arith), h.1)
set_slot-IsDistinct m (suc i) (x ∷ xs) new h e =
    let shift : m + suc i ≡ m + 1 + i = omega arith in
    (
      set_slot-IsAbsent x.juror_id xs i new h.0
          (λ q. ground (arith, eq_iff x.juror_id new.juror_id)),
      set_slot-IsDistinct (m + 1) i xs new h.1 (rw (← shift) (ground arith)),
    )

-- The slot `slot` becomes the next juror's.
abbrev pub reassign : RosterSlot → Replacement → RosterSlot
reassign slot r = record slot {
  juror_id = r.next_juror_id;
  assignment_digest = r.replacement_digest;
}

-- What a replacement that is applied has found, and what it leaves.
pub record IsApplied (slots : List RosterSlot) (r : Replacement) (next : List RosterSlot)
    : Type 0 where
  pub slot : RosterSlot
  pub found : get_elem? slots r.slot_index ≡ some slot
  pub is_human : slot.cohort ≡ human
  pub was_active : slot.juror_id ≡ r.previous_juror_id
  pub inactive : is_active_elsewhere 0 r.slot_index r.next_juror_id slots ≡ false
  pub result : next ≡ set_slot slots r.slot_index (reassign slot r)

pub same_cohort_eq : (c e : Cohort) → same_cohort c e ≡ true → c ≡ e
same_cohort_eq llm llm h = refl
same_cohort_eq human human h = refl
same_cohort_eq llm human h = cc
same_cohort_eq human llm h = cc

replace_at-IsApplied :
    (slots : List RosterSlot) (r : Replacement) (slot : RosterSlot) (next : List RosterSlot)
    → get_elem? slots r.slot_index ≡ some slot
    → replace_at slots r (some slot) ≡ ok next
    → IsApplied slots r next
unfolding replace_at
replace_at-IsApplied slots r slot next e h =
    let a = demand_then (same_cohort slot.cohort human) _ _ h in
    let b = demand_then (slot.cohort_slot_index == r.cohort_slot_index) _ _ a.1 in
    let c = demand_then (str_eq slot.juror_id r.previous_juror_id) _ _ b.1 in
    let d = demand_then (not (is_active_elsewhere 0 r.slot_index r.next_juror_id slots)) _ _ c.1 in
    record {
      slot = slot;
      found = e;
      is_human = same_cohort_eq slot.cohort human a.0;
      was_active = ground (arith, eq_iff slot.juror_id r.previous_juror_id, c);
      inactive = ground (arith, d);
      result = cc;
    }

pub apply_replacement-IsApplied :
    (slots : List RosterSlot) (r : Replacement) (next : List RosterSlot)
    → apply_replacement slots r ≡ ok next
    → IsApplied slots r next
unfolding apply_replacement replace_at
apply_replacement-IsApplied slots r next h = elim (Option-cases (get_elem? slots r.slot_index)) [
  | inl e ↦ cc
  | inr (slot, e) ↦ replace_at-IsApplied slots r slot next e (ap (replace_at slots r) (sym e) ∙ h)
]

apply_replacement-IsRoster :
    (slots : List RosterSlot) (r : Replacement) (next : List RosterSlot)
    → IsRoster slots
    → apply_replacement slots r ≡ ok next
    → IsRoster next
apply_replacement-IsRoster slots r next h e =
    let a = apply_replacement-IsApplied slots r next e in
    let new = reassign a.slot r in
    let shift : 0 + r.slot_index ≡ r.slot_index = omega arith in
    subst IsRoster (sym a.result) (record {
      ordered = set_slot-IsOrdered 0 slots r.slot_index a.slot new h.ordered a.found refl refl refl;
      distinct = set_slot-IsDistinct 0 r.slot_index slots new h.distinct (rw shift a.inactive);
      ten = length-set_slot slots r.slot_index new ∙ h.ten;
    })

apply_replacements-IsRoster :
    (slots : List RosterSlot) (rs : List Replacement) (next : List RosterSlot)
    → IsRoster slots
    → apply_replacements slots rs ≡ ok next
    → IsRoster next
unfolding apply_replacements
apply_replacements-IsRoster slots [] next h e = subst IsRoster (ok_unique refl e) h
apply_replacements-IsRoster slots (r ∷ rs) next h e =
    let (mid, p, q) = bind_parts (apply_replacement slots r) _ e in
    apply_replacements-IsRoster mid rs next (apply_replacement-IsRoster slots r mid h p) q

-- When the replacements of a roster all apply, what is in effect is a roster again: ten slots in
-- the committed order, the first five the LLM jurors', and no juror in two of them.
pub resolve_effective_roster_slots-IsRoster :
    (slots : List RosterSlot) (replacements : List Replacement) (effective : List RosterSlot)
    → IsRoster slots
    → resolve_effective_roster_slots slots replacements ≡ ok effective
    → IsRoster effective
unfolding resolve_effective_roster_slots
resolve_effective_roster_slots-IsRoster slots rs effective h e =
    apply_replacements-IsRoster slots rs effective h e
