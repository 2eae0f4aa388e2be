-- ===== src/Jury/Roster/Append.antt =====
-- One more replacement after those that a roster has.
use anti_soon.Prelude.{
  ◌≡◌, refl, ap, ◌∙◌, true, false, some, List, [], ◌∷◌, ◌++◌, ok, ◌==◌, str_eq, get_elem?, eq_iff,
  ==_iff,
}
use anti_soon.Prelude.Results.{◌>>=◌, bind_parts, >>=-ok, ok_unique}
use anti_soon.Jury.Types.{human, same_cohort, RosterSlot, Replacement}
use anti_soon.Jury.Roster.{
  set_slot, is_active_elsewhere, replace_at, apply_replacement, apply_replacements,
  resolve_effective_roster_slots,
}
use anti_soon.Jury.Roster.Resolve.{reassign}

apply_replacements-snoc :
    (slots : List RosterSlot) (rs : List Replacement) (r : Replacement) (mid : List RosterSlot)
    → apply_replacements slots rs ≡ ok mid
    → apply_replacements slots (rs ++ r ∷ []) ≡ apply_replacement mid r
unfolding apply_replacements
apply_replacements-snoc slots [] r mid e =
    ap (λ x. apply_replacement x r >>= λ next. ok next) (ok_unique refl e)
    ∙ >>=-ok (apply_replacement mid r)
apply_replacements-snoc slots (q ∷ qs) r mid e =
    let (next, p, k) = bind_parts (apply_replacement slots q) _ e in
    rw p (apply_replacements-snoc next qs r mid k)

-- The replacement fits the slot that it changes.
pub record Fits (slots : List RosterSlot) (r : Replacement) (slot : RosterSlot) : Type 0 where
  pub found : get_elem? slots r.slot_index ≡ some slot
  pub is_human : slot.cohort ≡ human
  pub same_slot : slot.cohort_slot_index ≡ r.cohort_slot_index
  pub was_active : slot.juror_id ≡ r.previous_juror_id
  pub inactive : is_active_elsewhere 0 r.slot_index r.next_juror_id slots ≡ false

apply_replacement-Fits :
    (slots : List RosterSlot) (r : Replacement) (slot : RosterSlot)
    → Fits slots r slot
    → apply_replacement slots r ≡ ok (set_slot slots r.slot_index (reassign slot r))
unfolding apply_replacement replace_at
apply_replacement-Fits slots r slot h =
    let a : same_cohort slot.cohort human ≡ true = rw (h.is_human) refl in
    let b : (slot.cohort_slot_index == r.cohort_slot_index) ≡ true = (==_iff _ _).1 h.same_slot in
    let c : str_eq slot.juror_id r.previous_juror_id ≡ true = (eq_iff _ _).1 h.was_active in
    rw (h.found, a, b, c, h.inactive) refl

pub resolve_effective_roster_slots-append :
    (slots : List RosterSlot) (rs : List Replacement) (mid : List RosterSlot) (r : Replacement)
    (slot : RosterSlot)
    → resolve_effective_roster_slots slots rs ≡ ok mid
    → Fits mid r slot
    → resolve_effective_roster_slots slots (rs ++ r ∷ [])
      ≡ ok (set_slot mid r.slot_index (reassign slot r))
unfolding resolve_effective_roster_slots
resolve_effective_roster_slots-append slots rs mid r slot e h =
    apply_replacements-snoc slots rs r mid e ∙ apply_replacement-Fits mid r slot h
