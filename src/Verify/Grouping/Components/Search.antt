-- ===== src/Verify/Grouping/Components/Search.antt =====
-- One search: it ends, and finds what is linked to its source.
use mathlib.Core.List.{foldl}
use anti_soon.Prelude.{
  ℕ, zero, suc, ◌+◌, ◌≤◌, ◌≡◌, refl, ap, inl, inr, true, not, ◌&&◌, ◌||◌, List, [], ◌∷◌, ◌++◌, some,
  ==_iff, length, arith, List-cases, if◌then◌else◌,
}
use anti_soon.Prelude.Set.{contains}
use anti_soon.Prelude.Members.{missing, missing-add, times_in}
use anti_soon.Verify.Grouping.Components.{Visit, offer, expand, explore}

-- the loop over the neighbors
abbrev pub scan : Visit → List ℕ → Visit
scan = foldl offer

pub scan-visited :
    (s : Visit) (es : List ℕ) (w : ℕ)
    → contains w (scan s es).visited ≡ (contains w s.visited || contains w es)
unfolding offer
scan-visited s [] w = ground arith
scan-visited s (v ∷ es) w = ground (arith, scan-visited (offer s v) es w, ==_iff v w)

pub scan-stack :
    (s : Visit) (es : List ℕ) (w : ℕ)
    → contains w (scan s es).stack
      ≡ (contains w s.stack || (contains w es && not (contains w s.visited)))
unfolding offer
scan-stack s [] w = ground arith
scan-stack s (v ∷ es) w = ground (arith, scan-stack (offer s v) es w, ==_iff v w)

pub scan-component : (s : Visit) (es : List ℕ) → (scan s es).component ≡ s.component
unfolding offer
scan-component s [] = refl
scan-component s (v ∷ es) = ground (arith, scan-component (offer s v) es)

-- what is new goes on the stack once
pub scan-times :
    (s : Visit) (es : List ℕ) (w : ℕ)
    → times_in w (scan s es).stack
      ≡ times_in w s.stack + (if contains w es && not (contains w s.visited) then 1 else 0)
unfolding offer
scan-times s [] w = ground arith
scan-times s (v ∷ es) w = ground (arith, scan-times (offer s v) es w, ==_iff v w)

module _ (ids : List ℕ) where
  -- what is left to do: ids to visit, and visited ids to take up
  abbrev pub work : Visit → ℕ
  work s = missing s.visited ids + length s.stack

  scan-work :
      (s : Visit) (es : List ℕ)
      → ((w : ℕ) → contains w es ≡ true → contains w ids ≡ true)
      → work (scan s es) ≤ work s
  unfolding offer
  scan-work s [] h = omega arith
  scan-work s (v ∷ es) h = ground (
    arith,
    scan-work (offer s v) es (λ w k. h w (ground arith)),
    missing-add v s.visited ids,
    h v,
    ==_iff v v,
  )

module _ (neighbors_of : ℕ → List ℕ) (ids : List ℕ)
    (within : (u w : ℕ) → contains w (neighbors_of u) ≡ true → contains w ids ≡ true) where
  -- With fuel for the work the search ends, with what its rounds keep.
  pub explore_rule {κ} :
      (P : Visit → Type κ)
      → ((s : Visit) (u : ℕ) (rest : List ℕ)
          → s.stack ≡ u ∷ rest
          → P s
          → P (expand neighbors_of s u rest))
      → (fuel : ℕ) (s : Visit) → work ids s ≤ fuel
      → P s
      → (t : Visit) × (explore neighbors_of fuel s ≡ some t) × P t × (t.stack ≡ [])
  unfolding explore expand
  explore_rule P keep zero s h p = elim (List-cases s.stack) [
    | inl e ↦ (s, ground arith, p, e)
    | inr (u, rest, e) ↦ absurd (omega (arith, ap length e))
  ]
  explore_rule P keep (suc fuel) s h p = elim (List-cases s.stack) [
    | inl e ↦ (s, ground arith, p, e)
    | inr (u, rest, e) ↦
        let next : Visit = record {
          visited = s.visited;
          stack = rest;
          component = s.component ++ u ∷ [];
        } in
        let fewer = scan-work ids next (neighbors_of u) (within u) in
        let (t, ends, q, empty) =
          explore_rule P keep fuel (expand neighbors_of s u rest) (omega (arith, ap length e))
            (keep s u rest e p) in
        (t, ground arith, q, empty)
  ]
