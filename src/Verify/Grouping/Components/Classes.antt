-- ===== src/Verify/Grouping/Components/Classes.antt =====
-- All searches: the components are the classes of linked ids, and every id is in one of them, once.
use anti_soon.Prelude.{
  ℕ, ◌+◌, ◌≤◌, ◌≡◌, ◌↔◌, refl, inl, inr, Bool, true, false, ◌&&◌, ◌||◌, List, [], ◌∷◌, ◌++◌, some,
  ◌==◌, ==_iff, length, arith, Bool-cases, if◌then◌else◌, All, All-append,
}
use anti_soon.Prelude.Set.{contains}
use anti_soon.Prelude.Sort.{sort, count-sort}
use anti_soon.Prelude.Members.{contains-sort, times_in, times_in-none, times_in-some}
use anti_soon.Verify.Grouping.Components.{Found, visit_id, visit_ids, compare_submission_ids}
use anti_soon.Verify.Grouping.Components.Linked.{Linked, explore-Finds}

-- Two ids stand in one of the components.
abbrev pub share : ℕ → ℕ → List (List ℕ) → Bool
share u v [] = false
share u v (c ∷ cs) = contains u c && contains v c || share u v cs

-- How often an id stands in the components.
abbrev pub occurrences : ℕ → List (List ℕ) → ℕ
occurrences w [] = 0
occurrences w (c ∷ cs) = times_in w c + occurrences w cs

occurrences-snoc :
    (w : ℕ) (cs : List (List ℕ)) (c : List ℕ)
    → occurrences w (cs ++ c ∷ []) ≡ occurrences w cs + times_in w c
occurrences-snoc w [] c = omega arith
occurrences-snoc w (d ∷ cs) c = omega (arith, occurrences-snoc w cs c)

-- The component of one of the ids: all that is linked to it.
abbrev pub IsClass : (neighbors_of : ℕ → List ℕ) → List ℕ → List ℕ → Type 0
IsClass neighbors_of ids c =
    (s : ℕ) × (contains s ids ≡ true) × ((w : ℕ) → (contains w c ≡ true) ↔ Linked neighbors_of s w)

module _ (neighbors_of : ℕ → List ℕ) (ids : List ℕ) (fuel : ℕ)
    (both_ways : (u w : ℕ)
      → contains w (neighbors_of u) ≡ true
      → contains u (neighbors_of w) ≡ true)
    (within : (u w : ℕ) → contains w (neighbors_of u) ≡ true → contains w ids ≡ true)
    (enough : length ids ≤ fuel) where
  pub record IsPartial (f : Found) : Type 0 where
    pub classes : All (IsClass neighbors_of ids) f.components
    pub once : (w : ℕ) → occurrences w f.components ≡ (if contains w f.visited then 1 else 0)
    pub settled :
        (u w : ℕ)
        → contains u f.visited ≡ true
        → contains w (neighbors_of u) ≡ true
        → contains w f.visited ≡ true

  -- What a step of the loop over the ids comes to.
  record Steps (id : ℕ) (f g : Found) : Type 0 where
    partial : IsPartial g
    taken : contains id g.visited ≡ true
    grows : (w : ℕ) → contains w f.visited ≡ true → contains w g.visited ≡ true

  visit_id-Steps :
      (f : Found) (id : ℕ)
      → IsPartial f
      → contains id ids ≡ true
      → (g : Found) × (visit_id neighbors_of fuel f id ≡ some g) × Steps id f g
  unfolding visit_id
  visit_id-Steps f id p member = elim (Bool-cases (contains id f.visited)) [
    | inl old ↦ (f, rw old, record { partial = p; taken = old; grows = λ w h. h })
    | inr new ↦
        let (t, ends, finds) =
          explore-Finds neighbors_of both_ways f.visited id p.settled ids fuel within enough member
            new in
        let c = sort compare_submission_ids t.component in
        let g : Found = record { visited = t.visited; components = f.components ++ c ∷ [] } in
        let held = λ (w : ℕ). contains-sort compare_submission_ids w t.component in
        (
          g,
          ground (arith, new, ends),
          record {
            partial = record {
              classes =
                  All-append (IsClass neighbors_of ids) f.components (c ∷ []) p.classes
                    ((id, member, λ w. rw (held w) (finds.found_iff w)), tt);
              once = λ w. ground (
                arith,
                occurrences-snoc w f.components c,
                count-sort compare_submission_ids (λ x. x == w) t.component,
                finds.once w,
                finds.grown w,
                p.once w,
                times_in-none w t.component,
                times_in-some w t.component,
                finds.fresh w,
              );
              settled = finds.still_settled;
            };
            taken = ground (arith, finds.grown id, (finds.found_iff id).1 (Linked.here refl));
            grows = λ w h. ground (arith, finds.grown w);
          },
        )
  ]

  -- All ids that the loop goes through are visited in the end.
  pub record Ends (todo : List ℕ) (f g : Found) : Type 0 where
    pub partial : IsPartial g
    pub taken : (w : ℕ) → contains w todo ≡ true → contains w g.visited ≡ true
    pub grows : (w : ℕ) → contains w f.visited ≡ true → contains w g.visited ≡ true

  pub visit_ids-Ends :
      (todo : List ℕ) (f : Found)
      → IsPartial f
      → ((w : ℕ) → contains w todo ≡ true → contains w ids ≡ true)
      → (g : Found) × (visit_ids neighbors_of fuel todo f ≡ some g) × Ends todo f g
  unfolding visit_ids
  visit_ids-Ends [] f p h = (f, refl, record { partial = p; taken = λ w k. cc; grows = λ w k. k })
  visit_ids-Ends (id ∷ todo) f p h =
      let (f', e, s) = visit_id-Steps f id p (h id (ground (arith, ==_iff id id))) in
      let (g, e', r) = visit_ids-Ends todo f' s.partial (λ w k. h w (ground arith)) in
      (
        g,
        ground (arith, e, e'),
        record {
          partial = r.partial;
          taken = λ w k. ground (arith, r.taken w, ==_iff id w, s.taken, r.grows id);
          grows = λ w k. r.grows w (s.grows w k);
        },
      )
