-- ===== src/Verify/Grouping/Components/Partition.antt =====
-- The components that the loops end with.
use anti_soon.Prelude.{
  ℕ, ◌≤◌, ◌≡◌, ◌↔◌, refl, inl, inr, true, false, ◌&&◌, List, [], ◌∷◌, some, length, arith,
  Bool-cases, All, both_true,
}
use anti_soon.Prelude.Set.{contains}
use anti_soon.Prelude.Members.{times_in-none}
use anti_soon.Verify.Grouping.Components.{Found, visit_ids}
use anti_soon.Verify.Grouping.Components.Linked.{Linked, Linked-trans, Linked-sym}
use anti_soon.Verify.Grouping.Components.Classes.{share, occurrences, IsClass, visit_ids-Ends}

-- Two ids share a component exactly when they are linked, and every id is in one component, once.
pub record IsPartition (neighbors_of : ℕ → List ℕ) (ids : List ℕ) (cs : List (List ℕ))
    : Type 0 where
  pub share_iff :
      (u v : ℕ) → contains u ids ≡ true → (share u v cs ≡ true) ↔ Linked neighbors_of u v
  pub classes : All (IsClass neighbors_of ids) cs
  pub once : (w : ℕ) → contains w ids ≡ true → occurrences w cs ≡ 1

module _ (neighbors_of : ℕ → List ℕ) (ids : List ℕ) (fuel : ℕ)
    (both_ways : (u w : ℕ)
      → contains w (neighbors_of u) ≡ true
      → contains u (neighbors_of w) ≡ true)
    (within : (u w : ℕ) → contains w (neighbors_of u) ≡ true → contains w ids ≡ true)
    (enough : length ids ≤ fuel) where
  share-Linked :
      (u v : ℕ) (cs : List (List ℕ))
      → All (IsClass neighbors_of ids) cs
      → share u v cs ≡ true
      → Linked neighbors_of u v
  share-Linked u v [] h e = absurd (let t : false ≡ true = e in cc)
  share-Linked u v (c ∷ cs) ((s, _, law), h) e = elim (Bool-cases (contains u c && contains v c)) [
    | inl t ↦
        let (a, b) = both_true (contains u c) _ t in
        Linked-trans neighbors_of both_ways (Linked-sym neighbors_of both_ways ((law u).0 a))
          ((law v).0 b)
    | inr f ↦ share-Linked u v cs h (ground (arith, e, f))
  ]

  Linked-share :
      (u v : ℕ) (cs : List (List ℕ))
      → All (IsClass neighbors_of ids) cs
      → 1 ≤ occurrences u cs
      → Linked neighbors_of u v
      → share u v cs ≡ true
  Linked-share u v [] h n p = absurd (omega arith)
  Linked-share u v (c ∷ cs) ((s, _, law), h) n p = elim (Bool-cases (contains u c)) [
    | inl t ↦
        let other = (law v).1 (Linked-trans neighbors_of both_ways ((law u).0 t) p) in
        ground (arith, t, other)
    | inr f ↦
        let rest = Linked-share u v cs h (omega (arith, times_in-none u c f)) p in
        ground (arith, rest)
  ]

  pub visit_ids-IsPartition :
      (todo : List ℕ)
      → ((w : ℕ) → contains w todo ≡ contains w ids)
      → (g : Found) × (visit_ids neighbors_of fuel todo (record { visited = []; components = [] })
          ≡ some g)
        × IsPartition neighbors_of ids g.components
  visit_ids-IsPartition todo same =
      let (g, e, ends) =
        visit_ids-Ends neighbors_of ids fuel both_ways within enough todo
          (record { visited = []; components = [] })
          (record { classes = tt; once = λ w. refl; settled = λ u w k n. cc })
          (λ w k. ground (arith, same w)) in
      let once = λ (w : ℕ) (k : contains w ids ≡ true).
        (let o : occurrences w g.components ≡ 1 =
            ground (arith, ends.partial.once w, ends.taken w, same w) in
          o) in
      (
        g,
        e,
        record {
          share_iff = λ u v k. (
            share-Linked u v g.components ends.partial.classes,
            Linked-share u v g.components ends.partial.classes (omega (arith, once u k)),
          );
          classes = ends.partial.classes;
          once = once;
        },
      )
