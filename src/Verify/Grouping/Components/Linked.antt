-- ===== src/Verify/Grouping/Components/Linked.antt =====
-- What one search finds: the ids that are linked to its source.
use anti_soon.Prelude.{
  ℕ, ◌+◌, ◌≤◌, ◌≡◌, ◌↔◌, refl, ap, sym, inl, inr, true, false, not, ◌||◌, List, [], ◌∷◌, ◌++◌, some,
  ==_iff, length, arith, Bool-cases, count-le-length,
}
use anti_soon.Prelude.Set.{contains, add}
use anti_soon.Prelude.Members.{
  contains-append, missing-add, times_in, times_in-append, times_in-none,
}
use anti_soon.Verify.Grouping.Components.{Visit, expand, explore}
use anti_soon.Verify.Grouping.Components.Search.{
  scan-visited, scan-stack, scan-component, scan-times, explore_rule,
}

-- A chain of neighbors from one id to another.
pub data Linked (neighbors_of : ℕ → List ℕ) : ℕ → ℕ → Type 0 where
  here : {u v : ℕ} → u ≡ v → Linked neighbors_of u v
  step :
      {u v w : ℕ}
      → Linked neighbors_of u v
      → contains w (neighbors_of v) ≡ true
      → Linked neighbors_of u w

module _ (neighbors_of : ℕ → List ℕ)
    (both_ways : (u w : ℕ)
      → contains w (neighbors_of u) ≡ true
      → contains u (neighbors_of w) ≡ true) where
  pub Linked-trans :
      {u v w : ℕ} → Linked neighbors_of u v → Linked neighbors_of v w → Linked neighbors_of u w
  Linked-trans p (here e) = rw (← e) p
  Linked-trans p (step q n) = step (Linked-trans p q) n

  pub Linked-sym : {u v : ℕ} → Linked neighbors_of u v → Linked neighbors_of v u
  Linked-sym (here e) = here (sym e)
  Linked-sym (step {u} {v} {w} p n) =
      Linked-trans (step (here refl) (both_ways v w n)) (Linked-sym p)

  -- what was visited before the search from `source`
  module _ (before : List ℕ) (source : ℕ) where
    record Inv (s : Visit) : Type 0 where
      covered :
          (w : ℕ)
          → contains w s.visited
            ≡ (contains w before || (contains w s.component || contains w s.stack))
      once : (w : ℕ) → times_in w s.component + times_in w s.stack ≤ 1
      fresh :
          (w : ℕ)
          → (contains w s.component || contains w s.stack) ≡ true
          → contains w before ≡ false
      from_source : (contains source s.component || contains source s.stack) ≡ true
      sound :
          (w : ℕ)
          → (contains w s.component || contains w s.stack) ≡ true
          → Linked neighbors_of source w
      closed :
          (u w : ℕ)
          → contains u s.component ≡ true
          → contains w (neighbors_of u) ≡ true
          → contains w s.visited ≡ true

    Inv-start :
        contains source before ≡ false
        → Inv (record { visited = add source before; stack = source ∷ []; component = [] })
    Inv-start h = record {
      covered = λ w. ground (arith, h, ==_iff source w);
      once = λ w. ground arith;
      fresh = λ w k. ground (arith, h, ==_iff source w);
      from_source = ground (arith, ==_iff source source);
      sound = λ w k. here (ground (arith, ==_iff source w));
      closed = λ u w k n. cc;
    }

    Inv-expand :
        (s : Visit) (u : ℕ) (rest : List ℕ)
        → s.stack ≡ u ∷ rest
        → Inv s
        → Inv (expand neighbors_of s u rest)
    unfolding expand
    Inv-expand s u rest e h =
        let next : Visit = record {
          visited = s.visited;
          stack = rest;
          component = s.component ++ u ∷ [];
        } in
        let es = neighbors_of u in
        let seen = scan-visited next es in
        let put = scan-stack next es in
        let held = λ (w : ℕ). contains-append w s.component (u ∷ []) in
        let same = λ (w : ℕ). ap (contains w) (scan-component next es) in
        let old = λ (w : ℕ). ap (contains w) e in
        let to_u = h.sound u (ground (arith, old u, ==_iff u u)) in
        record {
          covered = λ w. ground (arith, seen w, put w, held w, same w, old w, h.covered w);
          once = λ w. ground (
            arith,
            scan-times next es w,
            times_in-append w s.component (u ∷ []),
            ap (times_in w) (scan-component next es),
            ap (times_in w) e,
            old w,
            h.once w,
            h.covered w,
            times_in-none w s.component,
            times_in-none w s.stack,
            ==_iff u w,
          );
          fresh = λ w k. ground (arith, put w, held w, same w, old w, h.covered w, h.fresh w);
          from_source =
              ground (arith, put source, held source, same source, old source, h.from_source);
          sound = λ w k. elim (Bool-cases (contains w s.component || contains w s.stack)) [
            | inl t ↦ h.sound w t
            | inr f ↦ step to_u (ground (arith, put w, held w, same w, old w, ==_iff u w, f, k))
          ];
          closed = λ x w k n. ground (arith, seen w, held x, same x, h.closed x w, ==_iff u x);
        }

    -- before the search the visited ids are closed under their links
    module _
        (settled : (u w : ℕ)
          → contains u before ≡ true
          → contains w (neighbors_of u) ≡ true
          → contains w before ≡ true) where
      complete :
          (t : Visit)
          → Inv t
          → t.stack ≡ []
          → {w : ℕ} → Linked neighbors_of source w
          → contains w t.component ≡ true
      complete t h e (here {v} p) =
          ground (arith, ap (contains source) e, h.from_source, ap (λ x. contains x t.component) p)
      complete t h e (step {v} {w} p n) =
          let got = complete t h e p in
          ground (
            arith,
            ap (contains w) e,
            h.covered w,
            h.closed v w,
            h.fresh v,
            both_ways v w,
            settled w v,
          )

      -- What the search has found when it ends.
      pub record Finds (t : Visit) : Type 0 where
        pub found_iff : (w : ℕ) → (contains w t.component ≡ true) ↔ Linked neighbors_of source w
        pub once : (w : ℕ) → times_in w t.component ≤ 1
        pub fresh : (w : ℕ) → contains w t.component ≡ true → contains w before ≡ false
        pub grown : (w : ℕ) → contains w t.visited ≡ (contains w before || contains w t.component)
        pub still_settled :
            (u w : ℕ)
            → contains u t.visited ≡ true
            → contains w (neighbors_of u) ≡ true
            → contains w t.visited ≡ true

      Inv-Finds : (t : Visit) → Inv t → t.stack ≡ [] → Finds t
      Inv-Finds t h e = record {
        found_iff = λ w. (λ k. h.sound w (ground arith), complete t h e);
        once = λ w. omega (arith, h.once w);
        fresh = λ w k. h.fresh w (ground arith);
        grown = λ w. ground (arith, h.covered w, ap (contains w) e);
        still_settled = λ u w k n.
            ground (arith, h.covered u, h.covered w, ap (contains u) e, h.closed u w, settled u w);
      }

      pub explore-Finds :
          (ids : List ℕ) (fuel : ℕ)
          → ((u w : ℕ) → contains w (neighbors_of u) ≡ true → contains w ids ≡ true)
          → length ids ≤ fuel
          → contains source ids ≡ true
          → contains source before ≡ false
          → (t : Visit) × (explore neighbors_of fuel
                (record { visited = add source before; stack = source ∷ []; component = [] })
              ≡ some t)
            × Finds t
      explore-Finds ids fuel within enough member new =
          let start : Visit = record {
            visited = add source before;
            stack = source ∷ [];
            component = [];
          } in
          let (t, ends, inv, empty) =
            explore_rule neighbors_of ids within Inv Inv-expand fuel start
              (ground (
                arith,
                missing-add source before ids new member,
                count-le-length (λ x. not (contains x before)) ids,
              ))
              (Inv-start new) in
          (t, ends, Inv-Finds t inv empty)
