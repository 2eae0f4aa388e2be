-- ===== src/Verify/Grouping/Build/Chains.antt =====
-- The components, by chains of similar submissions.
use anti_soon.Prelude.{
  ℕ, ◌≤◌, ◌≡◌, refl, ap, sym, ◌∙◌, true, ◌&&◌, List, [], ◌∷◌, some, arith, if◌then◌else◌, All,
  length, map, ltb,
}
use anti_soon.Prelude.Set.{contains}
use anti_soon.Prelude.Members.{times_in, contains-times}
use anti_soon.Prelude.Totals.{total}
use anti_soon.Verify.Grouping.Floats.{Floats}
use anti_soon.Verify.Grouping.Similarity.{Submission}
use anti_soon.Verify.Grouping.Components.{Pairs, by_id, resolve, compute_connected_components}
use anti_soon.Verify.Grouping.Components.Adjacency.{ids_of, links}
use anti_soon.Verify.Grouping.Components.Linked.{Linked}
use anti_soon.Verify.Grouping.Components.Classes.{IsClass, share, occurrences}
use anti_soon.Verify.Grouping.Components.Partition.{IsPartition}
use anti_soon.Verify.Grouping.Components.Exact.{
  neighbors_in, contains-neighbors_in, links-within, length-ids_of, component_ids-IsPartition,
}
use anti_soon.Verify.Grouping.Build.Pairwise.{alike}
use anti_soon.Verify.Grouping.Build.Members.{by_id-IsAt, resolve-ids, All-of_contains, IsUnordered}

-- both ids are in the component
abbrev pub both : ℕ → ℕ → List ℕ → ℕ
both u v c = if contains u c && contains v c then 1 else 0

pub share-total : (u v : ℕ) (cs : List (List ℕ)) → share u v cs ≡ ltb 0 (total (both u v) cs)
share-total u v [] = refl
share-total u v (c ∷ cs) = ground (arith, share-total u v cs)

pub occurrences-total : (w : ℕ) (cs : List (List ℕ)) → occurrences w cs ≡ total (times_in w) cs
occurrences-total w [] = refl
occurrences-total w (c ∷ cs) = omega (arith, occurrences-total w cs)

pub both-IsUnordered : (u v : ℕ) → IsUnordered (both u v)
both-IsUnordered u v xs ys h = ground (
  arith,
  contains-times u xs,
  contains-times u ys,
  contains-times v xs,
  contains-times v ys,
  h u,
  h v,
)

length_of_contains : (w : ℕ) (xs : List ℕ) → contains w xs ≡ true → 1 ≤ length xs
length_of_contains w [] h = cc
length_of_contains w (x ∷ xs) h = omega arith

Linked-within :
    (neighbors_of : ℕ → List ℕ) (ids : List ℕ)
    → ((u w : ℕ) → contains w (neighbors_of u) ≡ true → contains w ids ≡ true)
    → {u w : ℕ} → contains u ids ≡ true
    → Linked neighbors_of u w
    → contains w ids ≡ true
Linked-within nb ids within {u} h (Linked.here e) = ap (λ x. contains x ids) (sym e) ∙ h
Linked-within nb ids within h (Linked.step {v} {w} p n) = within v w n

-- A chain of submissions, each similar to the next.
pub data Chain (floats : Floats) (ss : List Submission) : ℕ → ℕ → Type 0 where
  here : {u v : ℕ} → u ≡ v → Chain floats ss u v
  step : {u v w : ℕ} → Chain floats ss u v → alike floats ss v w ≡ true → Chain floats ss u w

module _ (floats : Floats) (ss : List Submission) (pairs : Pairs floats)
    (exact : (u w : ℕ) → links pairs ss u w ≡ alike floats ss u w) where
  edge : (u w : ℕ) → contains w (neighbors_in floats ss pairs u) ≡ alike floats ss u w
  edge u w = contains-neighbors_in floats ss pairs u w ∙ exact u w

  pub Linked-Chain : {u w : ℕ} → Linked (neighbors_in floats ss pairs) u w → Chain floats ss u w
  Linked-Chain (Linked.here e) = here e
  Linked-Chain (Linked.step {v} {w} p n) = step (Linked-Chain p) (sym (edge v w) ∙ n)

  pub Chain-Linked : {u w : ℕ} → Chain floats ss u w → Linked (neighbors_in floats ss pairs) u w
  Chain-Linked (here e) = Linked.here e
  Chain-Linked (step {v} {w} p n) = Linked.step (Chain-Linked p) (edge v w ∙ n)

module _ (floats : Floats) (ss : List Submission) (pairs : Pairs floats) where
  -- the submissions of a component, by its ids
  resolved :
      (c : List ℕ)
      → IsClass (neighbors_in floats ss pairs) (ids_of ss) c
      → (ids_of (resolve (by_id ss) c) ≡ c) × (1 ≤ length (resolve (by_id ss) c))
  resolved c (s, member, law) =
      let within = λ (u w : ℕ) (h : contains w (neighbors_in floats ss pairs u) ≡ true).
        links-within pairs ss u w (sym (contains-neighbors_in floats ss pairs u w) ∙ h) in
      let same = resolve-ids (by_id ss) c (
        All-of_contains _ c (λ w h. by_id-IsAt ss w (
          Linked-within (neighbors_in floats ss pairs) (ids_of ss) within member ((law w).0 h)))) in
      (
        same,
        omega (
          arith,
          ap length same,
          length-ids_of (resolve (by_id ss) c),
          length_of_contains s c ((law s).1 (Linked.here refl)),
        ),
      )

  pub all_resolved :
      (cs : List (List ℕ))
      → All (IsClass (neighbors_in floats ss pairs) (ids_of ss)) cs
      → All (λ c. 1 ≤ length c) (map (resolve (by_id ss)) cs)
        × ((f : List ℕ → ℕ) → total (λ c. f (ids_of c)) (map (resolve (by_id ss)) cs) ≡ total f cs)
  all_resolved [] h = (tt, λ f. refl)
  all_resolved (c ∷ cs) (h, hs) =
      let (same, some_member) = resolved c h in
      let (all_members, sums) = all_resolved cs hs in
      ((some_member, all_members), λ f. omega (arith, sums f, ap f same))

  pub components-exact :
      (cs : List (List ℕ)) × (compute_connected_components floats ss pairs
        ≡ some (map (resolve (by_id ss)) cs))
      × IsPartition (neighbors_in floats ss pairs) (ids_of ss) cs
  unfolding compute_connected_components
  components-exact =
      let (cs, e, p) = component_ids-IsPartition floats ss pairs in (cs, ground (arith, e), p)
