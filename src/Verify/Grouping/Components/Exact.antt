-- ===== src/Verify/Grouping/Components/Exact.antt =====
-- The components of the submissions, by the pairs that are similar.
use mathlib.Core.List.{foldl}
use anti_soon.Prelude.{
  ℕ, ◌≡◌, refl, ap, sym, ◌∙◌, true, ◌||◌, List, [], ◌∷◌, some, ◌==◌, ==_iff, length, arith, All,
  All-imp,
}
use anti_soon.Prelude.Set.{contains}
use anti_soon.Prelude.Keyed
use anti_soon.Prelude.Sort.{sort}
use anti_soon.Prelude.Members.{contains-sort}
use anti_soon.Verify.Grouping.Floats.{Floats}
use anti_soon.Verify.Grouping.Similarity.{Submission}
use anti_soon.Verify.Grouping.Components.{
  Adjacency, no_neighbors, members_at, neighbors, Pairs, build_adjacency, ordered_ids,
  component_ids, compare_submission_ids,
}
use anti_soon.Verify.Grouping.Components.Adjacency.{
  ids_of, has_key, links_from, links, members_at-link_all,
}
use anti_soon.Verify.Grouping.Components.Partition.{IsPartition, visit_ids-IsPartition}

abbrev enter : Adjacency → List Submission → Adjacency
enter = foldl (λ a s. Keyed.set ◌==◌ a s.submission_id [])

has_key-enter :
    (ss : List Submission) (a : Adjacency) (k : ℕ)
    → has_key (enter a ss) k ≡ (has_key a k || contains k (ids_of ss))
unfolding has_key
has_key-enter [] a k = ground arith
has_key-enter (s ∷ ss) a k = ground (
  arith,
  has_key-enter ss (Keyed.set ◌==◌ a s.submission_id []) k,
  Keyed.get-set ◌==◌ ==_iff a s.submission_id k [],
)

members_at-enter :
    (ss : List Submission) (a : Adjacency)
    → ((k : ℕ) → members_at a k ≡ [])
    → (k : ℕ) → members_at (enter a ss) k ≡ []
unfolding members_at
members_at-enter [] a h k = h k
members_at-enter (s ∷ ss) a h k =
    members_at-enter ss (Keyed.set ◌==◌ a s.submission_id [])
      (λ j. ground (arith, h j, Keyed.get-set ◌==◌ ==_iff a s.submission_id j [])) k

All-ids : (ss : List Submission) → All (λ s. contains s.submission_id (ids_of ss) ≡ true) ss
All-ids [] = tt
All-ids (s ∷ ss) = (
  ground (arith, ==_iff s.submission_id s.submission_id),
  All-imp (λ x h. ground (arith, h)) ss (All-ids ss),
)

pub length-ids_of : (ss : List Submission) → length (ids_of ss) ≡ length ss
length-ids_of [] = refl
length-ids_of (s ∷ ss) = omega (arith, length-ids_of ss)

module _ {floats : Floats} (pairs : Pairs floats) where
  links_from-sym :
      (left : ℕ) (later : List Submission) (u w : ℕ)
      → links_from pairs left later u w ≡ links_from pairs left later w u
  links_from-sym left [] u w = refl
  links_from-sym left (r ∷ later) u w = ground (arith, links_from-sym left later u w)

  links-sym : (ss : List Submission) (u w : ℕ) → links pairs ss u w ≡ links pairs ss w u
  links-sym [] u w = refl
  links-sym (s ∷ ss) u w = ground (arith, links_from-sym s.submission_id ss u w, links-sym ss u w)

  links_from-within :
      (left : ℕ) (later : List Submission) (u w : ℕ)
      → links_from pairs left later u w ≡ true
      → (left == w || contains w (ids_of later)) ≡ true
  links_from-within left [] u w h = cc
  links_from-within left (r ∷ later) u w h = ground (arith, links_from-within left later u w)

  pub links-within :
      (ss : List Submission) (u w : ℕ) → links pairs ss u w ≡ true → contains w (ids_of ss) ≡ true
  links-within [] u w h = cc
  links-within (s ∷ ss) u w h =
      ground (arith, links_from-within s.submission_id ss u w, links-within ss u w)

module _ (floats : Floats) (ss : List Submission) (pairs : Pairs floats) where
  abbrev pub neighbors_in : ℕ → List ℕ
  neighbors_in = neighbors (build_adjacency floats ss pairs)

  none_yet : (k : ℕ) → members_at [] k ≡ []
  unfolding members_at Keyed.get
  none_yet k = refl

  -- The neighbors of an id are those that a similar pair joins it with.
  pub contains-neighbors_in : (u w : ℕ) → contains w (neighbors_in u) ≡ links pairs ss u w
  unfolding neighbors build_adjacency no_neighbors
  contains-neighbors_in u w =
      let empty = members_at-enter ss [] none_yet u in
      contains-sort compare_submission_ids w _
      ∙ members_at-link_all pairs ss (enter [] ss) u w
          (All-imp (λ s h. has_key-enter ss [] s.submission_id ∙ ground (arith, h)) ss (All-ids ss))
      ∙ ap (λ ms. contains w ms || links pairs ss u w) empty

  -- For all submissions and all pairs, the search of the components ends within as many rounds as
  -- there are submissions, and its components are the classes of the ids that neighbors link, each
  -- id in one of them, once.
  pub component_ids-IsPartition :
      (cs : List (List ℕ)) × (component_ids floats ss pairs ≡ some cs)
      × IsPartition neighbors_in (ids_of ss) cs
  unfolding component_ids ordered_ids
  component_ids-IsPartition =
      let edge = contains-neighbors_in in
      let (g, e, p) =
        visit_ids-IsPartition neighbors_in (ids_of ss) (length ss)
          (λ u w h. edge w u ∙ links-sym pairs ss w u ∙ sym (edge u w) ∙ h)
          (λ u w h. links-within pairs ss u w (sym (edge u w) ∙ h))
          (omega (arith, length-ids_of ss)) (sort compare_submission_ids (ids_of ss))
          (λ w. contains-sort compare_submission_ids w (ids_of ss)) in
      (g.components, ground (arith, e), p)
