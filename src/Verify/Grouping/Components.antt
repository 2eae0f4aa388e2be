-- ===== src/Verify/Grouping/Components.antt =====
-- `computeConnectedComponents` of workflow/verify-poc/src/multiGrouping.ts. The top of the stack is the
-- head of its list. The ids that are looked at in the loops are those of the submissions.
pub mod Search
pub mod Linked
pub mod Classes
pub mod Partition
pub mod Adjacency
pub mod Exact
use Prim.Native.Nat.{Ordering, compare}
use mathlib.Core.List.{foldl}
use anti_soon.Prelude.{
  ℕ, zero, suc, ◌+◌, ◌≡◌, Bool, true, false, List, [], ◌∷◌, ◌++◌, Option, none, some, ◌==◌, ◌&&◌,
  if◌then◌else◌, length, map,
}
use anti_soon.Prelude.Set.{contains, add}
use anti_soon.Prelude.Sort.{sort}
use anti_soon.Prelude.Keyed
use anti_soon.Verify.Grouping.Floats.{Floats}
use anti_soon.Verify.Grouping.Similarity.{Submission, PairwiseSimilarity, pair_key}

abbrev pub same_pair : ℕ × ℕ → ℕ × ℕ → Bool
same_pair (a, b) (c, d) = a == c && b == d

-- `compareSubmissionIds`
abbrev pub compare_submission_ids : ℕ → ℕ → Ordering
compare_submission_ids left right = compare left right

abbrev pub compare_submissions : Submission → Submission → Ordering
compare_submissions left right = compare_submission_ids left.submission_id right.submission_id

-- `Map<string, Set<string>>`
abbrev pub Adjacency : Type 0
Adjacency = List (ℕ × List ℕ)

-- `adjacency.get(id)?.add(neighbor)`
unfoldable pub add_neighbor : Adjacency → ℕ → ℕ → Adjacency
add_neighbor adjacency id neighbor = elim (Keyed.get ◌==◌ adjacency id) [
  | none ↦ adjacency
  | some members ↦ Keyed.set ◌==◌ adjacency id (add neighbor members)
]

unfoldable pub no_neighbors : List Submission → Adjacency
no_neighbors = foldl (λ adjacency s. Keyed.set ◌==◌ adjacency s.submission_id []) []

-- `adjacency.get(id) ?? []`
unfoldable pub members_at : Adjacency → ℕ → List ℕ
members_at adjacency id = elim (Keyed.get ◌==◌ adjacency id) [ none ↦ [] | some members ↦ members ]

-- `[...(adjacency.get(id) ?? [])].sort(compareSubmissionIds)`
unfoldable pub neighbors : Adjacency → ℕ → List ℕ
unfolding members_at
neighbors adjacency id = sort compare_submission_ids (members_at adjacency id)

module _ (floats : Floats) where
  -- `Map<string, PairwiseSimilarity>`
  abbrev pub Pairs : Type 0
  Pairs = List ((ℕ × ℕ) × PairwiseSimilarity floats)

  -- `pairwiseByKey.get(pairKey(left, right))?.similar`
  unfoldable pub are_similar : Pairs → ℕ → ℕ → Bool
  are_similar pairs left right = elim (Keyed.get same_pair pairs (pair_key left right)) [
    | none ↦ false
    | some p ↦ p.similar
  ]

  -- the loops over the indexes of two different submissions
  unfoldable pub link : Pairs → Adjacency → ℕ → ℕ → Adjacency
  unfolding are_similar
  link pairs adjacency left right =
      if are_similar pairs left right
      then add_neighbor (add_neighbor adjacency left right) right left
      else adjacency

  unfoldable pub link_all : Pairs → List Submission → Adjacency → Adjacency
  unfolding link
  link_all pairs [] adjacency = adjacency
  link_all pairs (left ∷ later) adjacency =
      link_all pairs later
        (foldl (λ a right. link pairs a left.submission_id right.submission_id) adjacency later)

  unfoldable pub build_adjacency : List Submission → Pairs → Adjacency
  unfolding link_all
  build_adjacency submissions pairs = link_all pairs submissions (no_neighbors submissions)

-- The variables of the `while` loop.
pub record Visit : Type 0 where
  pub visited : List ℕ
  pub stack : List ℕ
  pub component : List ℕ

-- the body of the loop over the neighbors
unfoldable pub offer : Visit → ℕ → Visit
offer s neighbor = if contains neighbor s.visited then s else record {
  visited = add neighbor s.visited;
  stack = neighbor ∷ s.stack;
  component = s.component;
}

-- The components that are found, and what is visited.
pub record Found : Type 0 where
  pub visited : List ℕ
  pub components : List (List ℕ)

module _ (neighbors_of : ℕ → List ℕ) where
  -- one round of the `while` loop, after `current` was popped
  unfoldable pub expand : Visit → ℕ → List ℕ → Visit
  unfolding offer
  expand s current rest =
      foldl offer
        (record { visited = s.visited; stack = rest; component = s.component ++ current ∷ [] })
        (neighbors_of current)

  unfoldable pub explore : ℕ → Visit → Option Visit
  unfolding expand
  explore zero s = elim s.stack [ [] ↦ some s | _ ∷ _ ↦ none ]
  explore (suc fuel) s = elim s.stack [
    | [] ↦ some s
    | current ∷ rest ↦ explore fuel (expand s current rest)
  ]

  -- the body of the loop over the ordered ids
  unfoldable pub visit_id : ℕ → Found → ℕ → Option Found
  unfolding explore
  visit_id fuel found id =
      if contains id found.visited
      then some found
      else elim (explore fuel
          (record { visited = add id found.visited; stack = id ∷ []; component = [] })) [
            | none ↦ none
            | some s ↦ some (record {
              visited = s.visited;
              components = found.components ++ sort compare_submission_ids s.component ∷ [];
            })
          ]

  unfoldable pub visit_ids : ℕ → List ℕ → Found → Option Found
  unfolding visit_id
  visit_ids fuel [] found = some found
  visit_ids fuel (id ∷ ids) found = elim (visit_id fuel found id) [
    | none ↦ none
    | some next ↦ visit_ids fuel ids next
  ]

-- `byId`, where a later submission of one id takes the place of an earlier
unfoldable pub by_id : List Submission → List (ℕ × Submission)
by_id = foldl (λ m s. Keyed.set ◌==◌ m s.submission_id s) []

-- `.map(byId.get).filter(candidate => candidate !== undefined)`
unfoldable pub resolve : List (ℕ × Submission) → List ℕ → List Submission
resolve m [] = []
resolve m (id ∷ ids) = elim (Keyed.get ◌==◌ m id) [
  | none ↦ resolve m ids
  | some s ↦ s ∷ resolve m ids
]

unfoldable pub ordered_ids : List Submission → List ℕ
ordered_ids submissions = sort compare_submission_ids (map (λ s. s.submission_id) submissions)

module _ (floats : Floats) where
  -- The ids of the components. There is fuel for as many rounds as there are submissions.
  unfoldable pub component_ids : List Submission → Pairs floats → Option (List (List ℕ))
  unfolding visit_ids build_adjacency neighbors ordered_ids
  component_ids submissions pairs =
      let adjacency = build_adjacency floats submissions pairs in
      let start : Found = record { visited = []; components = [] } in
      elim (visit_ids (neighbors adjacency) (length submissions) (ordered_ids submissions) start) [
        | none ↦ none
        | some found ↦ some found.components
      ]

  unfoldable pub compute_connected_components :
      List Submission → Pairs floats → Option (List (List Submission))
  unfolding component_ids by_id resolve
  compute_connected_components submissions pairs = elim (component_ids submissions pairs) [
    | none ↦ none
    | some components ↦ some (map (resolve (by_id submissions)) components)
  ]
