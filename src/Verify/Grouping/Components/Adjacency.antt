-- ===== src/Verify/Grouping/Components/Adjacency.antt =====
-- Which neighbors the loops over the pairs enter.
use mathlib.Core.List.{foldl}
use anti_soon.Prelude.{
  ℕ, ◌≡◌, refl, ◌∙◌, inl, inr, Bool, true, false, ◌&&◌, ◌||◌, List, [], ◌∷◌, none, some, ◌==◌,
  ==_iff, map, arith, All, All-imp, Option-cases,
}
use anti_soon.Prelude.Set.{contains, add}
use anti_soon.Prelude.Members.{contains-add}
use anti_soon.Prelude.Keyed
use anti_soon.Verify.Grouping.Floats.{Floats}
use anti_soon.Verify.Grouping.Similarity.{Submission}
use anti_soon.Verify.Grouping.Components.{
  Adjacency, add_neighbor, members_at, Pairs, are_similar, link, link_all,
}

abbrev pub ids_of : List Submission → List ℕ
ids_of = map (λ s. s.submission_id)

unfoldable pub has_key : Adjacency → ℕ → Bool
has_key adjacency id = elim (Keyed.get ◌==◌ adjacency id) [ none ↦ false | some _ ↦ true ]

has_key-add_neighbor : (a : Adjacency) (id n k : ℕ) → has_key (add_neighbor a id n) k ≡ has_key a k
unfolding has_key add_neighbor
has_key-add_neighbor a id n k = elim (Option-cases (Keyed.get ◌==◌ a id)) [
  | inl e ↦ ground (arith, e)
  | inr (ms, e) ↦ ground (arith, e, Keyed.get-set ◌==◌ ==_iff a id k (add n ms), ==_iff id k)
]

members_at-add_neighbor :
    (a : Adjacency) (id n u w : ℕ)
    → has_key a id ≡ true
    → contains w (members_at (add_neighbor a id n) u)
      ≡ (contains w (members_at a u) || (id == u && n == w))
unfolding has_key add_neighbor members_at
members_at-add_neighbor a id n u w h = elim (Option-cases (Keyed.get ◌==◌ a id)) [
  | inl e ↦ ground (arith, e)
  | inr (ms, e) ↦
      ground
        (arith, e, Keyed.get-set ◌==◌ ==_iff a id u (add n ms), ==_iff id u, contains-add w n ms)
]

-- The two of one link, in the one order or the other.
abbrev pub joins : ℕ → ℕ → ℕ → ℕ → Bool
joins left right u w = left == u && right == w || right == u && left == w

module _ {floats : Floats} (pairs : Pairs floats) where
  -- `left` and one of the later submissions are similar, and have the ids `u` and `w`
  abbrev pub links_from : ℕ → List Submission → ℕ → ℕ → Bool
  links_from left [] u w = false
  links_from left (right ∷ later) u w =
      are_similar floats pairs left right.submission_id && joins left right.submission_id u w
      || links_from left later u w

  -- and one of all submissions and a later one
  abbrev pub links : List Submission → ℕ → ℕ → Bool
  links [] u w = false
  links (left ∷ later) u w = links_from left.submission_id later u w || links later u w

  abbrev link_row : ℕ → Adjacency → List Submission → Adjacency
  link_row left = foldl (λ a right. link floats pairs a left right.submission_id)

  has_key-link :
      (a : Adjacency) (left right k : ℕ) → has_key (link floats pairs a left right) k ≡ has_key a k
  unfolding link
  has_key-link a left right k = ground (
    arith,
    has_key-add_neighbor (add_neighbor a left right) right left k,
    has_key-add_neighbor a left right k,
  )

  members_at-link :
      (a : Adjacency) (left right u w : ℕ)
      → has_key a left ≡ true
      → has_key a right ≡ true
      → contains w (members_at (link floats pairs a left right) u) ≡ (
          contains w (members_at a u)
          || (are_similar floats pairs left right && joins left right u w))
  unfolding link
  members_at-link a left right u w h k = ground (
    arith,
    members_at-add_neighbor (add_neighbor a left right) right left u w,
    members_at-add_neighbor a left right u w,
    has_key-add_neighbor a left right right,
  )

  has_key-link_row :
      (left : ℕ) (later : List Submission) (a : Adjacency) (k : ℕ)
      → has_key (link_row left a later) k ≡ has_key a k
  has_key-link_row left [] a k = refl
  has_key-link_row left (right ∷ later) a k =
      has_key-link_row left later (link floats pairs a left right.submission_id) k
      ∙ has_key-link a left right.submission_id k

  members_at-link_row :
      (left : ℕ) (later : List Submission) (a : Adjacency) (u w : ℕ)
      → has_key a left ≡ true
      → All (λ s. has_key a s.submission_id ≡ true) later
      → contains w (members_at (link_row left a later) u)
        ≡ (contains w (members_at a u) || links_from left later u w)
  members_at-link_row left [] a u w h k = ground arith
  members_at-link_row left (right ∷ later) a u w h (k, ks) =
      let next = link floats pairs a left right.submission_id in
      let same = has_key-link a left right.submission_id in
      let ih =
        members_at-link_row left later next u w (same left ∙ h)
          (All-imp (λ s e. same s.submission_id ∙ e) later ks) in
      ground (arith, ih, members_at-link a left right.submission_id u w h k)

  pub members_at-link_all :
      (ss : List Submission) (a : Adjacency) (u w : ℕ)
      → All (λ s. has_key a s.submission_id ≡ true) ss
      → contains w (members_at (link_all floats pairs ss a) u)
        ≡ (contains w (members_at a u) || links ss u w)
  unfolding link_all
  members_at-link_all [] a u w h = ground arith
  members_at-link_all (left ∷ later) a u w (h, hs) =
      let next = link_row left.submission_id a later in
      let same = has_key-link_row left.submission_id later a in
      let ih =
        members_at-link_all later next u w (All-imp (λ s e. same s.submission_id ∙ e) later hs) in
      ground (arith, ih, members_at-link_row left.submission_id later a u w h hs)
