-- ===== src/Verify/Grouping/Build/Members.antt =====
-- The members of the groups are those of the components.
use mathlib.Core.List.{foldl}
use anti_soon.Prelude.{
  ℕ, ◌≤◌, ◌≡◌, ◌⊎◌, refl, ap, sym, ◌∙◌, inl, inr, true, List, [], ◌∷◌, some, ◌==◌, ==_iff, arith,
  All, Bool-cases, length, ok,
}
use anti_soon.Prelude.Set.{contains}
use anti_soon.Prelude.Keyed
use anti_soon.Prelude.Sort.{sort, count-sort, length-sort}
use anti_soon.Prelude.Members.{times_in}
use anti_soon.Prelude.Totals.{total, count-map}
use anti_soon.Verify.Grouping.Floats.{Floats}
use anti_soon.Verify.Grouping.Similarity.{Submission}
use anti_soon.Verify.Grouping.Components.{Pairs, by_id, resolve}
use anti_soon.Verify.Grouping.Components.Adjacency.{ids_of}
use anti_soon.Verify.Grouping.Ranked.{
  Texts, Scores, RankedGroup, ranked_from, build_ranked_group, compare_members,
  similarity_by_member,
}
use anti_soon.Verify.Grouping.Build.{build_ranked_groups}

-- the submission that a map has for an id
abbrev IsAt : List (ℕ × Submission) → ℕ → Type 0
IsAt m k = (s : Submission) × (Keyed.get ◌==◌ m k ≡ some s) × (s.submission_id ≡ k)

enter : List (ℕ × Submission) → List Submission → List (ℕ × Submission)
enter = foldl (λ m s. Keyed.set ◌==◌ m s.submission_id s)

enter-IsAt :
    (ss : List Submission) (m : List (ℕ × Submission)) (k : ℕ)
    → (contains k (ids_of ss) ≡ true) ⊎ IsAt m k
    → IsAt (enter m ss) k
unfolding enter
enter-IsAt [] m k (inl h) = cc
enter-IsAt [] m k (inr h) = h
enter-IsAt (s ∷ ss) m k h =
    let next = Keyed.set ◌==◌ m s.submission_id s in
    let law = Keyed.get-set ◌==◌ ==_iff m s.submission_id k s in
    elim (Bool-cases (s.submission_id == k)) [
      | inl e ↦ enter-IsAt ss next k (inr (s, law ∙ ground (arith, e), (==_iff _ _).0 e))
      | inr e ↦ enter-IsAt ss next k (elim h [
        | inl c ↦ inl (ground (arith, c, e))
        | inr (t, p, q) ↦ inr (t, law ∙ ground (arith, e, p), q)
      ])
    ]

pub by_id-IsAt : (ss : List Submission) (k : ℕ) → contains k (ids_of ss) ≡ true → IsAt (by_id ss) k
unfolding by_id enter
by_id-IsAt ss k h = enter-IsAt ss [] k (inl h)

-- all ids that are found come back as their submissions
pub resolve-ids :
    (m : List (ℕ × Submission)) (ks : List ℕ) → All (IsAt m) ks → ids_of (resolve m ks) ≡ ks
unfolding resolve
resolve-ids m [] h = refl
resolve-ids m (k ∷ ks) ((s, e, same), h) = ground (arith, e, same, resolve-ids m ks h)

pub All-of_contains {κ} :
    (P : ℕ → Type κ) (xs : List ℕ) → ((w : ℕ) → contains w xs ≡ true → P w) → All P xs
All-of_contains P [] h = tt
All-of_contains P (x ∷ xs) h =
    (h x (ground (arith, ==_iff x x)), All-of_contains P xs (λ w e. h w (ground arith)))

-- A measure of a list of ids that does not read their order.
abbrev pub IsUnordered : (List ℕ → ℕ) → Type 0
IsUnordered f = (xs ys : List ℕ) → ((w : ℕ) → times_in w xs ≡ times_in w ys) → f xs ≡ f ys

module _ (floats : Floats) (texts : Texts) (pairs : Pairs floats) where
  ranked_from-ok :
      (members : List Submission) (by_member : List (ℕ × Scores floats)) (sorted : List Submission)
      → 1 ≤ length sorted
      → (g : RankedGroup floats) × (ranked_from floats texts pairs members by_member sorted ≡ ok g)
        × (g.member_submission_ids ≡ ids_of sorted)
  unfolding ranked_from
  ranked_from-ok members by_member [] h = absurd (omega arith)
  ranked_from-ok members by_member (s ∷ later) h = (_, refl, refl)

  build_ranked_group-ok :
      (members : List Submission)
      → 1 ≤ length members
      → (g : RankedGroup floats) × (build_ranked_group floats texts pairs members ≡ ok g)
        × ((w : ℕ) → times_in w g.member_submission_ids ≡ times_in w (ids_of members))
  unfolding build_ranked_group
  build_ranked_group-ok members h =
      let by_member = similarity_by_member floats pairs members in
      let cmp = compare_members floats by_member in
      let (g, e, same) =
        ranked_from-ok members by_member (sort cmp members)
          (omega (arith, length-sort cmp members)) in
      (
        g,
        e,
        λ w.
            ap (times_in w) same
            ∙ count-map (λ x. x == w) (λ s. s.submission_id) (sort cmp members)
            ∙ count-sort cmp (λ s. s.submission_id == w) members
            ∙ sym (count-map (λ x. x == w) (λ s. s.submission_id) members),
      )

  pub build_ranked_groups-ok :
      (components : List (List Submission))
      → All (λ c. 1 ≤ length c) components
      → (gs : List (RankedGroup floats)) × (build_ranked_groups floats texts pairs components
          ≡ ok gs)
        × ((f : List ℕ → ℕ)
            → IsUnordered f
            → total (λ g. f g.member_submission_ids) gs ≡ total (λ c. f (ids_of c)) components)
  unfolding build_ranked_groups
  build_ranked_groups-ok [] h = ([], refl, λ f law. refl)
  build_ranked_groups-ok (c ∷ cs) (h, hs) =
      let (g, e, same) = build_ranked_group-ok c h in
      let (gs, es, sums) = build_ranked_groups-ok cs hs in
      (
        g ∷ gs,
        ground (arith, e, es),
        λ f law. omega (arith, sums f law, law g.member_submission_ids (ids_of c) same),
      )
