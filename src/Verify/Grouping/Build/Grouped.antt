-- ===== src/Verify/Grouping/Build/Grouped.antt =====
-- The groups that come back: the submissions, by chains of similar ones.
use anti_soon.Prelude.{
  ℕ, ◌+◌, ◌≡◌, ◌↔◌, refl, ap, sym, ◌∙◌, true, List, [], ◌∷◌, ◌==◌, arith, map, ok, ltb,
}
use anti_soon.Prelude.Set.{contains}
use anti_soon.Prelude.Sort.{sort, count-sort}
use anti_soon.Prelude.Pairwise.{Pairwise-sort}
use anti_soon.Prelude.Members.{times_in, contains-times}
use anti_soon.Prelude.Totals.{total, total-map, total-sort, count-map}
use anti_soon.Verify.Grouping.Floats.{Floats}
use anti_soon.Verify.Grouping.Similarity.{Cohort, Submission}
use anti_soon.Verify.Grouping.Components.{by_id, resolve, compare_submissions}
use anti_soon.Verify.Grouping.Components.Adjacency.{ids_of}
use anti_soon.Verify.Grouping.Components.Classes.{share, occurrences}
use anti_soon.Verify.Grouping.Ranked.{Texts, RankedGroup}
use anti_soon.Verify.Grouping.Build.{
  pair_all, compare_groups, rank_groups, all_records, ranked_components, GroupingResult,
  build_groups,
}
use anti_soon.Verify.Grouping.Build.Pairwise.{IsDistinct, pair_all-alike}
use anti_soon.Verify.Grouping.Build.Members.{IsUnordered, build_ranked_groups-ok}
use anti_soon.Verify.Grouping.Build.Chains.{
  both, both-IsUnordered, share-total, occurrences-total, Chain, Linked-Chain, Chain-Linked,
  all_resolved, components-exact,
}

module _ (floats : Floats) where
  abbrev pub members_of : GroupingResult floats → List (List ℕ)
  members_of r = map (λ g. g.ranked.member_submission_ids) r.groups

  -- numbering the groups changes no group
  total-rank_groups :
      (f : RankedGroup floats → ℕ) (index : ℕ) (counts : List (Cohort × ℕ))
      (gs : List (RankedGroup floats))
      → total (λ g. f g.ranked) (rank_groups floats index counts gs) ≡ total f gs
  unfolding rank_groups
  total-rank_groups f index counts [] = refl
  total-rank_groups f index counts (g ∷ gs) = omega (arith, total-rank_groups f (index + 1) _ gs)

  -- Two submissions are in one group exactly when a chain of similar submissions leads from the one
  -- to the other, and every submission is in one group, once.
  pub record IsGrouping (ss : List Submission) (r : GroupingResult floats) : Type 0 where
    pub together_iff :
        (u v : ℕ)
        → contains u (ids_of ss) ≡ true
        → (share u v (members_of r) ≡ true) ↔ Chain floats (sort compare_submissions ss) u v
    pub once : (w : ℕ) → contains w (ids_of ss) ≡ true → occurrences w (members_of r) ≡ 1

  contains-sorted :
      (ss : List Submission) (w : ℕ)
      → contains w (ids_of (sort compare_submissions ss)) ≡ contains w (ids_of ss)
  contains-sorted ss w =
      let id = λ (s : Submission). s.submission_id in
      let sorted = sort compare_submissions ss in
      contains-times w (ids_of sorted)
      ∙ ap (ltb 0) (
          count-map (λ x. x == w) id sorted
          ∙ count-sort compare_submissions (λ s. s.submission_id == w) ss
          ∙ sym (count-map (λ x. x == w) id ss))
      ∙ sym (contains-times w (ids_of ss))

  -- The code returns, with the groups by chains of similar submissions.
  pub build_groups-IsGrouping :
      (texts : Texts) (ss : List Submission)
      → IsDistinct ss
      → (r : GroupingResult floats) × (build_groups floats texts ss ≡ ok r) × IsGrouping ss r
  unfolding build_groups ranked_components
  build_groups-IsGrouping texts ss distinct =
      let ordered = sort compare_submissions ss in
      let apart = Pairwise-sort _ compare_submissions (λ x y n e. n (sym e)) ss distinct in
      let pairs = pair_all floats ordered [] in
      let exact = λ (u w : ℕ). pair_all-alike floats ordered u w apart in
      let (cs, found, p) = components-exact floats ordered pairs in
      let (some_members, kept) = all_resolved floats ordered pairs cs p.classes in
      let components = map (resolve (by_id ordered)) cs in
      let (ranked, built, sums) =
        build_ranked_groups-ok floats texts pairs components some_members in
      let groups = rank_groups floats 0 [] (sort (compare_groups floats texts) ranked) in
      let r : GroupingResult floats = record {
        groups = groups;
        submissions = all_records floats groups;
      } in
      let same = λ (f : List ℕ → ℕ) (law : IsUnordered f).
        total-map f (λ g. g.ranked.member_submission_ids) groups
        ∙ total-rank_groups (λ g. f g.member_submission_ids) 0 []
            (sort (compare_groups floats texts) ranked)
        ∙ total-sort (compare_groups floats texts) (λ g. f g.member_submission_ids) ranked
        ∙ sums f law
        ∙ kept f in
      (
        r,
        ground (arith, found, built),
        record {
          together_iff = λ u v h.
              let shared : share u v (members_of r) ≡ share u v cs =
                share-total u v (members_of r)
                ∙ ap (ltb 0) (same (both u v) (both-IsUnordered u v))
                ∙ sym (share-total u v cs) in
              let law = p.share_iff u v (contains-sorted ss u ∙ h) in
              (
                λ t. Linked-Chain floats ordered pairs exact (law.0 (sym shared ∙ t)),
                λ c. shared ∙ law.1 (Chain-Linked floats ordered pairs exact c),
              );
          once = λ w h.
              occurrences-total w (members_of r)
              ∙ same (times_in w) (λ xs ys e. e w)
              ∙ sym (occurrences-total w cs)
              ∙ p.once w (contains-sorted ss w ∙ h);
        },
      )
