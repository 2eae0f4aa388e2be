-- ===== src/Verify/Grouping/Build/Pairwise.antt =====
-- The pairs that are in the map.
use anti_soon.Prelude.{
  ℕ, ◌≡◌, ◌≢◌, ◌↔◌, refl, ap, ◌∙◌, Bool, true, false, ◌&&◌, ◌||◌, List, [], ◌∷◌, some, arith,
  if◌then◌else◌, All, All-imp,
}
use anti_soon.Prelude.Keyed
use anti_soon.Prelude.Pairwise.{Pairwise}
use anti_soon.Verify.Grouping.Floats.{Floats}
use anti_soon.Verify.Grouping.Similarity.{Submission, pair_key, compute_pairwise_similarity}
use anti_soon.Verify.Grouping.Components.{Pairs, same_pair, are_similar}
use anti_soon.Verify.Grouping.Components.Adjacency.{joins, links_from, links}
use anti_soon.Verify.Grouping.Build.{pair_row, pair_all}

same_pair_iff : (p q : ℕ × ℕ) → (same_pair p q ≡ true) ↔ (p ≡ q)
same_pair_iff (a, b) (c, d) = ground arith

-- a pair of ids is known by either of its ids
pair_key-ne : (a b c d : ℕ) → a ≢ c → a ≢ d → same_pair (pair_key c d) (pair_key a b) ≡ false
unfolding pair_key
pair_key-ne a b c d h k = ground arith

pair_key-ne_right : (a b d : ℕ) → b ≢ d → same_pair (pair_key a d) (pair_key a b) ≡ false
unfolding pair_key
pair_key-ne_right a b d h = ground arith

-- No two submissions have one id.
abbrev pub IsDistinct : List Submission → Type 0
IsDistinct = Pairwise (λ x y. x.submission_id ≢ y.submission_id)

module _ (floats : Floats) where
  -- `left` and a later submission with the ids `u` and `w` are similar
  abbrev pub alike_from : Submission → List Submission → ℕ → ℕ → Bool
  alike_from left [] u w = false
  alike_from left (right ∷ later) u w =
      (compute_pairwise_similarity floats left right).similar
        && joins left.submission_id right.submission_id u w
      || alike_from left later u w

  -- Two of the submissions with the ids `u` and `w` are similar.
  abbrev pub alike : List Submission → ℕ → ℕ → Bool
  alike [] u w = false
  alike (left ∷ later) u w = alike_from left later u w || alike later u w

  abbrev HasPair : Pairs floats → Submission → Submission → Type 0
  HasPair m l r =
      Keyed.get same_pair m (pair_key l.submission_id r.submission_id)
      ≡ some (compute_pairwise_similarity floats l r)

  pair_row-other :
      (l : Submission) (later : List Submission) (m : Pairs floats) (k : ℕ × ℕ)
      → All (λ r. same_pair (pair_key l.submission_id r.submission_id) k ≡ false) later
      → Keyed.get same_pair (pair_row floats l later m) k ≡ Keyed.get same_pair m k
  unfolding pair_row
  pair_row-other l [] m k h = refl
  pair_row-other l (r ∷ later) m k (h, hs) =
      let key = pair_key l.submission_id r.submission_id in
      let p = compute_pairwise_similarity floats l r in
      pair_row-other l later (Keyed.set same_pair m key p) k hs
      ∙ Keyed.get-set same_pair same_pair_iff m key k p
      ∙ ap (λ b. if b then some p else Keyed.get same_pair m k) h

  pair_row-own :
      (l : Submission) (later : List Submission) (m : Pairs floats)
      → IsDistinct later
      → All (HasPair (pair_row floats l later m) l) later
  unfolding pair_row
  pair_row-own l [] m h = tt
  pair_row-own l (r ∷ later) m (h, hs) =
      let key = pair_key l.submission_id r.submission_id in
      let p = compute_pairwise_similarity floats l r in
      (
        pair_row-other l later (Keyed.set same_pair m key p) key (
              All-imp (λ x n. pair_key-ne_right l.submission_id r.submission_id x.submission_id n)
                later h)
            ∙ Keyed.get-set same_pair same_pair_iff m key key p
            ∙ ap (λ b. if b then some p else Keyed.get same_pair m key)
                ((same_pair_iff key key).1 refl),
        pair_row-own l later (Keyed.set same_pair m key p) hs,
      )

  pair_all-other :
      (ss : List Submission) (m : Pairs floats) (a b : ℕ)
      → All (λ s. a ≢ s.submission_id) ss
      → Keyed.get same_pair (pair_all floats ss m) (pair_key a b)
        ≡ Keyed.get same_pair m (pair_key a b)
  unfolding pair_all
  pair_all-other [] m a b h = refl
  pair_all-other (s ∷ ss) m a b (h, hs) =
      pair_all-other ss (pair_row floats s ss m) a b hs
      ∙ pair_row-other s ss m (pair_key a b)
          (All-imp (λ x n. pair_key-ne a b s.submission_id x.submission_id h n) ss hs)

  -- the map has the pairs of all submissions
  abbrev Covers : Pairs floats → List Submission → Type 0
  Covers m [] = Unit
  Covers m (l ∷ later) = All (HasPair m l) later × Covers m later

  pair_all-Covers :
      (ss : List Submission) (m : Pairs floats) → IsDistinct ss → Covers (pair_all floats ss m) ss
  unfolding pair_all
  pair_all-Covers [] m h = tt
  pair_all-Covers (l ∷ later) m (h, hs) = (
    All-imp
        (λ r e.
          pair_all-other later (pair_row floats l later m) l.submission_id r.submission_id h ∙ e)
        later (pair_row-own l later m hs),
    pair_all-Covers later (pair_row floats l later m) hs,
  )

  links_from-alike :
      (m : Pairs floats) (l : Submission) (later : List Submission) (u w : ℕ)
      → All (HasPair m l) later
      → links_from m l.submission_id later u w ≡ alike_from l later u w
  unfolding are_similar
  links_from-alike m l [] u w h = refl
  links_from-alike m l (r ∷ later) u w (h, hs) =
      ground (arith, h, links_from-alike m l later u w hs)

  links-alike :
      (m : Pairs floats) (ss : List Submission) (u w : ℕ)
      → Covers m ss
      → links m ss u w ≡ alike ss u w
  links-alike m [] u w h = refl
  links-alike m (l ∷ later) u w (h, hs) =
      ground (arith, links_from-alike m l later u w h, links-alike m later u w hs)

  -- The neighbors in the map of the pairs are the similar ones.
  pub pair_all-alike :
      (ss : List Submission) (u w : ℕ)
      → IsDistinct ss
      → links (pair_all floats ss []) ss u w ≡ alike ss u w
  pair_all-alike ss u w h = links-alike (pair_all floats ss []) ss u w (pair_all-Covers ss [] h)
