-- ===== src/Jury/Support/Laws.antt =====
-- The buckets hold exactly the votes of their validity, counted by cohort.
use anti_soon.Prelude.{
  ℕ, ◌+◌, ◌≡◌, refl, sym, ap, ◌∙◌, subst, Bool, true, false, ◌&&◌, List, [], ◌∷◌, ◌++◌, count, keep,
  length, arith, if◌then◌else◌,
}
use mathlib.Core.List.{append-nil, append_assoc}
use anti_soon.Prelude.Sort.{count-sort}
use anti_soon.Jury.Types.{
  Cohort, llm, human, Validity, high, medium, invalid, same_cohort, same_validity, OpinionRecord,
}
use anti_soon.Jury.Ledger.{sort_opinion_records, by_slot_index}
use anti_soon.Jury.Support.{
  Bucket, Support, bucket_of, count_vote, support_record, support_from, no_support, empty_bucket,
  summarize_opinion_support,
}

-- The votes for a validity, in all and of one cohort.
abbrev pub is_vote_for : Validity → OpinionRecord → Bool
is_vote_for v r = same_validity r.final_validity v

abbrev pub is_cohort_vote_for : Validity → Cohort → OpinionRecord → Bool
is_cohort_vote_for v k r = same_validity r.final_validity v && same_cohort r.cohort k

unfoldable pub votes_for : Validity → List OpinionRecord → ℕ
votes_for v rs = count (is_vote_for v) rs

unfoldable pub cohort_votes_for : Validity → Cohort → List OpinionRecord → ℕ
cohort_votes_for v k rs = count (is_cohort_vote_for v k) rs

-- The bucket `b` and the votes of `rs` for `v` make the bucket `b'`.
pub record Counts (v : Validity) (b b' : Bucket) (rs : List OpinionRecord) : Type 0 where
  pub total : b'.total ≡ b.total + votes_for v rs
  pub llm_votes : b'.llm_votes ≡ b.llm_votes + cohort_votes_for v llm rs
  pub human_votes : b'.human_votes ≡ b.human_votes + cohort_votes_for v human rs
  pub records : b'.records ≡ b.records ++ keep (is_vote_for v) rs

bucket_of-support_record :
    (s : Support) (r : OpinionRecord) (x v : Validity)
    → bucket_of (support_record s r x) v
      ≡ (if same_validity x v then count_vote (bucket_of s v) r r.cohort else bucket_of s v)
bucket_of-support_record s r high high = refl
bucket_of-support_record s r high medium = refl
bucket_of-support_record s r high invalid = refl
bucket_of-support_record s r medium high = refl
bucket_of-support_record s r medium medium = refl
bucket_of-support_record s r medium invalid = refl
bucket_of-support_record s r invalid high = refl
bucket_of-support_record s r invalid medium = refl
bucket_of-support_record s r invalid invalid = refl

keep-snoc :
    (v : Validity) (b : Bucket) (r : OpinionRecord) (rs : List OpinionRecord)
    → is_vote_for v r ≡ true
    → (b.records ++ r ∷ []) ++ keep (is_vote_for v) rs ≡ b.records ++ keep (is_vote_for v) (r ∷ rs)
keep-snoc v b r rs f =
    append_assoc b.records (r ∷ []) (keep (is_vote_for v) rs)
    ∙ ap (λ t. b.records ++ (if t then r ∷ keep (is_vote_for v) rs else keep (is_vote_for v) rs))
        (sym f)

bucket_of-no_support : (v : Validity) → bucket_of no_support v ≡ empty_bucket
bucket_of-no_support high = refl
bucket_of-no_support medium = refl
bucket_of-no_support invalid = refl

Counts-cons :
    (v : Validity) (b b' : Bucket) (r : OpinionRecord) (rs : List OpinionRecord) (k : Cohort)
    (t : Bool)
    → r.cohort ≡ k
    → same_validity r.final_validity v ≡ t
    → Counts v (if t then count_vote b r k else b) b' rs
    → Counts v b b' (r ∷ rs)
unfolding votes_for cohort_votes_for
Counts-cons v b b' r rs llm true e f h =
    let is_llm : same_cohort r.cohort llm ≡ true = ap (λ x. same_cohort x llm) e in
    let not_human : same_cohort r.cohort human ≡ false = ap (λ x. same_cohort x human) e in
    record {
      total = ground (arith, h, f);
      llm_votes = ground (arith, h, f, is_llm);
      human_votes = ground (arith, h, f, not_human);
      records = h.records ∙ keep-snoc v b r rs f;
    }
Counts-cons v b b' r rs human true e f h =
    let not_llm : same_cohort r.cohort llm ≡ false = ap (λ x. same_cohort x llm) e in
    let is_human : same_cohort r.cohort human ≡ true = ap (λ x. same_cohort x human) e in
    record {
      total = ground (arith, h, f);
      llm_votes = ground (arith, h, f, not_llm);
      human_votes = ground (arith, h, f, is_human);
      records = h.records ∙ keep-snoc v b r rs f;
    }
Counts-cons v b b' r rs k false e f h = record {
  total = ground (arith, h, f);
  llm_votes = ground (arith, h, f);
  human_votes = ground (arith, h, f);
  records =
      h.records
      ∙ ap (λ t. b.records ++ (if t then r ∷ keep (is_vote_for v) rs else keep (is_vote_for v) rs))
          (sym f);
}

support_from-Counts :
    (v : Validity) (s : Support) (rs : List OpinionRecord)
    → Counts v (bucket_of s v) (bucket_of (support_from s rs) v) rs
unfolding support_from votes_for cohort_votes_for
support_from-Counts v s [] = record {
  total = omega arith;
  llm_votes = omega arith;
  human_votes = omega arith;
  records = sym (append-nil _);
}
support_from-Counts v s (r ∷ rs) =
    let next = support_record s r r.final_validity in
    Counts-cons v (bucket_of s v) _ r rs r.cohort (same_validity r.final_validity v) refl refl (
      subst (λ b. Counts v b (bucket_of (support_from next rs) v) rs)
        (bucket_of-support_record s r r.final_validity v) (support_from-Counts v next rs))

-- The bucket of a validity after the count has its votes, in all and by cohort, and the records of
-- those who cast them in the order of their slots.
pub summarize_opinion_support-votes :
    (v : Validity) (rs : List OpinionRecord)
    → let b = bucket_of (summarize_opinion_support rs) v in
      (b.total ≡ votes_for v rs)
      × (b.llm_votes ≡ cohort_votes_for v llm rs)
      × (b.human_votes ≡ cohort_votes_for v human rs)
      × (b.records ≡ keep (is_vote_for v) (sort_opinion_records rs))
unfolding summarize_opinion_support sort_opinion_records votes_for cohort_votes_for
summarize_opinion_support-votes v rs =
    let sorted = sort_opinion_records rs in
    let h =
      subst (λ b. Counts v b (bucket_of (support_from no_support sorted) v) sorted)
        (bucket_of-no_support v) (support_from-Counts v no_support sorted) in
    let l = count-sort by_slot_index (is_cohort_vote_for v llm) rs in
    let m = count-sort by_slot_index (is_cohort_vote_for v human) rs in
    (
      omega (arith, h.total, count-sort by_slot_index (is_vote_for v) rs),
      h.llm_votes ∙ omega (arith, l),
      h.human_votes ∙ omega (arith, m),
      h.records,
    )

one_validity :
    (x : Validity)
    → (if same_validity x high then 1 else 0)
        + (if same_validity x medium then 1 else 0)
        + (if same_validity x invalid then 1 else 0)
      ≡ 1
one_validity high = refl
one_validity medium = refl
one_validity invalid = refl

pub one_cohort :
    (t : Bool) (k : Cohort)
    → (if t && same_cohort k llm then 1 else 0) + (if t && same_cohort k human then 1 else 0)
      ≡ (if t then 1 else 0)
one_cohort true llm = refl
one_cohort true human = refl
one_cohort false k = refl

-- Every record votes for one validity, and every vote for it is an LLM juror's or a human's.
pub votes_for-sum :
    (rs : List OpinionRecord)
    → votes_for high rs + votes_for medium rs + votes_for invalid rs ≡ length rs
unfolding votes_for
votes_for-sum [] = omega arith
votes_for-sum (r ∷ rs) = omega (arith, votes_for-sum rs, one_validity r.final_validity)

pub cohort_votes_for-sum :
    (v : Validity) (rs : List OpinionRecord)
    → cohort_votes_for v llm rs + cohort_votes_for v human rs ≡ votes_for v rs
unfolding votes_for cohort_votes_for
cohort_votes_for-sum v [] = omega arith
cohort_votes_for-sum v (r ∷ rs) =
    omega (arith, cohort_votes_for-sum v rs, one_cohort (is_vote_for v r) r.cohort)
