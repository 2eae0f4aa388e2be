-- ===== src/Jury/Aggregate/Laws.antt =====
-- When the jury has a consensus.
use anti_soon.Prelude.{
  ℕ, ◌+◌, ◌≤◌, ◌<◌, ◌≡◌, ◌↔◌, refl, sym, ap, ◌∙◌, Bool, true, false, ◌&&◌, Option, none, some, List,
  ok, ltb, leb, length, arith, if◌then◌else◌,
}
use anti_soon.Prelude.Results.{demand_holds, demand_then, ok_unique}
use anti_soon.Jury.Types.{
  llm, human, Validity, high, medium, invalid, CasePackage, OpinionRecord, ConsensusPayload,
  jury_consensus,
}
use anti_soon.Jury.Digest.{Digests}
use anti_soon.Jury.Support.{Support, bucket_of, qualifies, summarize_opinion_support, winner}
use anti_soon.Jury.Support.Laws.{
  votes_for, cohort_votes_for, summarize_opinion_support-votes, votes_for-sum,
}
use anti_soon.Jury.Aggregate.{decide, consensus_payload, aggregate_opinion_records}

-- Eight votes, and three of each cohort.
abbrev pub HasConsensus : Validity → List OpinionRecord → Type 0
HasConsensus v rs =
    (8 ≤ votes_for v rs) × (3 ≤ cohort_votes_for v llm rs) × (3 ≤ cohort_votes_for v human rs)

qualifies_iff :
    (v : Validity) (rs : List OpinionRecord)
    → (qualifies (bucket_of (summarize_opinion_support rs) v) ≡ true) ↔ HasConsensus v rs
qualifies_iff v rs =
    let (t, l, m, _) = summarize_opinion_support-votes v rs in rw (t, l, m) (ground arith)

-- `x`, `y` and `z` say which validities qualify, at most one of them
chosen : Bool → Bool → Bool → Validity → Bool
chosen x y z high = x
chosen x y z medium = y
chosen x y z invalid = z

first_iff :
    (x y z : Bool) (v : Validity)
    → (x && y) ≡ false
    → (x && z) ≡ false
    → (y && z) ≡ false
    → ((if x then some high else if y then some medium else if z then some invalid else none)
        ≡ some v)
      ↔ (chosen x y z v ≡ true)
unfolding chosen
first_iff x y z high a b c = ground arith
first_iff x y z medium a b c = ground arith
first_iff x y z invalid a b c = ground arith

not_both : (x y : Bool) → ((x ≡ true) → (y ≡ true) → 16 ≤ 15) → (x && y) ≡ false
not_both true true h = ground (arith, h refl refl)
not_both true false h = refl
not_both false y h = refl

module _ (rs : List OpinionRecord) (few : length rs ≤ 15) where
  unfoldable qualified : Validity → Bool
  qualified v = qualifies (bucket_of (summarize_opinion_support rs) v)

  chosen_iff :
      (v : Validity)
      → (chosen (qualified high) (qualified medium) (qualified invalid) v ≡ true)
        ↔ HasConsensus v rs
  unfolding qualified chosen
  chosen_iff high = qualifies_iff high rs
  chosen_iff medium = qualifies_iff medium rs
  chosen_iff invalid = qualifies_iff invalid rs

  exclusive :
      (v w : Validity)
      → 8 ≤ votes_for v rs
      → 8 ≤ votes_for w rs
      → (votes_for v rs + votes_for w rs ≤ length rs)
      → 16 ≤ 15
  exclusive v w p q e = omega (arith, few)

  -- of two validities at most one has eight of fifteen votes
  pub winner_iff :
      (v : Validity) → (winner (summarize_opinion_support rs) ≡ some v) ↔ HasConsensus v rs
  unfolding winner qualified
  winner_iff v =
      let sum = votes_for-sum rs in
      let has = λ (w : Validity) (e : qualified w ≡ true). ((qualifies_iff w rs).0 e).0 in
      let first =
        first_iff (qualified high) (qualified medium) (qualified invalid) v
          (not_both _ _
            (λ p q. exclusive high medium (has high p) (has medium q) (omega (arith, sum))))
          (not_both _ _
            (λ p q. exclusive high invalid (has high p) (has invalid q) (omega (arith, sum))))
          (not_both _ _ (λ p q.
            exclusive medium invalid (has medium p) (has invalid q) (omega (arith, sum)))) in
      (λ p. (chosen_iff v).0 (first.0 p), λ q. first.1 ((chosen_iff v).1 q))

module _ (d : Digests) (c : CasePackage) where
  aggregate_opinion_records-decide :
      (now : ℕ) (rs : List OpinionRecord)
      → 0 < now
      → 0 < length rs
      → c.jury_deadline_timestamp_sec ≤ now
      → let s = summarize_opinion_support rs in
        aggregate_opinion_records d c now rs ≡ ok (decide d c now s rs (winner s))
  unfolding aggregate_opinion_records
  aggregate_opinion_records-decide now rs p q r =
      demand_holds {c = ltb 0 now} _ _ (ground arith)
      ∙ demand_holds {c = ltb 0 (length rs)} _ _ (ground arith)
      ∙ demand_holds {c = leb c.jury_deadline_timestamp_sec now} _ _ (ground arith)

  -- A validity that has a consensus among at most fifteen votes wins.
  pub aggregate_opinion_records-consensus :
      (now : ℕ) (rs : List OpinionRecord) (v : Validity)
      → 0 < now
      → 0 < length rs
      → length rs ≤ 15
      → c.jury_deadline_timestamp_sec ≤ now
      → HasConsensus v rs
      → aggregate_opinion_records d c now rs
        ≡ ok (jury_consensus (consensus_payload d c now (summarize_opinion_support rs) v))
  unfolding decide
  aggregate_opinion_records-consensus now rs v p q few r h =
      aggregate_opinion_records-decide now rs p q r
      ∙ ap (λ o. ok (decide d c now (summarize_opinion_support rs) rs o))
          ((winner_iff rs few v).1 h)

  decide-consensus :
      (now : ℕ) (s : Support) (rs : List OpinionRecord) (o : Option Validity) (p : ConsensusPayload)
      → decide d c now s rs o ≡ jury_consensus p
      → (v : Validity) × (o ≡ some v) × (p ≡ consensus_payload d c now s v)
  unfolding decide
  decide-consensus now s rs none p e = cc
  decide-consensus now s rs (some v) p e = (v, refl, cc)

  -- A consensus names the winner, and its payload is made of the winner's votes.
  pub aggregate_opinion_records-winner :
      (now : ℕ) (rs : List OpinionRecord) (p : ConsensusPayload)
      → aggregate_opinion_records d c now rs ≡ ok (jury_consensus p)
      → (v : Validity) × (winner (summarize_opinion_support rs) ≡ some v)
        × (p ≡ consensus_payload d c now (summarize_opinion_support rs) v)
  unfolding aggregate_opinion_records
  aggregate_opinion_records-winner now rs p h =
      let s = summarize_opinion_support rs in
      let (_, h1) = demand_then (ltb 0 now) _ _ h in
      let (_, h2) = demand_then (ltb 0 (length rs)) _ _ h1 in
      let (_, h3) = demand_then (leb c.jury_deadline_timestamp_sec now) _ _ h2 in
      decide-consensus now s rs (winner s) p (ok_unique refl h3)

  -- With at most fifteen votes, a jury has ten, the aggregation of a round past its deadline is a
  -- consensus on a validity exactly when it has eight votes, three of them LLM jurors' and three
  -- human jurors'.
  pub aggregate_opinion_records-consensus_iff :
      (now : ℕ) (rs : List OpinionRecord) (v : Validity)
      → 0 < now
      → 0 < length rs
      → length rs ≤ 15
      → c.jury_deadline_timestamp_sec ≤ now
      → ((p : ConsensusPayload) × (aggregate_opinion_records d c now rs ≡ ok (jury_consensus p))
          × (p.final_validity ≡ v))
        ↔ HasConsensus v rs
  unfolding decide consensus_payload
  aggregate_opinion_records-consensus_iff now rs v p q few r = (
    λ found.
        let (w, win, same) = aggregate_opinion_records-winner now rs found.0 found.1 in
        (winner_iff rs few v).0 (win ∙ ap some (sym (ap (λ x. x.final_validity) same) ∙ found.2)),
    λ h. (
      consensus_payload d c now (summarize_opinion_support rs) v,
      aggregate_opinion_records-consensus now rs v p q few r h,
      refl,
    ),
  )
