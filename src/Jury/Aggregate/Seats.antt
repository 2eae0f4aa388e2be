-- ===== src/Jury/Aggregate/Seats.antt =====
-- The seats of the jury: of the records of a consistent read at most five are LLM jurors' and five
-- human jurors'.
use anti_soon.Prelude.{
  ℕ, suc, ◌+◌, ◌-◌, ◌≤◌, ◌<◌, ◌≡◌, refl, sym, ap, ◌∙◌, Bool, true, false, not, min, some, List, [],
  ◌∷◌, ltb, length, count, keep, map, arith, if◌then◌else◌, All, All-imp, count-take, count-keep,
  length-keep, length-take,
}
use anti_soon.Prelude.Sort.{count-sort, length-sort}
use anti_soon.Jury.Types.{
  Cohort, llm, human, Validity, same_cohort, RosterSlot, CasePackage, OpinionRecord, OpinionIngest,
  ConsensusPayload,
}
use anti_soon.Jury.Digest.{Digests}
use anti_soon.Jury.Roster.{slot_at}
use anti_soon.Jury.Roster.Resolve.{
  expected_cohort, IsOrdered, IsRoster, resolve_effective_roster_slots-IsRoster,
}
use anti_soon.Jury.Ledger.{sort_opinion_records, by_slot_index}
use anti_soon.Jury.Ledger.Read.Votes.{IsAscending, IsVote, IsConsistent}
use anti_soon.Jury.Support.{bucket_of, summarize_opinion_support, select_consensus_support}
use anti_soon.Jury.Support.Laws.{
  is_vote_for, votes_for, cohort_votes_for, summarize_opinion_support-votes, one_cohort,
}
use anti_soon.Jury.Aggregate.{consensus_payload}

-- The slot of the record is one of the ten, and its cohort is that slot's.
abbrev IsSeated : OpinionRecord → Type 0
IsSeated r = (r.slot_index < 10) × (r.cohort ≡ expected_cohort r.slot_index)

slot_at-expected :
    (n i : ℕ) (slots : List RosterSlot) (slot : RosterSlot)
    → IsOrdered n slots
    → slot_at slots i ≡ some slot
    → (i < n + length slots) × (slot.cohort ≡ expected_cohort i)
slot_at-expected n i [] slot h e = cc
slot_at-expected n i (x ∷ xs) slot h e = ground (arith, slot_at-expected (n + 1) i xs slot)

unfoldable pub of_cohort : Cohort → OpinionRecord → Bool
of_cohort k r = same_cohort r.cohort k

same_cohort-expected :
    (t : Bool)
    → (same_cohort (if t then llm else human) llm ≡ t)
      × (same_cohort (if t then llm else human) human ≡ not t)
same_cohort-expected true = (refl, refl)
same_cohort-expected false = (refl, refl)

of_cohort-seated :
    (r : OpinionRecord)
    → IsSeated r
    → (of_cohort llm r ≡ ltb r.slot_index 5) × (of_cohort human r ≡ not (ltb r.slot_index 5))
unfolding of_cohort
of_cohort-seated r seat =
    let h = same_cohort-expected (ltb r.slot_index 5) in
    (ap (λ k. same_cohort k llm) seat.1 ∙ h.0, ap (λ k. same_cohort k human) seat.1 ∙ h.1)

-- the seats of the LLM jurors from `lo` on
llm_seats :
    (lo : ℕ) (rs : List OpinionRecord)
    → All (λ r. lo ≤ r.slot_index) rs
    → IsAscending rs
    → All IsSeated rs
    → count (of_cohort llm) rs ≤ 5 - lo
llm_seats lo [] low up seat = omega arith
llm_seats lo (r ∷ rs) low up seat =
    let rest =
      llm_seats (r.slot_index + 1) rs (All-imp (λ x p. omega (arith, p)) rs up.0) up.1 seat.1 in
    rw ((of_cohort-seated r seat.0).0) (ground (arith, rest, low.0))

-- the seats of the human jurors from `lo` on
human_seats :
    (lo : ℕ) (rs : List OpinionRecord)
    → All (λ r. lo ≤ r.slot_index) rs
    → IsAscending rs
    → All IsSeated rs
    → count (of_cohort human) rs ≤ min 5 (10 - lo)
human_seats lo [] low up seat = omega arith
human_seats lo (r ∷ rs) low up seat =
    let rest =
      human_seats (r.slot_index + 1) rs (All-imp (λ x p. omega (arith, p)) rs up.0) up.1 seat.1 in
    rw ((of_cohort-seated r seat.0).1) (ground (arith, rest, low.0, seat.0.0))

length-cohorts :
    (rs : List OpinionRecord) → count (of_cohort llm) rs + count (of_cohort human) rs ≡ length rs
unfolding of_cohort
length-cohorts [] = omega arith
length-cohorts (r ∷ rs) = omega (arith, length-cohorts rs, one_cohort true r.cohort)

-- a selection from a bucket has no more of a cohort than the records have
select-cohort :
    (k : Cohort) (v : Validity) (rs : List OpinionRecord)
    → count
        (of_cohort k)
        (select_consensus_support (keep (is_vote_for v) (sort_opinion_records rs)))
      ≤ count (of_cohort k) rs
unfolding select_consensus_support sort_opinion_records
select-cohort k v rs =
    let sorted = sort_opinion_records rs in
    let bucket = keep (is_vote_for v) sorted in
    omega (
      arith,
      count-take (of_cohort k) 8 (sort_opinion_records bucket),
      count-sort by_slot_index (of_cohort k) bucket,
      count-keep (of_cohort k) (is_vote_for v) sorted,
      count-sort by_slot_index (of_cohort k) rs,
    )

length-select :
    (v : Validity) (rs : List OpinionRecord)
    → 8 ≤ votes_for v rs
    → length (select_consensus_support (keep (is_vote_for v) (sort_opinion_records rs))) ≡ 8
unfolding select_consensus_support sort_opinion_records votes_for
length-select v rs h =
    let sorted = sort_opinion_records rs in
    let bucket = keep (is_vote_for v) sorted in
    length-take 8 (sort_opinion_records bucket) (
      omega (
        arith,
        length-sort by_slot_index bucket,
        length-keep (is_vote_for v) sorted,
        count-sort by_slot_index (is_vote_for v) rs,
        h,
      ))

cohort_votes_for-of_cohort :
    (v : Validity) (k : Cohort) (rs : List OpinionRecord)
    → cohort_votes_for v k rs ≤ count (of_cohort k) rs
unfolding cohort_votes_for of_cohort
cohort_votes_for-of_cohort v k [] = omega arith
cohort_votes_for-of_cohort v k (r ∷ rs) = ground (arith, cohort_votes_for-of_cohort v k rs)

pub cohort_votes_for-seats :
    (v : Validity) (rs : List OpinionRecord)
    → (cohort_votes_for v llm rs ≤ count (of_cohort llm) rs)
      × (cohort_votes_for v human rs ≤ count (of_cohort human) rs)
cohort_votes_for-seats v rs =
    (cohort_votes_for-of_cohort v llm rs, cohort_votes_for-of_cohort v human rs)

length-map : {A B : Type 0} (f : A → B) (xs : List A) → length (map f xs) ≡ length xs
length-map f [] = refl
length-map f (x ∷ xs) = ap suc (length-map f xs)

-- What the parser of a consensus asks of its counts and its lists.
pub record IsSound (p : ConsensusPayload) : Type 0 where
  pub eight : p.consensus_vote_count ≡ 8
  pub split : p.llm_agreeing_vote_count + p.human_agreeing_vote_count ≡ p.consensus_vote_count
  pub llm_quota : 3 ≤ p.llm_agreeing_vote_count
  pub human_quota : 3 ≤ p.human_agreeing_vote_count
  pub keys : length p.supporting_opinion_record_keys ≡ p.consensus_vote_count
  pub rationales : length p.supporting_rationale_digests ≡ p.consensus_vote_count
  pub testimonies : length p.supporting_testimony_digests ≡ p.consensus_vote_count

module _ (d : Digests) (c : CasePackage) (committed : IsRoster c.roster_commitment.slots) where
  pub consistent-seats :
      (ingest : OpinionIngest) (records : List OpinionRecord)
      → IsConsistent d c ingest records
      → (count (of_cohort llm) records ≤ 5) × (count (of_cohort human) records ≤ 5)
  consistent-seats ingest records h =
      let roster =
        resolve_effective_roster_slots-IsRoster c.roster_commitment.slots
          c.roster_commitment.human_slot_replacements h.slots committed h.effective in
      let seated : (r : OpinionRecord) → IsVote d c h.slots r → IsSeated r = λ r vote.
        let e = slot_at-expected 0 r.slot_index h.slots vote.0.slot roster.ordered vote.0.found in
        (omega (arith, e.0, roster.ten), sym vote.0.held.same_cohort ∙ e.1) in
      let seats = All-imp seated records h.votes in
      let low : All (λ r. 0 ≤ r.slot_index) records =
        All-imp (λ r _. omega arith) records h.votes in
      (
        omega (arith, llm_seats 0 records low h.ascending seats),
        omega (arith, human_seats 0 records low h.ascending seats),
      )

  selected : List OpinionRecord → Validity → List OpinionRecord
  selected records v =
      select_consensus_support (keep (is_vote_for v) (sort_opinion_records records))

  pub payload-IsSound :
      (now : ℕ) (records : List OpinionRecord) (v : Validity)
      → 8 ≤ votes_for v records
      → count (of_cohort llm) records ≤ 5
      → count (of_cohort human) records ≤ 5
      → IsSound (consensus_payload d c now (summarize_opinion_support records) v)
  unfolding consensus_payload of_cohort
  payload-IsSound now records v eight l m =
      let (_, _, _, same) = summarize_opinion_support-votes v records in
      let chosen =
        select_consensus_support (bucket_of (summarize_opinion_support records) v).records in
      let size : length chosen ≡ 8 =
        ap (λ xs. length (select_consensus_support xs)) same ∙ length-select v records eight in
      let of_llm : count (of_cohort llm) chosen ≤ 5 =
        rw same (omega (arith, select-cohort llm v records, l)) in
      let of_human : count (of_cohort human) chosen ≤ 5 =
        rw same (omega (arith, select-cohort human v records, m)) in
      let all = length-cohorts chosen in
      record {
        eight = size;
        split = omega (arith, all);
        llm_quota = omega (arith, all, of_human, size);
        human_quota = omega (arith, all, of_llm, size);
        keys = length-map _ chosen;
        rationales = length-map _ chosen;
        testimonies = length-map _ chosen;
      }
