-- ===== src/Jury/Ledger/Ingested.antt =====
-- What a successful ingest has put into the ledger.
use anti_soon.Prelude.{
  ◌≡◌, ◌≢◌, refl, sym, ap, ◌∙◌, subst, String, false, not, ◌&&◌, Option, none, some, List, [], ◌∷◌,
  ◌++◌, ok, str_eq, length, arith, eq_iff, All, All-append, both_true,
}
use mathlib.Core.List.{append_assoc, append-nil}
use anti_soon.Prelude.Map.{Map, has, get, values, get-of_has, set-new, values-append}
use anti_soon.Prelude.Pairwise.{Pairwise, Pairwise-snoc}
use anti_soon.Prelude.Results.{bind_parts, demand_then, ok_unique, bind_ok, test_ok}
use anti_soon.Jury.Types.{
  same_cohort, RosterSlot, CasePackage, OpinionRecord, OpinionIngest, slot_not_committed,
}
use anti_soon.Jury.Digest.{Digests}
use anti_soon.Jury.Roster.{effective_slots, slot_at, check_slot, assert_roster_slot_authorized}
use anti_soon.Jury.Roster.Resolve.{same_cohort_eq}
use anti_soon.Jury.Ledger.{
  SealedOpinion, sort_opinion_records, derive_scope_key, derive_record_key, opinion_record,
  ingest_opinion, ingest_opinions, ingest_juror_opinions,
}

abbrev pub HasOtherKey : OpinionRecord → OpinionRecord → Type 0
HasOtherKey x y = x.record_key ≢ y.record_key

-- The opinion is of the juror who holds the slot.
pub record IsAuthorized (slots : List RosterSlot) (o : SealedOpinion) (slot : RosterSlot)
    : Type 0 where
  pub found : slot_at slots o.slot_index ≡ some slot
  pub same_cohort : slot.cohort ≡ o.cohort
  pub same_juror : slot.juror_id ≡ o.juror_id

check_slot-IsAuthorized :
    (slots : List RosterSlot) (o : SealedOpinion) (found : Option RosterSlot) (slot : RosterSlot)
    → slot_at slots o.slot_index ≡ found
    → check_slot found o.cohort o.juror_id ≡ ok slot
    → IsAuthorized slots o slot
unfolding check_slot
check_slot-IsAuthorized slots o none slot e h = cc
check_slot-IsAuthorized slots o (some x) slot e h =
    let test = same_cohort x.cohort o.cohort && str_eq x.juror_id o.juror_id in
    let (holds, same) = test_ok test x slot_not_committed h in
    let (a, b) = both_true (same_cohort x.cohort o.cohort) (str_eq x.juror_id o.juror_id) holds in
    record {
      found = e ∙ ap some same;
      same_cohort = ap (λ s. s.cohort) (sym same) ∙ same_cohort_eq x.cohort o.cohort a;
      same_juror = ap (λ s. s.juror_id) (sym same) ∙ (eq_iff x.juror_id o.juror_id).0 b;
    }

module _ (d : Digests) (c : CasePackage) (slots : List RosterSlot) where
  -- The records are those of the opinions, one for one.
  abbrev pub Ingested : List SealedOpinion → List OpinionRecord → Type 0
  Ingested [] [] = Unit
  Ingested [] (r ∷ rs) = ⊥
  Ingested (o ∷ os) [] = ⊥
  Ingested (o ∷ os) (r ∷ rs) =
      ((slot : RosterSlot) × IsAuthorized slots o slot × (r ≡ opinion_record d c slot o))
      × Ingested os rs

  -- What one round of the loop does to the ledger.
  record Appended (m next : Map OpinionRecord) (o : SealedOpinion) : Type 0 where
    slot : RosterSlot
    authorized : IsAuthorized slots o slot
    free : has m (derive_record_key d c slot.slot_index) ≡ false
    grown : next ≡ m ++ (derive_record_key d c slot.slot_index, opinion_record d c slot o) ∷ []

  ingest_opinion-Appended :
      (m next : Map OpinionRecord) (o : SealedOpinion)
      → effective_slots c ≡ ok slots
      → ingest_opinion d c m o ≡ ok next
      → Appended m next o
  unfolding ingest_opinion assert_roster_slot_authorized
  ingest_opinion-Appended m next o e h =
      let (slot, p, q) =
        bind_parts (assert_roster_slot_authorized c o.slot_index o.cohort o.juror_id) _ h in
      let key = derive_record_key d c slot.slot_index in
      let (f, r) = demand_then (not (has m key)) _ _ q in
      let free : has m key ≡ false = ground (arith, f) in
      record {
        slot = slot;
        authorized = check_slot-IsAuthorized slots o _ slot refl (sym (bind_ok _ e) ∙ p);
        free = free;
        grown =
            ok_unique r refl ∙ set-new m key (opinion_record d c slot o) (get-of_has m key free);
      }

  -- no record of a ledger is under a key that the ledger does not have
  HasOtherKey-of_absent :
      (m : Map OpinionRecord) (r : OpinionRecord)
      → All (λ e. e.0 ≡ e.1.record_key) m
      → get m r.record_key ≡ none
      → All (λ x. HasOtherKey x r) (values m)
  unfolding get values
  HasOtherKey-of_absent [] r k h = tt
  HasOtherKey-of_absent ((j, x) ∷ m) r k h =
      let differs : j ≢ r.record_key = λ q. ground (arith, eq_iff j r.record_key, q) in
      let rest : get m r.record_key ≡ none = ground (arith, eq_iff j r.record_key) in
      (λ q. differs (k.0 ∙ q), HasOtherKey-of_absent m r k.1 rest)

  -- Every record stands under its own key, and no two have one key.
  record IsLedger (m : Map OpinionRecord) : Type 0 where
    keyed : All (λ e. e.0 ≡ e.1.record_key) m
    other_keys : Pairwise HasOtherKey (values m)

  opinion_record-record_key :
      (slot : RosterSlot) (o : SealedOpinion)
      → (opinion_record d c slot o).record_key ≡ derive_record_key d c slot.slot_index
  unfolding opinion_record
  opinion_record-record_key slot o = refl

  values-snoc :
      (m : Map OpinionRecord) (k : String) (r : OpinionRecord)
      → values (m ++ (k, r) ∷ []) ≡ values m ++ r ∷ []
  unfolding values
  values-snoc m k r = values-append m ((k, r) ∷ [])

  Appended-IsLedger :
      (m next : Map OpinionRecord) (o : SealedOpinion)
      → Appended m next o
      → IsLedger m
      → IsLedger next
  Appended-IsLedger m next o a h =
      let key = derive_record_key d c a.slot.slot_index in
      let r = opinion_record d c a.slot o in
      let own = opinion_record-record_key a.slot o in
      let absent : get m r.record_key ≡ none = ap (get m) own ∙ get-of_has m key a.free in
      subst IsLedger (sym a.grown) (record {
        keyed = All-append (λ e. e.0 ≡ e.1.record_key) m ((key, r) ∷ []) h.keyed (sym own, tt);
        other_keys = subst (Pairwise HasOtherKey) (sym (values-snoc m key r)) (
            Pairwise-snoc HasOtherKey (values m) r h.other_keys
              (HasOtherKey-of_absent m r h.keyed absent));
      })

  ingest_opinions-Ingested :
      (m final : Map OpinionRecord) (os : List SealedOpinion)
      → effective_slots c ≡ ok slots
      → IsLedger m
      → ingest_opinions d c m os ≡ ok final
      → IsLedger final
        × (rs : List OpinionRecord) × (values final ≡ values m ++ rs)
        × Ingested os rs
  unfolding ingest_opinions
  ingest_opinions-Ingested m final [] e l h =
      let same = ok_unique {m = ok m} h refl in
      (subst IsLedger (sym same) l, [], ap values same ∙ sym (append-nil (values m)), tt)
  ingest_opinions-Ingested m final (o ∷ os) e l h =
      let (next, p, q) = bind_parts (ingest_opinion d c m o) _ h in
      let a = ingest_opinion-Appended m next o e p in
      let r = opinion_record d c a.slot o in
      let (ledger, rs, all, each) =
        ingest_opinions-Ingested next final os e (Appended-IsLedger m next o a l) q in
      let grown : values next ≡ values m ++ r ∷ [] = ap values a.grown ∙ values-snoc m _ r in
      (
        ledger,
        r ∷ rs,
        all ∙ ap (λ vs. vs ++ rs) grown ∙ append_assoc (values m) (r ∷ []) rs,
        ((a.slot, a.authorized, refl), each),
      )

  -- The ledger of the case with these records.
  abbrev pub ledger_of : List OpinionRecord → OpinionIngest
  ledger_of rs = record {
    submission_id = c.submission_id;
    project_id = c.project_id;
    jury_round_id = c.jury_round_id;
    scope_key = derive_scope_key d c;
    record_count = length (sort_opinion_records rs);
    records = sort_opinion_records rs;
  }

  -- An ingest over the effective roster that succeeds has taken every opinion from the juror who
  -- holds its slot, gives the records of the opinions, one for one, in the order of the slots, and
  -- no two of them have one key.
  pub ingest_juror_opinions-Ingested :
      (os : List SealedOpinion) (ledger : OpinionIngest)
      → effective_slots c ≡ ok slots
      → ingest_juror_opinions d c os ≡ ok ledger
      → (rs : List OpinionRecord) × Ingested os rs
        × Pairwise HasOtherKey rs
        × (ledger ≡ ledger_of rs)
  unfolding ingest_juror_opinions values
  ingest_juror_opinions-Ingested os ledger e h =
      let (m, p, q) = bind_parts (ingest_opinions d c [] os) _ h in
      let (l, rs, all, each) =
        ingest_opinions-Ingested [] m os e (record { keyed = tt; other_keys = tt }) p in
      (rs, each, subst (Pairwise HasOtherKey) all l.other_keys, ok_unique q refl ∙ ap ledger_of all)
