-- ===== src/Verify/Slots/Exclusion.antt =====
-- A key is processed by one at a time.
use anti_soon.Prelude.{
  String, ◌≡◌, ◌≢◌, refl, ap, ◌∙◌, Bool, true, false, Option, none, some, List, [], ◌∷◌, eq_iff,
  All, arith,
}
use anti_soon.Prelude.Map.{Map, get, set, get-set, get-set_self}
use anti_soon.Verify.Slots.{
  Status, processing, completed, quarantined, strict_failed, in_flight, reclaim_at, claim_at,
  claim_idempotency_slot, mark_completed, mark_quarantined, mark_strict_failed, release_at,
  release_slot,
}

-- The operations on the slots.
pub data Op : Type 0 where
  claim : (key : String) (allow_quarantined_reclaim : Bool) → Op
  complete quarantine fail_strictly release : (key : String) → Op

unfoldable pub apply : Op → Map Status → Map Status
apply (claim key allow_reclaim) m = (claim_idempotency_slot m key allow_reclaim).0
apply (complete key) m = mark_completed m key
apply (quarantine key) m = mark_quarantined m key
apply (fail_strictly key) m = mark_strict_failed m key
apply (release key) m = release_slot m key

unfoldable pub run : List Op → Map Status → Map Status
unfolding apply
run [] m = m
run (op ∷ ops) m = run ops (apply op m)

-- The operation is no mark and no release of the key.
abbrev pub IsForeign : String → Op → Type 0
IsForeign key (claim k allow_reclaim) = Unit
IsForeign key (complete k) = k ≢ key
IsForeign key (quarantine k) = k ≢ key
IsForeign key (fail_strictly k) = k ≢ key
IsForeign key (release k) = k ≢ key

get-set_other :
    (m : Map Status) (k key : String) (v : Status) → k ≢ key → get (set m k v) key ≡ get m key
get-set_other m k key v n = get-set m k key v ∙ ground (arith, eq_iff k key, n)

get-set_processing :
    (m : Map Status) (k key : String)
    → get m key ≡ some processing
    → get (set m k processing) key ≡ some processing
get-set_processing m k key e = get-set m k key processing ∙ ground (arith, e)

claim_at-processing :
    (o : Option Status) (allow_reclaim : Bool) (m : Map Status) (k key : String)
    → get m key ≡ some processing
    → get (claim_at o allow_reclaim m k).0 key ≡ some processing
unfolding claim_at reclaim_at
claim_at-processing none allow_reclaim m k key e = get-set_processing m k key e
claim_at-processing (some processing) allow_reclaim m k key e = e
claim_at-processing (some completed) allow_reclaim m k key e = e
claim_at-processing (some quarantined) true m k key e = get-set_processing m k key e
claim_at-processing (some quarantined) false m k key e = e
claim_at-processing (some strict_failed) allow_reclaim m k key e = e

release_at-other :
    (o : Option Status) (m : Map Status) (k key : String)
    → k ≢ key
    → get (release_at o m k) key ≡ get m key
unfolding release_at
release_at-other none m k key n = refl
release_at-other (some processing) m k key n = get-set_other m k key quarantined n
release_at-other (some completed) m k key n = refl
release_at-other (some quarantined) m k key n = refl
release_at-other (some strict_failed) m k key n = refl

pub apply-processing :
    (op : Op) (m : Map Status) (key : String)
    → IsForeign key op
    → get m key ≡ some processing
    → get (apply op m) key ≡ some processing
unfolding apply claim_idempotency_slot mark_completed mark_quarantined mark_strict_failed
    release_slot
apply-processing (claim k allow_reclaim) m key f e =
    claim_at-processing (get m k) allow_reclaim m k key e
apply-processing (complete k) m key f e = get-set_other m k key completed f ∙ e
apply-processing (quarantine k) m key f e = get-set_other m k key quarantined f ∙ e
apply-processing (fail_strictly k) m key f e = get-set_other m k key strict_failed f ∙ e
apply-processing (release k) m key f e = release_at-other (get m k) m k key f ∙ e

pub run-processing :
    (ops : List Op) (m : Map Status) (key : String)
    → All (IsForeign key) ops
    → get m key ≡ some processing
    → get (run ops m) key ≡ some processing
unfolding run
run-processing [] m key f e = e
run-processing (op ∷ ops) m key f e =
    run-processing ops (apply op m) key f.1 (apply-processing op m key f.0 e)

claim_at-granted :
    (o : Option Status) (allow_reclaim : Bool) (m : Map Status) (key : String)
    → (claim_at o allow_reclaim m key).1.should_process ≡ true
    → get (claim_at o allow_reclaim m key).0 key ≡ some processing
unfolding claim_at reclaim_at
claim_at-granted none allow_reclaim m key h = get-set_self m key processing
claim_at-granted (some processing) allow_reclaim m key h = cc
claim_at-granted (some completed) allow_reclaim m key h = cc
claim_at-granted (some quarantined) true m key h = get-set_self m key processing
claim_at-granted (some quarantined) false m key h = cc
claim_at-granted (some strict_failed) allow_reclaim m key h = cc

-- a claim that is granted is in progress
pub claim_idempotency_slot-granted :
    (m : Map Status) (key : String) (allow_reclaim : Bool)
    → (claim_idempotency_slot m key allow_reclaim).1.should_process ≡ true
    → get (claim_idempotency_slot m key allow_reclaim).0 key ≡ some processing
unfolding claim_idempotency_slot
claim_idempotency_slot-granted m key allow_reclaim h =
    claim_at-granted (get m key) allow_reclaim m key h

-- After a claim of a key was granted, and any operations but a mark or a release of that key, a
-- claim of the key is refused as in flight, with or without the right to reclaim.
pub claim_idempotency_slot-exclusive :
    (m : Map Status) (key : String) (allow_reclaim again : Bool) (ops : List Op)
    → (claim_idempotency_slot m key allow_reclaim).1.should_process ≡ true
    → All (IsForeign key) ops
    → (claim_idempotency_slot (run ops (claim_idempotency_slot m key allow_reclaim).0) key again).1
      ≡ record { should_process = false; reason = in_flight }
unfolding claim_idempotency_slot claim_at
claim_idempotency_slot-exclusive m key allow_reclaim again ops granted foreign =
    let next = (claim_at (get m key) allow_reclaim m key).0 in
    let held =
      run-processing ops next key foreign
        (claim_at-granted (get m key) allow_reclaim m key granted) in
    ap (λ o. (claim_at o again (run ops next) key).1) held
