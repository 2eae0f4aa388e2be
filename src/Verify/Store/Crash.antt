-- ===== src/Verify/Store/Crash.antt =====
-- A restart at any time: nothing is lost, and what was in progress is not processed again.
use Prim.Native.Nat.{Ordering}
use anti_soon.Prelude.{
  ℕ, ◌≡◌, ◌≢◌, refl, ap, sym, ◌∙◌, String, Bool, true, false, none, some, List, [], ◌∷◌, Result, ok,
  err, arith, All, subst,
}
use anti_soon.Prelude.Map.{get, has}
use anti_soon.Verify.Slots.{processing, quarantined, is_quarantined, claim_idempotency_slot}
use anti_soon.Verify.Slots.Exclusion
use anti_soon.Verify.Slots.Exclusion.{claim_idempotency_slot-granted, apply-processing}
use anti_soon.Verify.Slots.Kept.{claim_idempotency_slot-quarantined}
use anti_soon.Verify.Mapping.{Mapped, MappingError, Derivations}
use anti_soon.Prelude.Json.{Disk}
use anti_soon.Verify.Store.{
  Store, claim_durable_slot, mark_durable, mark_durable_completed, mark_durable_quarantined,
  mark_durable_strict_failed, stamp_mapping, assert_durable_mapping_stable, persist_store,
}
use anti_soon.Verify.Store.Load.{build_empty_store, load_store}
use anti_soon.Prelude.Keys.{over_default}
use anti_soon.Verify.Store.Replay.{recover}
use anti_soon.Verify.Store.Recovery.{IsRecovered}
use anti_soon.Verify.Store.Restart.{IsDurable, load_store-IsRecovered}
use anti_soon.Verify.Store.Runs.{
  DurableOp, claim, complete, quarantine, fail_strictly, assert_mapping, apply, run, apply-Durable,
  run-Durable, persist_store-IsSaved,
}

-- The operation is no mark of the sync id.
abbrev pub IsForeign : {Input : Type 0} → String → DurableOp Input → Type 0
IsForeign key (claim sync_id now) = Unit
IsForeign key (complete sync_id now) = sync_id ≢ key
IsForeign key (quarantine sync_id now) = sync_id ≢ key
IsForeign key (fail_strictly sync_id now) = sync_id ≢ key
IsForeign key (assert_mapping input now) = Unit

module _ (locale_compare : String → String → Ordering) where
  -- What the next load gives after the operations.
  abbrev pub ComesBack : String → ℕ → Store × Disk → Type 0
  ComesBack path later (s, d) =
      (s' : Store) × ((load_store locale_compare path true later d).0 ≡ ok s')
      × IsRecovered later s s'

  -- what is refused to a process that restarts
  abbrev pub IsRefusedAfter : String → ℕ → Store × Disk → Type 0
  IsRefusedAfter key later (s, d) =
      (s' : Store) × ((load_store locale_compare s.file_path true later d).0 ≡ ok s')
      × ((claim_durable_slot locale_compare s' d key later).2
          ≡ record { should_process = false; reason = is_quarantined })

module _ (locale_compare : String → String → Ordering) {Input : Type 0}
    (keys : Derivations Input) where
  stamp_mapping-rest :
      (b : Bool) (r : Result MappingError Mapped) (s : Store) (d : Disk) (key : String) (now : ℕ)
      → let t = (stamp_mapping locale_compare keys b r s d key now).1 in
        (t.file_path ≡ s.file_path) × (t.sync_status_by_sync_id ≡ s.sync_status_by_sync_id)
  unfolding stamp_mapping
  stamp_mapping-rest true (ok r) s d key now = (refl, refl)
  stamp_mapping-rest false (ok r) s d key now = (refl, refl)
  stamp_mapping-rest b (err e) s d key now = (refl, refl)

  apply-path :
      (op : DurableOp Input) (s : Store) (d : Disk)
      → (apply locale_compare keys op (s, d)).0.file_path ≡ s.file_path
  unfolding apply claim_durable_slot mark_durable mark_durable_completed mark_durable_quarantined
      mark_durable_strict_failed assert_durable_mapping_stable
  apply-path (claim sync_id now) s d = ground arith
  apply-path (complete sync_id now) s d = refl
  apply-path (quarantine sync_id now) s d = refl
  apply-path (fail_strictly sync_id now) s d = refl
  apply-path (assert_mapping input now) s d =
      (stamp_mapping-rest (has s.source_event_mapping (keys.source_event_key input)) _ _ d _ now).0

  run-path :
      (ops : List (DurableOp Input)) (s : Store) (d : Disk)
      → (run locale_compare keys ops (s, d)).0.file_path ≡ s.file_path
  unfolding run
  run-path [] s d = refl
  run-path (op ∷ ops) s d =
      run-path ops (apply locale_compare keys op (s, d)).0 (apply locale_compare keys op (s, d)).1
      ∙ apply-path op s d

  claim-statuses :
      (s : Store) (d : Disk) (sync_id : String) (now : ℕ)
      → (claim_durable_slot locale_compare s d sync_id now).0.sync_status_by_sync_id
        ≡ (claim_idempotency_slot s.sync_status_by_sync_id sync_id false).0
  unfolding claim_durable_slot
  claim-statuses s d sync_id now = ground arith

  claim-decision :
      (s : Store) (d : Disk) (sync_id : String) (now : ℕ)
      → (claim_durable_slot locale_compare s d sync_id now).2
        ≡ (claim_idempotency_slot s.sync_status_by_sync_id sync_id false).1
  unfolding claim_durable_slot
  claim-decision s d sync_id now = ground arith

  claimed-processing :
      (s : Store) (d : Disk) (key : String) (now : ℕ)
      → (claim_durable_slot locale_compare s d key now).2.should_process ≡ true
      → get (apply locale_compare keys (claim key now) (s, d)).0.sync_status_by_sync_id key
        ≡ some processing
  unfolding apply
  claimed-processing s d key now h =
      ap (λ m. get m key) (claim-statuses s d key now)
      ∙ claim_idempotency_slot-granted s.sync_status_by_sync_id key false
          (ap (λ x. x.should_process) (sym (claim-decision s d key now)) ∙ h)

  refused :
      (s : Store) (d : Disk) (key : String) (now : ℕ)
      → get s.sync_status_by_sync_id key ≡ some quarantined
      → (claim_durable_slot locale_compare s d key now).2
        ≡ record { should_process = false; reason = is_quarantined }
  refused s d key now h =
      claim-decision s d key now ∙ claim_idempotency_slot-quarantined s.sync_status_by_sync_id key h

  durable-processing :
      (op : DurableOp Input) (s : Store) (d : Disk) (key : String)
      → IsForeign key op
      → get s.sync_status_by_sync_id key ≡ some processing
      → get (apply locale_compare keys op (s, d)).0.sync_status_by_sync_id key ≡ some processing
  unfolding apply mark_durable mark_durable_completed mark_durable_quarantined
      mark_durable_strict_failed assert_durable_mapping_stable Exclusion.apply
  durable-processing (claim sync_id now) s d key f e =
      ap (λ m. get m key) (claim-statuses s d sync_id now)
      ∙ apply-processing (Exclusion.claim sync_id false) s.sync_status_by_sync_id key tt e
  durable-processing (complete sync_id now) s d key f e =
      apply-processing (Exclusion.complete sync_id) s.sync_status_by_sync_id key f e
  durable-processing (quarantine sync_id now) s d key f e =
      apply-processing (Exclusion.quarantine sync_id) s.sync_status_by_sync_id key f e
  durable-processing (fail_strictly sync_id now) s d key f e =
      apply-processing (Exclusion.fail_strictly sync_id) s.sync_status_by_sync_id key f e
  durable-processing (assert_mapping input now) s d key f e =
      ap (λ m. get m key)
        (stamp_mapping-rest (has s.source_event_mapping (keys.source_event_key input)) _ _ d _
          now).1
      ∙ e

  run-processing :
      (ops : List (DurableOp Input)) (s : Store) (d : Disk) (key : String)
      → All (IsForeign key) ops
      → get s.sync_status_by_sync_id key ≡ some processing
      → get (run locale_compare keys ops (s, d)).0.sync_status_by_sync_id key ≡ some processing
  unfolding run
  run-processing [] s d key f e = e
  run-processing (op ∷ ops) s d key (f, fs) e =
      let next = apply locale_compare keys op (s, d) in
      run-processing ops next.0 next.1 key fs (durable-processing op s d key f e)

  -- the first load writes an empty store
  first_load :
      (path : String) (now : ℕ) (disk : Disk)
      → has disk path ≡ false
      → let s = build_empty_store path true in
        (load_store locale_compare path true now disk ≡ (ok s, persist_store locale_compare s disk))
        × IsDurable locale_compare s (persist_store locale_compare s disk)
  unfolding load_store build_empty_store
  first_load path now disk h = (
    ground arith,
    record {
      saved = persist_store-IsSaved locale_compare (build_empty_store path true) disk refl;
      file_ops = refl;
      statuses_keyed = tt;
      mappings_keyed = tt;
    },
  )

  -- From the first load of a file that is not there on, after whatever operations, the next load of
  -- the file gives the store back: every status and mapping with its time, but that the
  -- synchronisations that were in progress are quarantined as of then, and counted.
  pub run-ComesBack :
      (path : String) (now later : ℕ) (disk : Disk) (ops : List (DurableOp Input))
      → has disk path ≡ false
      → (s : Store) × ((load_store locale_compare path true now disk).0 ≡ ok s)
        × ComesBack locale_compare path later
            (run locale_compare keys ops (s, (load_store locale_compare path true now disk).1))
  unfolding build_empty_store
  run-ComesBack path now later disk ops absent =
      let s = build_empty_store path true in
      let d = persist_store locale_compare s disk in
      let (e, durable) = first_load path now disk absent in
      let (t, d') = run locale_compare keys ops (s, d) in
      let back =
        load_store-IsRecovered locale_compare later t d'
          (run-Durable locale_compare keys ops s d durable) in
      (
        s,
        ap (λ r. r.0) e,
        subst (λ x. ComesBack locale_compare path later (run locale_compare keys ops (s, x)))
            (sym (ap (λ r. r.1) e))
            (subst (λ p. ComesBack locale_compare p later (t, d')) (run-path ops s d) back),
      )

  -- When the file holds the store, a claim of a sync id was granted, and any operations but a mark
  -- of that id followed, then a process that loads the file again is refused the id as quarantined.
  pub run-IsRefusedAfter :
      (s : Store) (d : Disk) (key : String) (now later : ℕ) (ops : List (DurableOp Input))
      → IsDurable locale_compare s d
      → (claim_durable_slot locale_compare s d key now).2.should_process ≡ true
      → All (IsForeign key) ops
      → IsRefusedAfter locale_compare key later
          (run locale_compare keys ops (apply locale_compare keys (claim key now) (s, d)))
  unfolding recover
  run-IsRefusedAfter s d key now later ops durable granted foreign =
      let start = apply locale_compare keys (claim key now) (s, d) in
      let (t, d') = run locale_compare keys ops start in
      let held =
        run-processing ops start.0 start.1 key foreign (claimed-processing s d key now granted) in
      let (s', e, back) = load_store-IsRecovered locale_compare later t d' (
        run-Durable locale_compare keys ops start.0 start.1
          (apply-Durable locale_compare keys (claim key now) s d durable)) in
      (
        s',
        e,
        refused s' d' key later (back.status key ∙ ap (λ o. over_default recover o none) held),
      )
