-- ===== src/Verify/Store/Runs.antt =====
-- The file holds the store after every operation.
use Prim.Native.Nat.{Ordering}
use anti_soon.Prelude.{
  ℕ, ◌≡◌, ap, ◌∙◌, String, true, false, some, List, [], ◌∷◌, Result, ok, err, inl, inr, Bool-cases,
  if◌then◌else◌,
}
use anti_soon.Prelude.Map.{Map, get, set, has, get-set_self}
use anti_soon.Prelude.Keys.{IsKeyed, set-IsKeyed}
use anti_soon.Verify.Slots.{
  Status, completed, quarantined, strict_failed, claim_idempotency_slot, mark_completed,
  mark_quarantined, mark_strict_failed,
}
use anti_soon.Verify.Slots.Kept.{claim_idempotency_slot-refused, claim_idempotency_slot-IsKeyed}
use anti_soon.Verify.Mapping.{Mapped, MappingError, Derivations, assert_mapping_stable}
use anti_soon.Verify.Mapping.Kept.{
  assert_mapping_stable-IsKeyed, assert_mapping_stable-known, assert_mapping_stable-new,
}
use anti_soon.Prelude.Json.{Disk}
use anti_soon.Verify.Store.{
  Store, payload, write_store, persist_store, claim_durable_slot, mark_durable,
  mark_durable_completed, mark_durable_quarantined, mark_durable_strict_failed, stamp_mapping,
  assert_durable_mapping_stable,
}
use anti_soon.Verify.Store.Recovery.{IsSaved}
use anti_soon.Verify.Store.Restart.{IsDurable}

-- The operations on the durable store, each at its time.
pub data DurableOp (Input : Type 0) : Type 0 where
  claim : (sync_id : String) (now_ms : ℕ) → DurableOp Input
  complete : (sync_id : String) (now_ms : ℕ) → DurableOp Input
  quarantine : (sync_id : String) (now_ms : ℕ) → DurableOp Input
  fail_strictly : (sync_id : String) (now_ms : ℕ) → DurableOp Input
  assert_mapping : (input : Input) (now_ms : ℕ) → DurableOp Input

module _ (locale_compare : String → String → Ordering) where
  -- a write puts the store in its file
  pub persist_store-IsSaved :
      (s : Store) (disk : Disk)
      → s.has_file_ops ≡ true
      → IsSaved locale_compare s (persist_store locale_compare s disk)
  unfolding persist_store write_store
  persist_store-IsSaved s disk h =
      ap (λ b. get (if b then write_store locale_compare s disk else disk) s.file_path) h
      ∙ get-set_self _ s.file_path (some (payload locale_compare s))

  module _ {Input : Type 0} (keys : Derivations Input) where
    unfoldable pub apply : DurableOp Input → Store × Disk → Store × Disk
    apply (claim sync_id now) (s, d) =
        let (s', d', _) = claim_durable_slot locale_compare s d sync_id now in (s', d')
    apply (complete sync_id now) (s, d) = mark_durable_completed locale_compare s d sync_id now
    apply (quarantine sync_id now) (s, d) = mark_durable_quarantined locale_compare s d sync_id now
    apply (fail_strictly sync_id now) (s, d) =
        mark_durable_strict_failed locale_compare s d sync_id now
    apply (assert_mapping input now) (s, d) =
        let (_, s', d') = assert_durable_mapping_stable locale_compare keys s d input now in
        (s', d')

    unfoldable pub run : List (DurableOp Input) → Store × Disk → Store × Disk
    unfolding apply
    run [] sd = sd
    run (op ∷ ops) sd = run ops (apply op sd)

    -- of a pair of a store and its disk
    abbrev pub Durable : Store × Disk → Type 0
    Durable (s, d) = IsDurable locale_compare s d

    claim-Durable :
        (s : Store) (d : Disk) (sync_id : String) (now : ℕ)
        → IsDurable locale_compare s d
        → Durable (apply (claim sync_id now) (s, d))
    unfolding apply claim_durable_slot payload
    claim-Durable s d sync_id now h =
        let m = s.sync_status_by_sync_id in
        let claimed : Store = record s {
          sync_status_by_sync_id = (claim_idempotency_slot m sync_id false).0;
          sync_status_updated_at_ms = set s.sync_status_updated_at_ms sync_id now;
        } in
        elim (Bool-cases (claim_idempotency_slot m sync_id false).1.should_process) [
          | inl granted ↦ rw granted (record {
            saved = persist_store-IsSaved claimed d h.file_ops;
            file_ops = h.file_ops;
            statuses_keyed = claim_idempotency_slot-IsKeyed m sync_id h.statuses_keyed;
            mappings_keyed = h.mappings_keyed;
          })
          | inr refused ↦
              rw (refused, claim_idempotency_slot-refused m sync_id refused)
                (record {
                  saved = h.saved;
                  file_ops = h.file_ops;
                  statuses_keyed = h.statuses_keyed;
                  mappings_keyed = h.mappings_keyed;
                })
        ]

    mark-Durable :
        (mark : Map Status → String → Map Status)
        → ((m : Map Status) (k : String) → IsKeyed m → IsKeyed (mark m k))
        → (s : Store) (d : Disk) (sync_id : String) (now : ℕ) → IsDurable locale_compare s d
        → Durable (mark_durable locale_compare mark s d sync_id now)
    unfolding mark_durable
    mark-Durable mark keyed s d sync_id now h = record {
      saved =
          persist_store-IsSaved
            (record s {
              sync_status_by_sync_id = mark s.sync_status_by_sync_id sync_id;
              sync_status_updated_at_ms = set s.sync_status_updated_at_ms sync_id now;
            })
            d h.file_ops;
      file_ops = h.file_ops;
      statuses_keyed = keyed s.sync_status_by_sync_id sync_id h.statuses_keyed;
      mappings_keyed = h.mappings_keyed;
    }

    stamp_mapping-known :
        (r : Result MappingError Mapped) (s : Store) (d : Disk) (key : String) (now : ℕ)
        → IsDurable locale_compare s d
        → let t = stamp_mapping locale_compare keys true r s d key now in
          IsDurable locale_compare t.1 t.2
    unfolding stamp_mapping
    stamp_mapping-known (ok r) s d key now h = h
    stamp_mapping-known (err e) s d key now h = h

    stamp_mapping-new :
        (r : Result MappingError Mapped) (mapped : Mapped) (s : Store) (d : Disk) (key : String)
        (now : ℕ)
        → r ≡ ok mapped
        → s.has_file_ops ≡ true
        → IsKeyed s.sync_status_by_sync_id
        → IsKeyed s.source_event_mapping
        → let t = stamp_mapping locale_compare keys false r s d key now in
          IsDurable locale_compare t.1 t.2
    unfolding stamp_mapping
    stamp_mapping-new (err e) mapped s d key now q f a b = cc
    stamp_mapping-new (ok r) mapped s d key now q f a b = record {
      saved =
          persist_store-IsSaved
            (record s {
              source_event_mapping_updated_at_ms = set s.source_event_mapping_updated_at_ms key now;
            })
            d f;
      file_ops = f;
      statuses_keyed = a;
      mappings_keyed = b;
    }

    mapping-Durable :
        (s : Store) (d : Disk) (input : Input) (now : ℕ)
        → IsDurable locale_compare s d
        → Durable (apply (assert_mapping input now) (s, d))
    unfolding apply assert_durable_mapping_stable
    mapping-Durable s d input now h =
        let m = s.source_event_mapping in
        let key = keys.source_event_key input in
        let r = assert_mapping_stable keys m input in
        elim (Bool-cases (has m key)) [
          | inl known ↦
              rw (known, assert_mapping_stable-known keys m input known)
                (stamp_mapping-known r.0 s d key now h)
          | inr new ↦
              let (mapped, accepted) = assert_mapping_stable-new keys m input new in
              rw new (
                stamp_mapping-new r.0 mapped (record s { source_event_mapping = r.1 }) d key now
                  accepted h.file_ops h.statuses_keyed
                  (assert_mapping_stable-IsKeyed keys m input h.mappings_keyed))
        ]

    pub apply-Durable :
        (op : DurableOp Input) (s : Store) (d : Disk)
        → IsDurable locale_compare s d
        → Durable (apply op (s, d))
    unfolding apply mark_durable_completed mark_durable_quarantined mark_durable_strict_failed
        mark_completed mark_quarantined mark_strict_failed
    apply-Durable (claim sync_id now) s d h = claim-Durable s d sync_id now h
    apply-Durable (complete sync_id now) s d h =
        mark-Durable mark_completed (λ m k. set-IsKeyed m k completed) s d sync_id now h
    apply-Durable (quarantine sync_id now) s d h =
        mark-Durable mark_quarantined (λ m k. set-IsKeyed m k quarantined) s d sync_id now h
    apply-Durable (fail_strictly sync_id now) s d h =
        mark-Durable mark_strict_failed (λ m k. set-IsKeyed m k strict_failed) s d sync_id now h
    apply-Durable (assert_mapping input now) s d h = mapping-Durable s d input now h

    pub run-Durable :
        (ops : List (DurableOp Input)) (s : Store) (d : Disk)
        → IsDurable locale_compare s d
        → Durable (run ops (s, d))
    unfolding run
    run-Durable [] s d h = h
    run-Durable (op ∷ ops) s d h =
        run-Durable ops (apply op (s, d)).0 (apply op (s, d)).1 (apply-Durable op s d h)
