-- ===== src/Verify/Store.antt =====
-- The durable store of workflow/verify-poc/src/idempotencyStore.ts. The text of a file stands as the
-- value that `JSON.parse` reads in it, an array as the object of its indexes; the keys of the store,
-- hex digests, are enumerated in the order of insertion. Where the file operations are there they
-- succeed.
pub mod Load
pub mod Saved
pub mod Replay
pub mod Recovery
pub mod Restart
pub mod Runs
pub mod Crash
use Prim.Native.Nat.{Ordering}
use anti_soon.Prelude.{
  ℕ, ◌+◌, ◌≡◌, String, Bool, true, false, not, List, [], ◌∷◌, Option, none, some, Result, ok, err,
  map, str_eq, if◌then◌else◌,
}
use anti_soon.Prelude.Map
use anti_soon.Prelude.Map.{Map}
use anti_soon.Prelude.Sort.{sort}
use anti_soon.Verify.Slots.{
  Status, processing, completed, quarantined, strict_failed, Decision, claim_idempotency_slot,
  mark_completed, mark_quarantined, mark_strict_failed,
}
use anti_soon.Verify.Mapping.{
  MappingState, Mapped, MappingError, Derivations, assert_mapping_stable,
}
use anti_soon.Prelude.Json.{Disk, Json, number, text, object, Fields, end, field}

pub record Store : Type 0 where
  pub file_path : String
  -- `hasUsableFileOps(store.fileOps)`
  pub has_file_ops : Bool
  pub sync_status_by_sync_id : Map Status
  pub sync_status_updated_at_ms : Map ℕ
  pub source_event_mapping : Map MappingState
  pub source_event_mapping_updated_at_ms : Map ℕ
  pub recovered_processing_count : ℕ

abbrev pub schema_version : String
schema_version = "anti-soon.verify-poc.idempotency-store.v1"

unfoldable pub status_text : Status → String
status_text processing = "processing"
status_text completed = "completed"
status_text quarantined = "quarantined"
status_text strict_failed = "strict_failed"

-- `times.get(key) ?? 0`
unfoldable pub time_of : Map ℕ → String → ℕ
time_of times key = elim (Map.get times key) [ none ↦ 0 | some t ↦ t ]

-- `VerifyPocPersistedSyncRecord`
unfoldable pub sync_record : Status → ℕ → Json
unfolding status_text
sync_record status updated_at_ms =
    object
      (field "status" (text (status_text status)) (field "updatedAtMs" (number updated_at_ms) end))

-- `VerifyPocPersistedMappingRecord`
unfoldable pub mapping_record : MappingState → ℕ → Json
mapping_record state updated_at_ms = object (
    field "mappingFingerprint" (text state.mapping_fingerprint) (
      field "idempotencyKey" (text state.idempotency_key)
        (field "updatedAtMs" (number updated_at_ms) end)))

unfoldable pub sync_fields : Map ℕ → Map Status → Fields
unfolding sync_record time_of
sync_fields times [] = end
sync_fields times ((key, status) ∷ m) =
    field key (sync_record status (time_of times key)) (sync_fields times m)

unfoldable pub mapping_fields : Map ℕ → Map MappingState → Fields
unfolding mapping_record time_of
mapping_fields times [] = end
mapping_fields times ((key, state) ∷ m) =
    field key (mapping_record state (time_of times key)) (mapping_fields times m)

module _ (locale_compare : String → String → Ordering) where
  abbrev pub compare_keys {ℓ} : {V : Type ℓ} → String × V → String × V → Ordering
  compare_keys left right = locale_compare left.0 right.0

  -- `VerifyPocIdempotencyStoreFile`
  unfoldable pub payload : Store → Json
  unfolding sync_fields mapping_fields
  payload store = object (
      field "schemaVersion" (text schema_version) (
        field "syncStatusBySyncId"
          (object (
            sync_fields store.sync_status_updated_at_ms
              (sort compare_keys store.sync_status_by_sync_id)))
          (field "sourceEventMappingByFingerprint"
            (object (
              mapping_fields store.source_event_mapping_updated_at_ms
                (sort compare_keys store.source_event_mapping)))
            end)))

  -- the temporary file is written, and takes the place of the file
  unfoldable pub write_store : Store → Disk → Disk
  unfolding payload
  write_store store disk =
      let temp_path = Prim.Native.String.◌++◌ store.file_path ".tmp" in
      let written = Map.set disk temp_path (some (payload store)) in
      Map.set (Map.delete written temp_path) store.file_path (some (payload store))

  unfoldable pub persist_store : Store → Disk → Disk
  unfolding write_store
  persist_store store disk = if store.has_file_ops then write_store store disk else disk

  -- The operations change the store in place: it is what they return, the disk and the result beside it.
  unfoldable pub claim_durable_slot : Store → Disk → String → ℕ → Store × Disk × Decision
  unfolding persist_store
  claim_durable_slot store disk sync_id now_ms =
      let (statuses, decision) =
        claim_idempotency_slot store.sync_status_by_sync_id sync_id false in
      let claimed = record store { sync_status_by_sync_id = statuses } in
      let stamped = record claimed {
        sync_status_updated_at_ms = Map.set store.sync_status_updated_at_ms sync_id now_ms;
      } in
      if decision.should_process
      then (stamped, persist_store stamped disk, decision)
      else (claimed, disk, decision)

  -- the statuses are changed, the time is set and the store is written
  unfoldable pub mark_durable :
      (Map Status → String → Map Status) → Store → Disk → String → ℕ → Store × Disk
  unfolding persist_store
  mark_durable mark store disk sync_id now_ms =
      let marked = record store {
        sync_status_by_sync_id = mark store.sync_status_by_sync_id sync_id;
        sync_status_updated_at_ms = Map.set store.sync_status_updated_at_ms sync_id now_ms;
      } in
      (marked, persist_store marked disk)

  unfoldable pub mark_durable_completed : Store → Disk → String → ℕ → Store × Disk
  unfolding mark_durable
  mark_durable_completed = mark_durable mark_completed

  unfoldable pub mark_durable_quarantined : Store → Disk → String → ℕ → Store × Disk
  unfolding mark_durable
  mark_durable_quarantined = mark_durable mark_quarantined

  unfoldable pub mark_durable_strict_failed : Store → Disk → String → ℕ → Store × Disk
  unfolding mark_durable
  mark_durable_strict_failed = mark_durable mark_strict_failed

  module _ {Input : Type 0} (keys : Derivations Input) where
    -- a mapping that was there is written no second time
    unfoldable pub stamp_mapping :
        (has_existing : Bool)
        → Result MappingError Mapped
        → Store
        → Disk
        → String
        → ℕ
        → Result MappingError Mapped × Store × Disk
    unfolding persist_store
    stamp_mapping has_existing (err e) store disk key now_ms = (err e, store, disk)
    stamp_mapping true (ok mapped) store disk key now_ms = (ok mapped, store, disk)
    stamp_mapping false (ok mapped) store disk key now_ms =
        let stamped = record store {
          source_event_mapping_updated_at_ms =
              Map.set store.source_event_mapping_updated_at_ms key now_ms;
        } in
        (ok mapped, stamped, persist_store stamped disk)

    unfoldable pub assert_durable_mapping_stable :
        Store → Disk → Input → ℕ → Result MappingError Mapped × Store × Disk
    unfolding stamp_mapping
    assert_durable_mapping_stable store disk input now_ms =
        let key = keys.source_event_key input in
        let (result, mappings) = assert_mapping_stable keys store.source_event_mapping input in
        stamp_mapping (Map.has store.source_event_mapping key) result
          (record store { source_event_mapping = mappings }) disk key now_ms
