-- ===== src/Verify/Store/Load.antt =====
-- `loadVerifyPocIdempotencyStore` of workflow/verify-poc/src/idempotencyStore.ts. A key is one like any
-- other: the program's are hex digests, none is a name that an object has of its own.
use Prim.Native.Nat.{Ordering}
use anti_soon.Prelude.{
  ℕ, ◌+◌, String, Bool, false, not, List, [], ◌∷◌, Option, none, some, Result, ok, err, ltb, str_eq,
  if◌then◌else◌,
}
use anti_soon.Prelude.Results.{◌>>=◌}
use anti_soon.Prelude.Map
use anti_soon.Prelude.Set.{add_text}
use anti_soon.Verify.Slots.{Status, processing, completed, quarantined, strict_failed}
use anti_soon.Prelude.Json.{Disk, Json, number, text, object, Fields, property, entries}
use anti_soon.Verify.Store.{Store, schema_version, persist_store}

pub data StoreError : Type 0 where
  -- `readFileSync` of a file that is not there, and `JSON.parse` of what is no JSON
  no_such_file no_json : StoreError
  invalid_payload invalid_structure file_ops_unavailable : StoreError
  unsupported_schema : Option Json → StoreError
  invalid_sync_record invalid_status invalid_mapping_record : String → StoreError

-- The two objects of a store file.
pub record StoreFile : Type 0 where
  pub syncs : Fields
  pub mappings : Fields

unfoldable pub parse_text : Option (Option Json) → Result StoreError Json
parse_text none = err no_such_file
parse_text (some none) = err no_json
parse_text (some (some value)) = ok value

-- `parsed.schemaVersion === VERIFY_POC_IDEMPOTENCY_STORE_SCHEMA_VERSION`
unfoldable pub is_schema : Option Json → Bool
is_schema (some (text s)) = str_eq s schema_version
is_schema _ = false

unfoldable pub structure_of : Option Json → Option Json → Result StoreError StoreFile
structure_of (some (object syncs)) (some (object mappings)) =
    ok (record { syncs = syncs; mappings = mappings })
structure_of _ _ = err invalid_structure

unfoldable pub check_file : Json → Result StoreError StoreFile
unfolding is_schema structure_of property
check_file (object parsed) =
    let version = property parsed "schemaVersion" in
    if is_schema version
    then structure_of (property parsed "syncStatusBySyncId")
        (property parsed "sourceEventMappingByFingerprint")
    else err (unsupported_schema version)
check_file _ = err invalid_payload

unfoldable pub parse_persisted_store : Disk → String → Result StoreError StoreFile
unfolding parse_text check_file
parse_persisted_store disk file_path = parse_text (Map.get disk file_path) >>= check_file

unfoldable pub parse_status : String → Option Status
parse_status s =
    if str_eq s "processing"
    then some processing
    else if str_eq s "completed"
    then some completed
    else if str_eq s "quarantined"
    then some quarantined
    else if str_eq s "strict_failed"
    then some strict_failed
    else none

-- `typeof record.updatedAtMs === "number" ? record.updatedAtMs : nowMs`
unfoldable pub time_or : Option Json → ℕ → ℕ
time_or (some (number t)) now_ms = t
time_or _ now_ms = now_ms

-- The store that is loaded, and what was recovered.
pub record Loading : Type 0 where
  pub store : Store
  pub recovered_count : ℕ
  pub recovered_sync_ids : List String

-- a sync id that was found in processing is quarantined
unfoldable pub take_status : Loading → String → ℕ → Status → Loading
take_status l key time status =
    let keep = λ (s : Status). record l.store {
      sync_status_by_sync_id = Map.set l.store.sync_status_by_sync_id key s;
      sync_status_updated_at_ms = Map.set l.store.sync_status_updated_at_ms key time;
    } in
    elim status [
      | processing ↦ record {
        store = keep quarantined;
        recovered_count = l.recovered_count + 1;
        recovered_sync_ids = add_text key l.recovered_sync_ids;
      }
      | completed ↦ record l { store = keep completed }
      | quarantined ↦ record l { store = keep quarantined }
      | strict_failed ↦ record l { store = keep strict_failed }
    ]

unfoldable pub load_status : Loading → String → ℕ → Option Status → Result StoreError Loading
unfolding take_status
load_status l key time none = err (invalid_status key)
load_status l key time (some status) = ok (take_status l key time status)

unfoldable pub load_sync_record :
    Loading → String → ℕ → (status updated_at_ms : Option Json) → Result StoreError Loading
unfolding load_status parse_status time_or
load_sync_record l key now_ms (some (text status)) updated_at_ms =
    load_status l key (time_or updated_at_ms now_ms) (parse_status status)
load_sync_record l key now_ms _ updated_at_ms = err (invalid_sync_record key)

unfoldable pub load_sync : ℕ → Loading → String → Json → Result StoreError Loading
unfolding load_sync_record property
load_sync now_ms l key (object r) =
    load_sync_record l key now_ms (property r "status") (property r "updatedAtMs")
load_sync now_ms l key _ = err (invalid_sync_record key)

unfoldable pub load_syncs : ℕ → List (String × Json) → Loading → Result StoreError Loading
unfolding load_sync
load_syncs now_ms [] l = ok l
load_syncs now_ms ((key, r) ∷ later) l = load_sync now_ms l key r >>= load_syncs now_ms later

unfoldable pub load_mapping_record :
    Store
    → String
    → ℕ
    → (fingerprint idempotency_key updated_at_ms : Option Json) → Result StoreError Store
unfolding time_or
load_mapping_record store key now_ms (some (text fingerprint)) (some (text idempotency_key)) time =
    ok (record store {
      source_event_mapping =
          Map.set store.source_event_mapping key
            (record { mapping_fingerprint = fingerprint; idempotency_key = idempotency_key });
      source_event_mapping_updated_at_ms =
          Map.set store.source_event_mapping_updated_at_ms key (time_or time now_ms);
    })
load_mapping_record store key now_ms _ _ time = err (invalid_mapping_record key)

unfoldable pub load_mapping : ℕ → Store → String → Json → Result StoreError Store
unfolding load_mapping_record property
load_mapping now_ms store key (object r) =
    load_mapping_record store key now_ms (property r "mappingFingerprint")
      (property r "idempotencyKey") (property r "updatedAtMs")
load_mapping now_ms store key _ = err (invalid_mapping_record key)

unfoldable pub load_mappings : ℕ → List (String × Json) → Store → Result StoreError Store
unfolding load_mapping
load_mappings now_ms [] store = ok store
load_mappings now_ms ((key, r) ∷ later) store =
    load_mapping now_ms store key r >>= load_mappings now_ms later

-- `for (const syncId of recoveredSyncIds) times.set(syncId, nowMs)`
unfoldable pub stamp_all : ℕ → List String → Map.Map ℕ → Map.Map ℕ
stamp_all now_ms [] times = times
stamp_all now_ms (key ∷ later) times = stamp_all now_ms later (Map.set times key now_ms)

unfoldable pub build_empty_store : String → Bool → Store
build_empty_store file_path has_file_ops = record {
  file_path = file_path;
  has_file_ops = has_file_ops;
  sync_status_by_sync_id = [];
  sync_status_updated_at_ms = [];
  source_event_mapping = [];
  source_event_mapping_updated_at_ms = [];
  recovered_processing_count = 0;
}

-- the maps of a file
unfoldable pub load_file : ℕ → Store → StoreFile → Result StoreError Loading
unfolding load_syncs load_mappings entries
load_file now_ms store file =
    load_syncs now_ms (entries file.syncs)
      (record { store = store; recovered_count = 0; recovered_sync_ids = [] })
    >>= λ l.
        load_mappings now_ms (entries file.mappings) l.store >>= λ s. ok (record l { store = s })

module _ (locale_compare : String → String → Ordering) where
  -- the recovered ids are stamped, and the store is written, where there are any
  unfoldable pub finish_load : ℕ → Loading → Disk → Store × Disk
  unfolding stamp_all persist_store
  finish_load now_ms l disk =
      let stamped = record l.store {
        sync_status_updated_at_ms =
            stamp_all now_ms l.recovered_sync_ids l.store.sync_status_updated_at_ms;
      } in
      if ltb 0 l.recovered_count
      then (
        record stamped { recovered_processing_count = l.recovered_count },
        persist_store locale_compare stamped disk,
      )
      else (l.store, disk)

  unfoldable pub finish_or_fail :
      ℕ → Result StoreError Loading → Disk → Result StoreError Store × Disk
  unfolding finish_load
  finish_or_fail now_ms (err e) disk = (err e, disk)
  finish_or_fail now_ms (ok l) disk = let (s, d) = finish_load now_ms l disk in (ok s, d)

  unfoldable pub load_store :
      String → (has_file_ops : Bool) → ℕ → Disk → Result StoreError Store × Disk
  unfolding finish_or_fail load_file parse_persisted_store build_empty_store persist_store
  load_store file_path has_file_ops now_ms disk =
      let store = build_empty_store file_path has_file_ops in
      let loaded = parse_persisted_store disk file_path >>= load_file now_ms store in
      if not has_file_ops
      then (ok store, disk)
      else if not (Map.has disk file_path)
      then (ok store, persist_store locale_compare store disk)
      else finish_or_fail now_ms loaded disk

-- `readVerifyPocIdempotencyStoreFile`
unfoldable pub read_store_file : String → (has_file_ops : Bool) → Disk → Result StoreError StoreFile
unfolding parse_persisted_store
read_store_file file_path has_file_ops disk =
    if has_file_ops then parse_persisted_store disk file_path else err file_ops_unavailable
