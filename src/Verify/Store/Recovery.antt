-- ===== src/Verify/Store/Recovery.antt =====
-- A store that was written comes back at the next load.
use Prim.Native.Nat.{Ordering}
use anti_soon.Prelude.{
  ℕ, ◌≡◌, refl, ap, ◌∙◌, String, true, false, List, [], ◌∷◌, none, some, ok, if◌then◌else◌, arith,
  count,
}
use anti_soon.Prelude.Results.{◌>>=◌}
use anti_soon.Prelude.Map
use anti_soon.Prelude.Map.{Map, get, set, get-set}
use anti_soon.Prelude.Keys.{over_default, IsKeyed, get-sort, sorted-IsKeyed}
use anti_soon.Prelude.Sort.{sort, count-sort}
use anti_soon.Prelude.Set.{contains_text}
use anti_soon.Verify.Slots.{Status}
use anti_soon.Verify.Mapping.{MappingState}
use anti_soon.Prelude.Json.{Disk, entries}
use anti_soon.Verify.Store.{Store, sync_fields, mapping_fields, time_of, compare_keys, payload}
use anti_soon.Verify.Store.Load.{
  Loading, StoreFile, stamp_all, build_empty_store, load_file, load_mappings, check_file,
  parse_text, parse_persisted_store, finish_load, finish_or_fail, load_store,
}
use anti_soon.Verify.Store.Saved.{replay, replay_mappings, load_syncs-replay, load_mappings-replay}
use anti_soon.Verify.Store.Replay.{
  recover, is_processing, in_progress, statuses-replay, times-replay, recovered-replay,
  count-replay, replay_mappings-SameStatuses,
}

get-stamp_all :
    (now : ℕ) (ids : List String) (times : Map ℕ) (k : String)
    → get (stamp_all now ids times) k ≡ (if contains_text k ids then some now else get times k)
unfolding stamp_all
get-stamp_all now [] times k = refl
get-stamp_all now (key ∷ ids) times k =
    ground (arith, get-stamp_all now ids (set times key now) k, get-set times key k now)

-- where nothing is in progress no id is
in_progress-count :
    (m : Map Status) (k : String)
    → count (λ e. is_processing e.1) m ≡ 0
    → in_progress (get m k) ≡ false
unfolding get
in_progress-count [] k h = refl
in_progress-count ((key, s) ∷ m) k h = ground (arith, in_progress-count m k)

-- What a store is after a restart: the same, but that the synchronisations in progress are quarantined
-- as of now, and counted.
pub record IsRecovered (now : ℕ) (s s' : Store) : Type 0 where
  pub path : s'.file_path ≡ s.file_path
  pub file_ops : s'.has_file_ops ≡ s.has_file_ops
  pub status :
      (k : String)
      → get s'.sync_status_by_sync_id k ≡ over_default recover (get s.sync_status_by_sync_id k) none
  pub time :
      (k : String)
      → get s'.sync_status_updated_at_ms k
        ≡ over_default
            (λ x. if is_processing x then now else time_of s.sync_status_updated_at_ms k)
            (get s.sync_status_by_sync_id k)
            none
  pub mapping : (k : String) → get s'.source_event_mapping k ≡ get s.source_event_mapping k
  pub mapping_time :
      (k : String)
      → get s'.source_event_mapping_updated_at_ms k
        ≡ over_default
            (λ _. time_of s.source_event_mapping_updated_at_ms k)
            (get s.source_event_mapping k)
            none
  pub counted :
      s'.recovered_processing_count ≡ count (λ e. is_processing e.1) s.sync_status_by_sync_id

module _ (locale_compare : String → String → Ordering) where
  -- the file holds the store
  abbrev pub IsSaved : Store → Disk → Type 0
  IsSaved s disk = get disk s.file_path ≡ some (some (payload locale_compare s))

  module _ (now : ℕ) (s : Store) where
    abbrev pub statuses : Map Status
    statuses = sort (compare_keys locale_compare) s.sync_status_by_sync_id

    abbrev pub mappings : Map MappingState
    mappings = sort (compare_keys locale_compare) s.source_event_mapping

    abbrev pub first_loading : Loading
    first_loading = record {
      store = build_empty_store s.file_path true;
      recovered_count = 0;
      recovered_sync_ids = [];
    }

    abbrev pub syncs_loaded : Loading
    syncs_loaded = replay s.sync_status_updated_at_ms statuses first_loading

    abbrev pub loaded : Loading
    loaded = record syncs_loaded {
      store = replay_mappings s.source_event_mapping_updated_at_ms mappings syncs_loaded.store;
    }

    abbrev file_of : StoreFile
    file_of = record {
      syncs = sync_fields s.sync_status_updated_at_ms statuses;
      mappings = mapping_fields s.source_event_mapping_updated_at_ms mappings;
    }

    check_file-payload : check_file (payload locale_compare s) ≡ ok file_of
    unfolding check_file payload
    check_file-payload = refl

    load_file-loaded : load_file now (build_empty_store s.file_path true) file_of ≡ ok loaded
    unfolding load_file
    load_file-loaded =
        ap
          (λ r. r >>= λ (l : Loading).
            load_mappings now (entries file_of.mappings) l.store >>= λ (x : Store).
            ok (record l { store = x }))
          (load_syncs-replay now s.sync_status_updated_at_ms statuses first_loading)
        ∙ ap (λ r. r >>= λ (x : Store). ok (record syncs_loaded { store = x }))
            (load_mappings-replay now s.source_event_mapping_updated_at_ms mappings
              syncs_loaded.store)

    parsed : (disk : Disk) → IsSaved s disk → parse_persisted_store disk s.file_path ≡ ok file_of
    unfolding parse_persisted_store parse_text
    parsed disk saved = ap (λ o. parse_text o >>= check_file) saved ∙ check_file-payload

    pub load_store-finish :
        (disk : Disk)
        → IsSaved s disk
        → load_store locale_compare s.file_path true now disk
          ≡ finish_or_fail locale_compare now (ok loaded) disk
    unfolding load_store
    load_store-finish disk saved = ground (
      arith,
      Map.has-of_get disk s.file_path (some (payload locale_compare s)) saved,
      parsed disk saved,
      load_file-loaded,
    )

    -- what the load gives back
    abbrev pub result : Disk → Store
    result disk = (finish_load locale_compare now loaded disk).0

    pub count-loaded :
        loaded.recovered_count ≡ count (λ e. is_processing e.1) s.sync_status_by_sync_id
    count-loaded = omega (
      arith,
      count-replay s.sync_status_updated_at_ms statuses first_loading,
      count-sort (compare_keys locale_compare) (λ e. is_processing e.1) s.sync_status_by_sync_id,
    )

    module _ (keyed : IsKeyed s.sync_status_by_sync_id) where
      pub status-loaded :
          (k : String)
          → get loaded.store.sync_status_by_sync_id k
            ≡ over_default recover (get s.sync_status_by_sync_id k) none
      unfolding build_empty_store get
      status-loaded k =
          let times = s.sync_status_updated_at_ms in
          let rest =
            replay_mappings-SameStatuses s.source_event_mapping_updated_at_ms mappings
              syncs_loaded.store in
          ap (λ m. get m k) rest.statuses
          ∙ statuses-replay times statuses first_loading k
              (sorted-IsKeyed (compare_keys locale_compare) _ keyed)
          ∙ ap (λ o. over_default recover o none)
              (get-sort (compare_keys locale_compare) s.sync_status_by_sync_id k keyed)

      time-loaded :
          (k : String)
          → get loaded.store.sync_status_updated_at_ms k
            ≡ over_default
                (λ _. time_of s.sync_status_updated_at_ms k)
                (get s.sync_status_by_sync_id k)
                none
      unfolding build_empty_store get
      time-loaded k =
          let times = s.sync_status_updated_at_ms in
          let rest =
            replay_mappings-SameStatuses s.source_event_mapping_updated_at_ms mappings
              syncs_loaded.store in
          ap (λ m. get m k) rest.times
          ∙ times-replay times statuses first_loading k
              (sorted-IsKeyed (compare_keys locale_compare) _ keyed)
          ∙ ap (λ o. over_default (λ _. time_of times k) o none)
              (get-sort (compare_keys locale_compare) s.sync_status_by_sync_id k keyed)

      recovered-loaded :
          (k : String)
          → contains_text k loaded.recovered_sync_ids ≡ in_progress (get s.sync_status_by_sync_id k)
      recovered-loaded k =
          recovered-replay s.sync_status_updated_at_ms statuses first_loading k
            (sorted-IsKeyed (compare_keys locale_compare) _ keyed)
          ∙ ground (arith, get-sort (compare_keys locale_compare) s.sync_status_by_sync_id k keyed)

      pub finished-time :
          (disk : Disk) (k : String)
          → get (result disk).sync_status_updated_at_ms k
            ≡ over_default
                (λ x. if is_processing x then now else time_of s.sync_status_updated_at_ms k)
                (get s.sync_status_by_sync_id k)
                none
      unfolding finish_load
      finished-time disk k = ground (
        arith,
        time-loaded k,
        recovered-loaded k,
        count-loaded,
        in_progress-count s.sync_status_by_sync_id k,
        get-stamp_all now loaded.recovered_sync_ids loaded.store.sync_status_updated_at_ms k,
      )
