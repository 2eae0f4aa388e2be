-- ===== src/Verify/Store/Restart.antt =====
-- The load of a file that the store wrote.
use Prim.Native.Nat.{Ordering}
use anti_soon.Prelude.{ℕ, ◌≡◌, ap, sym, ◌∙◌, String, true, none, ok, arith}
use anti_soon.Prelude.Map.{get}
use anti_soon.Prelude.Keys.{over_default, over_default-id, IsKeyed, get-sort, sorted-IsKeyed}
use anti_soon.Verify.Mapping.{MappingState}
use anti_soon.Prelude.Json.{Disk}
use anti_soon.Verify.Store.{Store, time_of, compare_keys}
use anti_soon.Verify.Store.Load.{
  Loading, build_empty_store, finish_load, finish_or_fail, load_store,
}
use anti_soon.Verify.Store.Replay.{
  replay-SameRest, replay_mappings-SameStatuses, mapping-replay, mapping_times-replay,
}
use anti_soon.Verify.Store.Recovery.{
  IsSaved, IsRecovered, result, loaded, mappings, statuses, first_loading, syncs_loaded,
  load_store-finish, count-loaded, status-loaded, finished-time,
}

-- What holds of a store and its file between the operations.
pub record IsDurable (locale_compare : String → String → Ordering) (s : Store) (disk : Disk)
    : Type 0 where
  pub saved : IsSaved locale_compare s disk
  pub file_ops : s.has_file_ops ≡ true
  pub statuses_keyed : IsKeyed s.sync_status_by_sync_id
  pub mappings_keyed : IsKeyed s.source_event_mapping

finish_load-keeps :
    (locale_compare : String → String → Ordering) (now : ℕ) (l : Loading) (disk : Disk)
    → let r = (finish_load locale_compare now l disk).0 in
      (r.file_path ≡ l.store.file_path)
      × (r.has_file_ops ≡ l.store.has_file_ops)
      × (r.sync_status_by_sync_id ≡ l.store.sync_status_by_sync_id)
      × (r.source_event_mapping ≡ l.store.source_event_mapping)
      × (r.source_event_mapping_updated_at_ms ≡ l.store.source_event_mapping_updated_at_ms)
unfolding finish_load
finish_load-keeps locale_compare now l disk =
    (ground arith, ground arith, ground arith, ground arith, ground arith)

module _ (locale_compare : String → String → Ordering) (now : ℕ) (s : Store) (disk : Disk) where
  abbrev now_is : Store
  now_is = result locale_compare now s disk

  abbrev was_loaded : Store
  was_loaded = (loaded locale_compare now s).store

  -- what the end of a load leaves alone
  finished :
      (now_is.file_path ≡ was_loaded.file_path)
      × (now_is.has_file_ops ≡ was_loaded.has_file_ops)
      × (now_is.sync_status_by_sync_id ≡ was_loaded.sync_status_by_sync_id)
      × (now_is.source_event_mapping ≡ was_loaded.source_event_mapping)
      × (now_is.source_event_mapping_updated_at_ms ≡ was_loaded.source_event_mapping_updated_at_ms)
  finished = finish_load-keeps locale_compare now (loaded locale_compare now s) disk

  finished-count :
      was_loaded.recovered_processing_count ≡ 0
      → now_is.recovered_processing_count ≡ (loaded locale_compare now s).recovered_count
  unfolding finish_load
  finished-count h = ground arith

  result-IsRecovered : IsDurable locale_compare s disk → IsRecovered now s now_is
  unfolding build_empty_store get
  result-IsRecovered d =
      let l = syncs_loaded locale_compare now s in
      let cmp = compare_keys locale_compare {V = MappingState} in
      let times = s.source_event_mapping_updated_at_ms in
      let rest = replay_mappings-SameStatuses times (mappings locale_compare now s) l.store in
      let first =
        replay-SameRest s.sync_status_updated_at_ms (statuses locale_compare now s)
          (first_loading locale_compare now s) in
      let ordered = sorted-IsKeyed cmp _ d.mappings_keyed in
      let (path, ops, status, mapping, mapping_time) = finished in
      record {
        path = path ∙ rest.path ∙ first.path;
        file_ops = ops ∙ rest.file_ops ∙ first.file_ops ∙ sym d.file_ops;
        status =
            λ k. ap (λ m. get m k) status ∙ status-loaded locale_compare now s d.statuses_keyed k;
        time = finished-time locale_compare now s d.statuses_keyed disk;
        mapping = λ k.
            ap (λ m. get m k) mapping
            ∙ mapping-replay times (mappings locale_compare now s) l.store k ordered
            ∙ ap (λ m. over_default (λ x. x) (get (mappings locale_compare now s) k) (get m k))
                first.mapping
            ∙ over_default-id (get (mappings locale_compare now s) k)
            ∙ get-sort cmp s.source_event_mapping k d.mappings_keyed;
        mapping_time = λ k.
            ap (λ m. get m k) mapping_time
            ∙ mapping_times-replay times (mappings locale_compare now s) l.store k ordered
            ∙ ap
                (λ m.
                  over_default (λ _. time_of times k) (get (mappings locale_compare now s) k)
                    (get m k))
                first.mapping_times
            ∙ ap (λ o. over_default (λ _. time_of times k) o none)
                (get-sort cmp s.source_event_mapping k d.mappings_keyed);
        counted =
            finished-count (rest.recovered ∙ first.recovered) ∙ count-loaded locale_compare now s;
      }

  -- A store that is in its file comes back at the next load, with the synchronisations that were in
  -- progress quarantined as of now and counted.
  pub load_store-IsRecovered :
      IsDurable locale_compare s disk
      → (s' : Store) × ((load_store locale_compare s.file_path true now disk).0 ≡ ok s')
        × IsRecovered now s s'
  unfolding finish_or_fail
  load_store-IsRecovered d = (
    now_is,
    ap (λ r. r.0) (load_store-finish locale_compare now s disk d.saved),
    result-IsRecovered d,
  )
