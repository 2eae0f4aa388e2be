-- ===== src/Verify/Store/Replay/Rest.antt =====
-- What the loads of the entries leave alone.
use anti_soon.Prelude.{ℕ, ◌≡◌, refl, ◌∙◌, String, [], ◌∷◌}
use anti_soon.Prelude.Map.{Map}
use anti_soon.Verify.Slots.{Status, processing, completed, quarantined, strict_failed}
use anti_soon.Verify.Mapping.{MappingState}
use anti_soon.Verify.Store.{Store, time_of}
use anti_soon.Verify.Store.Load.{Loading, take_status}
use anti_soon.Verify.Store.Saved.{replay, replay_mappings}

-- What loading the statuses leaves alone.
pub record SameRest (s s' : Store) : Type 0 where
  pub path : s'.file_path ≡ s.file_path
  pub file_ops : s'.has_file_ops ≡ s.has_file_ops
  pub mapping : s'.source_event_mapping ≡ s.source_event_mapping
  pub recovered : s'.recovered_processing_count ≡ s.recovered_processing_count
  pub mapping_times : s'.source_event_mapping_updated_at_ms ≡ s.source_event_mapping_updated_at_ms

take-SameRest :
    (l : Loading) (key : String) (t : ℕ) (s : Status)
    → SameRest l.store (take_status l key t s).store
unfolding take_status
take-SameRest l key t processing = record {
  path = refl;
  file_ops = refl;
  mapping = refl;
  recovered = refl;
  mapping_times = refl;
}
take-SameRest l key t completed = record {
  path = refl;
  file_ops = refl;
  mapping = refl;
  recovered = refl;
  mapping_times = refl;
}
take-SameRest l key t quarantined = record {
  path = refl;
  file_ops = refl;
  mapping = refl;
  recovered = refl;
  mapping_times = refl;
}
take-SameRest l key t strict_failed = record {
  path = refl;
  file_ops = refl;
  mapping = refl;
  recovered = refl;
  mapping_times = refl;
}

pub replay-SameRest :
    (times : Map ℕ) (m : Map Status) (l : Loading) → SameRest l.store (replay times m l).store
unfolding replay
replay-SameRest times [] l = record {
  path = refl;
  file_ops = refl;
  mapping = refl;
  recovered = refl;
  mapping_times = refl;
}
replay-SameRest times ((key, s) ∷ m) l =
    let a = take-SameRest l key (time_of times key) s in
    let b = replay-SameRest times m (take_status l key (time_of times key) s) in
    record {
      path = b.path ∙ a.path;
      file_ops = b.file_ops ∙ a.file_ops;
      mapping = b.mapping ∙ a.mapping;
      recovered = b.recovered ∙ a.recovered;
      mapping_times = b.mapping_times ∙ a.mapping_times;
    }

-- What loading the mappings leaves alone.
pub record SameStatuses (s s' : Store) : Type 0 where
  pub path : s'.file_path ≡ s.file_path
  pub file_ops : s'.has_file_ops ≡ s.has_file_ops
  pub statuses : s'.sync_status_by_sync_id ≡ s.sync_status_by_sync_id
  pub times : s'.sync_status_updated_at_ms ≡ s.sync_status_updated_at_ms
  pub recovered : s'.recovered_processing_count ≡ s.recovered_processing_count

pub replay_mappings-SameStatuses :
    (times : Map ℕ) (m : Map MappingState) (s : Store) → SameStatuses s (replay_mappings times m s)
unfolding replay_mappings
replay_mappings-SameStatuses times [] s = record {
  path = refl;
  file_ops = refl;
  statuses = refl;
  times = refl;
  recovered = refl;
}
replay_mappings-SameStatuses times ((key, x) ∷ m) s =
    let b = replay_mappings-SameStatuses times m _ in
    record {
      path = b.path;
      file_ops = b.file_ops;
      statuses = b.statuses;
      times = b.times;
      recovered = b.recovered;
    }
