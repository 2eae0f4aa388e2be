-- ===== src/Verify/Store/Saved.antt =====
-- What is read of a file that the store wrote.
use anti_soon.Prelude.{ℕ, ◌≡◌, refl, ap, ◌∙◌, String, [], ◌∷◌, some, ok}
use anti_soon.Prelude.Results.{◌>>=◌}
use anti_soon.Prelude.Map.{Map, set}
use anti_soon.Verify.Slots.{Status, processing, completed, quarantined, strict_failed}
use anti_soon.Verify.Mapping.{MappingState}
use anti_soon.Prelude.Json.{property, entries}
use anti_soon.Verify.Store.{
  Store, sync_fields, sync_record, mapping_fields, mapping_record, time_of, status_text,
}
use anti_soon.Verify.Store.Load.{
  Loading, take_status, load_sync, load_sync_record, load_status, parse_status, load_syncs,
  load_mapping, load_mapping_record, load_mappings, time_or,
}

parse_status-text : (s : Status) → parse_status (status_text s) ≡ some s
unfolding parse_status status_text
parse_status-text processing = refl
parse_status-text completed = refl
parse_status-text quarantined = refl
parse_status-text strict_failed = refl

load_sync-record :
    (now : ℕ) (l : Loading) (key : String) (s : Status) (t : ℕ)
    → load_sync now l key (sync_record s t) ≡ ok (take_status l key t s)
unfolding load_sync load_sync_record load_status sync_record property time_or
load_sync-record now l key s t = ap (load_status l key t) (parse_status-text s)

-- the loads of the written entries, one after another
unfoldable pub replay : Map ℕ → Map Status → Loading → Loading
replay times [] l = l
replay times ((key, s) ∷ later) l = replay times later (take_status l key (time_of times key) s)

pub load_syncs-replay :
    (now : ℕ) (times : Map ℕ) (m : Map Status) (l : Loading)
    → load_syncs now (entries (sync_fields times m)) l ≡ ok (replay times m l)
unfolding load_syncs entries sync_fields replay
load_syncs-replay now times [] l = refl
load_syncs-replay now times ((key, s) ∷ later) l =
    ap (λ r. r >>= load_syncs now (entries (sync_fields times later)))
      (load_sync-record now l key s (time_of times key))
    ∙ load_syncs-replay now times later (take_status l key (time_of times key) s)

unfoldable pub replay_mappings : Map ℕ → Map MappingState → Store → Store
replay_mappings times [] store = store
replay_mappings times ((key, s) ∷ later) store = replay_mappings times later (record store {
  source_event_mapping = set store.source_event_mapping key s;
  source_event_mapping_updated_at_ms =
      set store.source_event_mapping_updated_at_ms key (time_of times key);
})

pub load_mappings-replay :
    (now : ℕ) (times : Map ℕ) (m : Map MappingState) (store : Store)
    → load_mappings now (entries (mapping_fields times m)) store
      ≡ ok (replay_mappings times m store)
unfolding load_mappings load_mapping load_mapping_record entries mapping_fields mapping_record
    property time_or replay_mappings
load_mappings-replay now times [] store = refl
load_mappings-replay now times ((key, s) ∷ later) store = load_mappings-replay now times later _
