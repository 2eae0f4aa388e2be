-- ===== src/Verify/Store/Replay.antt =====
-- The store that the written entries come to.
mod Rest
unfoldable pub use Rest.*
use anti_soon.Prelude.{
  ℕ, ◌+◌, ◌≡◌, refl, ◌∙◌, String, Bool, true, false, ◌||◌, [], ◌∷◌, Option, none, some, str_eq,
  eq_iff, if◌then◌else◌, arith, ◌&&◌, count,
}
use anti_soon.Prelude.Map.{Map, get, set, get-set}
use anti_soon.Prelude.Keys.{over_default, IsKeyed, get-other}
use anti_soon.Prelude.Set.{contains_text}
use anti_soon.Verify.Slots.{Status, processing, completed, quarantined, strict_failed}
use anti_soon.Verify.Mapping.{MappingState}
use anti_soon.Verify.Store.{Store, time_of}
use anti_soon.Verify.Store.Load.{Loading, take_status}
use anti_soon.Verify.Store.Saved.{replay, replay_mappings}

-- What a status is after a restart.
unfoldable pub recover : Status → Status
recover processing = quarantined
recover completed = completed
recover quarantined = quarantined
recover strict_failed = strict_failed

abbrev pub is_processing : Status → Bool
is_processing processing = true
is_processing _ = false

statuses-take :
    (l : Loading) (key : String) (t : ℕ) (s : Status) (k : String)
    → get (take_status l key t s).store.sync_status_by_sync_id k
      ≡ (if str_eq key k then some (recover s) else get l.store.sync_status_by_sync_id k)
unfolding take_status recover
statuses-take l key t processing k = get-set l.store.sync_status_by_sync_id key k quarantined
statuses-take l key t completed k = get-set l.store.sync_status_by_sync_id key k completed
statuses-take l key t quarantined k = get-set l.store.sync_status_by_sync_id key k quarantined
statuses-take l key t strict_failed k = get-set l.store.sync_status_by_sync_id key k strict_failed

times-take :
    (l : Loading) (key : String) (t : ℕ) (s : Status) (k : String)
    → get (take_status l key t s).store.sync_status_updated_at_ms k
      ≡ (if str_eq key k then some t else get l.store.sync_status_updated_at_ms k)
unfolding take_status
times-take l key t processing k = get-set l.store.sync_status_updated_at_ms key k t
times-take l key t completed k = get-set l.store.sync_status_updated_at_ms key k t
times-take l key t quarantined k = get-set l.store.sync_status_updated_at_ms key k t
times-take l key t strict_failed k = get-set l.store.sync_status_updated_at_ms key k t

recovered-take :
    (l : Loading) (key : String) (t : ℕ) (s : Status) (k : String)
    → contains_text k (take_status l key t s).recovered_sync_ids
      ≡ (str_eq key k && is_processing s || contains_text k l.recovered_sync_ids)
unfolding take_status
recovered-take l key t processing k = ground (arith, eq_iff key k)
recovered-take l key t completed k = ground arith
recovered-take l key t quarantined k = ground arith
recovered-take l key t strict_failed k = ground arith

pub statuses-replay :
    (times : Map ℕ) (m : Map Status) (l : Loading) (k : String)
    → IsKeyed m
    → get (replay times m l).store.sync_status_by_sync_id k
      ≡ over_default recover (get m k) (get l.store.sync_status_by_sync_id k)
unfolding replay get
statuses-replay times [] l k h = refl
statuses-replay times ((key, s) ∷ m) l k (h, hs) =
    let t = time_of times key in
    ground (
      arith,
      statuses-replay times m (take_status l key t s) k hs,
      statuses-take l key t s k,
      get-other m key h,
      eq_iff key k,
    )

pub times-replay :
    (times : Map ℕ) (m : Map Status) (l : Loading) (k : String)
    → IsKeyed m
    → get (replay times m l).store.sync_status_updated_at_ms k
      ≡ over_default (λ _. time_of times k) (get m k) (get l.store.sync_status_updated_at_ms k)
unfolding replay get
times-replay times [] l k h = refl
times-replay times ((key, s) ∷ m) l k (h, hs) =
    let t = time_of times key in
    ground (
      arith,
      times-replay times m (take_status l key t s) k hs,
      times-take l key t s k,
      get-other m key h,
      eq_iff key k,
    )

-- the status of an id is that of a synchronisation in progress
abbrev pub in_progress : Option Status → Bool
in_progress none = false
in_progress (some s) = is_processing s

pub recovered-replay :
    (times : Map ℕ) (m : Map Status) (l : Loading) (k : String)
    → IsKeyed m
    → contains_text k (replay times m l).recovered_sync_ids
      ≡ (in_progress (get m k) || contains_text k l.recovered_sync_ids)
unfolding replay get
recovered-replay times [] l k h = refl
recovered-replay times ((key, s) ∷ m) l k (h, hs) =
    let t = time_of times key in
    ground (
      arith,
      recovered-replay times m (take_status l key t s) k hs,
      recovered-take l key t s k,
      get-other m key h,
      eq_iff key k,
    )

count-take :
    (l : Loading) (key : String) (t : ℕ) (s : Status)
    → (take_status l key t s).recovered_count
      ≡ (if is_processing s then 1 else 0) + l.recovered_count
unfolding take_status
count-take l key t processing = omega arith
count-take l key t completed = omega arith
count-take l key t quarantined = omega arith
count-take l key t strict_failed = omega arith

pub count-replay :
    (times : Map ℕ) (m : Map Status) (l : Loading)
    → (replay times m l).recovered_count ≡ count (λ e. is_processing e.1) m + l.recovered_count
unfolding replay
count-replay times [] l = omega arith
count-replay times ((key, s) ∷ m) l =
    let t = time_of times key in
    omega (arith, count-replay times m (take_status l key t s), count-take l key t s)

pub mapping-replay :
    (times : Map ℕ) (m : Map MappingState) (s : Store) (k : String)
    → IsKeyed m
    → get (replay_mappings times m s).source_event_mapping k
      ≡ over_default (λ x. x) (get m k) (get s.source_event_mapping k)
unfolding replay_mappings get
mapping-replay times [] s k h = refl
mapping-replay times ((key, x) ∷ m) s k (h, hs) = ground (
  arith,
  mapping-replay times m
      (record s {
        source_event_mapping = set s.source_event_mapping key x;
        source_event_mapping_updated_at_ms =
            set s.source_event_mapping_updated_at_ms key (time_of times key);
      })
      k hs,
  get-set s.source_event_mapping key k x,
  get-other m key h,
  eq_iff key k,
)

pub mapping_times-replay :
    (times : Map ℕ) (m : Map MappingState) (s : Store) (k : String)
    → IsKeyed m
    → get (replay_mappings times m s).source_event_mapping_updated_at_ms k
      ≡ over_default (λ _. time_of times k) (get m k) (get s.source_event_mapping_updated_at_ms k)
unfolding replay_mappings get
mapping_times-replay times [] s k h = refl
mapping_times-replay times ((key, x) ∷ m) s k (h, hs) = ground (
  arith,
  mapping_times-replay times m
      (record s {
        source_event_mapping = set s.source_event_mapping key x;
        source_event_mapping_updated_at_ms =
            set s.source_event_mapping_updated_at_ms key (time_of times key);
      })
      k hs,
  get-set s.source_event_mapping_updated_at_ms key k (time_of times key),
  get-other m key h,
  eq_iff key k,
)
