-- ===== src/Relayer/CursorFile/Restored.antt =====
-- The load of a file that the store wrote.
use Prim.Native.Nat.{Ordering}
use anti_soon.Prelude.{
  ℕ, ◌≡◌, refl, ap, ◌∙◌, String, true, not, [], none, some, ok, All, arith, count, if◌then◌else◌,
  ltb,
}
use anti_soon.Prelude.Results.{◌>>=◌}
use anti_soon.Prelude.Map
use anti_soon.Prelude.Map.{Map, get, set, get-set_self}
use anti_soon.Prelude.Keys.{IsKeyed, over_default}
use anti_soon.Prelude.Sort.{sort, All-sort}
use anti_soon.Prelude.Decimal.{to_string}
use anti_soon.Prelude.Json.{Disk, number, text, object, end, field, property}
use anti_soon.Relayer.Idempotency.{Status}
use anti_soon.Relayer.CursorState.{PendingItem, CursorStore, create_cursor_store}
use anti_soon.Relayer.CursorFile.{
  queue_names, commit_names, number_at, queue_item_fields, pending_fields, compare_keys,
  cursor_payload, persist_cursor_store,
}
use anti_soon.Relayer.CursorFile.Load.{
  BigInts, CursorFile, Loading, required_big_int, load_cursor_file, check_cursor_file,
  is_cursor_schema, cursor_structure, entries_or_none, time_or_now, parse_text, parse_cursor_store,
  finish_load, load_cursor_store,
}
use anti_soon.Relayer.CursorFile.Entries.{
  ReadsDecimals, to_big_int-text, replay_items, replay_pendings, load_items-replay,
  load_pendings-queue, load_pendings-candidates,
}
use anti_soon.Relayer.CursorFile.Replayed.{recover, is_processing, is_completed}

-- What a store is after a restart: the cursor, the pending items and the queue items are the same, but
-- that an item in progress is quarantined as of now, and the counts are taken anew.
pub record IsRestored (now : ℕ) (s s' : CursorStore) : Type 0 where
  pub path : s'.file_path ≡ s.file_path
  pub persists : s'.persist ≡ true
  pub cursor : s'.cursor_last_finalized_block ≡ s.cursor_last_finalized_block
  pub cursor_time : s'.cursor_updated_at_ms ≡ s.cursor_updated_at_ms
  pub status :
      (k : String)
      → get s'.queue_item_status k ≡ over_default recover (get s.queue_item_status k) none
  pub block :
      (k : String)
      → get s'.queue_item_block_number k
        ≡ over_default (λ _. number_at s.queue_item_block_number k) (get s.queue_item_status k) none
  pub time :
      (k : String)
      → get s'.queue_item_updated_at_ms k
        ≡ over_default
            (λ x. if is_processing x then now else number_at s.queue_item_updated_at_ms k)
            (get s.queue_item_status k)
            none
  pub submission :
      (k : String)
      → get s'.queue_item_submission_id k ≡ elim (get s.queue_item_status k) [
        | none ↦ none
        | some _ ↦ get s.queue_item_submission_id k
      ]
  pub project :
      (k : String)
      → get s'.queue_item_project_id k
        ≡ elim (get s.queue_item_status k) [ none ↦ none | some _ ↦ get s.queue_item_project_id k ]
  pub pending : (k : String) → get s'.pending_queue_items k ≡ get s.pending_queue_items k
  pub candidates :
      (k : String) → get s'.pending_committed_candidates k ≡ get s.pending_committed_candidates k
  pub recovered : s'.recovered_processing_count ≡ count (λ e. is_processing e.1) s.queue_item_status
  pub quarantined :
      s'.quarantined_item_count ≡ count (λ e. not (is_completed e.1)) s.queue_item_status

-- every item of a map stands under its own key
abbrev pub HoldsOwnKeys : Map PendingItem → Type 0
HoldsOwnKeys m = All (λ e. e.1.idempotency_key ≡ e.0) m

module _ (locale_compare : String → String → Ordering) where
  -- the file holds the store
  abbrev pub IsSaved : CursorStore → Disk → Type 0
  IsSaved s disk = get disk s.file_path ≡ some (some (cursor_payload locale_compare s))

  -- What holds of a store and its file between the operations.
  pub record IsStored (s : CursorStore) (disk : Disk) : Type 0 where
    pub saved : IsSaved s disk
    pub status_keyed : IsKeyed s.queue_item_status
    pub pending_keyed : IsKeyed s.pending_queue_items
    pub pending_own : HoldsOwnKeys s.pending_queue_items
    pub candidates_keyed : IsKeyed s.pending_committed_candidates
    pub candidates_own : HoldsOwnKeys s.pending_committed_candidates

  -- the file is written again where items were recovered, and is left alone otherwise
  abbrev pub IsRewritten : CursorStore → Disk → Disk → Type 0
  IsRewritten s' disk disk' =
      if◌then◌else◌ (ltb 0 s'.recovered_processing_count) (IsSaved s' disk') (disk' ≡ disk)

  module _ {numbers : BigInts} (decimals : ReadsDecimals numbers) (now : ℕ) (s : CursorStore) where
    abbrev pub items_sorted : Map Status
    items_sorted = sort (compare_keys locale_compare) s.queue_item_status

    abbrev pub pending_sorted : Map PendingItem
    pending_sorted = sort (compare_keys locale_compare) s.pending_queue_items

    abbrev pub candidates_sorted : Map PendingItem
    candidates_sorted = sort (compare_keys locale_compare) s.pending_committed_candidates

    abbrev pub first_loading : Loading
    unfolding create_cursor_store
    first_loading = record {
      store = record (create_cursor_store (some s.file_path) true) {
        cursor_last_finalized_block = s.cursor_last_finalized_block;
        cursor_updated_at_ms = s.cursor_updated_at_ms;
      };
      recovered = 0;
      quarantined_items = 0;
    }

    abbrev file_of : CursorFile
    file_of = record {
      cursor =
          field "lastFinalizedBlock" (text (to_string s.cursor_last_finalized_block))
            (field "updatedAtMs" (number s.cursor_updated_at_ms) end);
      queue_items = queue_item_fields s items_sorted;
      pending_queue_items = some (object (pending_fields queue_names pending_sorted));
      pending_committed_candidates = some (object (pending_fields commit_names candidates_sorted));
    }

    abbrev pub items_loaded : Loading
    items_loaded = replay_items now s items_sorted first_loading

    abbrev pub loaded : Loading
    loaded = record items_loaded {
      store = record items_loaded.store {
        pending_queue_items = replay_pendings pending_sorted [];
        pending_committed_candidates = replay_pendings candidates_sorted [];
        recovered_processing_count = items_loaded.recovered;
        quarantined_item_count = items_loaded.quarantined_items;
      };
    }

    check_cursor_file-payload : check_cursor_file (cursor_payload locale_compare s) ≡ ok file_of
    unfolding check_cursor_file is_cursor_schema cursor_structure cursor_payload property
    check_cursor_file-payload = refl

    load_cursor_file-loaded :
        HoldsOwnKeys s.pending_queue_items
        → HoldsOwnKeys s.pending_committed_candidates
        → load_cursor_file numbers now (create_cursor_store (some s.file_path) true) file_of
          ≡ ok loaded
    unfolding load_cursor_file required_big_int time_or_now entries_or_none create_cursor_store
        property
    load_cursor_file-loaded p c =
        rw
          (
            to_big_int-text decimals s.cursor_last_finalized_block,
            load_items-replay decimals now s items_sorted first_loading,
            load_pendings-queue decimals now pending_sorted
                (All-sort (compare_keys locale_compare) _ s.pending_queue_items p),
            load_pendings-candidates decimals now candidates_sorted
                (All-sort (compare_keys locale_compare) _ s.pending_committed_candidates c),
          )
          refl

    parsed : (disk : Disk) → IsSaved s disk → parse_cursor_store disk s.file_path ≡ ok file_of
    unfolding parse_cursor_store parse_text
    parsed disk saved =
        ap (λ o. parse_text o >>= check_cursor_file) saved ∙ check_cursor_file-payload

    abbrev pub disk_after : Disk → Disk
    disk_after disk =
        if ltb 0 loaded.recovered
        then persist_cursor_store locale_compare loaded.store disk
        else disk

    pub load_cursor_store-loaded :
        (disk : Disk)
        → IsStored s disk
        → load_cursor_store numbers locale_compare s.file_path now disk
          ≡ (ok loaded.store, disk_after disk)
    unfolding load_cursor_store finish_load
    load_cursor_store-loaded disk h = ground (
      arith,
      Map.has-of_get disk s.file_path (some (cursor_payload locale_compare s)) h.saved,
      parsed disk h.saved,
      load_cursor_file-loaded h.pending_own h.candidates_own,
    )
