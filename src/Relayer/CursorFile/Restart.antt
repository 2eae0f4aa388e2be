-- ===== src/Relayer/CursorFile/Restart.antt =====
-- A store that was written comes back at the next load.
use Prim.Native.Nat.{Ordering}
use anti_soon.Prelude.{
  ℕ, ◌≡◌, refl, ap, ◌∙◌, String, Bool, not, Option, none, some, ok, inl, inr, Bool-cases, arith,
  ltb, [],
}
use anti_soon.Prelude.Map.{Map, get, get-set_self}
use anti_soon.Prelude.Keys.{IsKeyed, get-sort, sorted-IsKeyed, over_default, over_default-id}
use anti_soon.Prelude.Sort.{sort, count-sort}
use anti_soon.Prelude.Json.{Disk}
use anti_soon.Relayer.Idempotency.{Status}
use anti_soon.Relayer.CursorState.{PendingItem, CursorStore, create_cursor_store}
use anti_soon.Relayer.CursorFile.{number_at, compare_keys, cursor_payload, persist_cursor_store}
use anti_soon.Relayer.CursorFile.Load.{BigInts, Loading, take_item, put_item, load_cursor_store}
use anti_soon.Relayer.CursorFile.Entries.{ReadsDecimals, take_entry, replay_pendings}
use anti_soon.Relayer.CursorFile.Replayed.{
  recover, is_processing, is_completed, changed, over_optional, time_left, replay-same,
  status-replay, block-replay, time-replay, submission-replay, project-replay, recovered-replay,
  quarantined-replay, pending-replay,
}
use anti_soon.Relayer.CursorFile.Restored.{
  IsRestored, IsStored, IsRewritten, loaded, items_loaded, first_loading, items_sorted, disk_after,
  load_cursor_store-loaded,
}

changed-over :
    {X : Type 0} (value : Status → X) (o : Option Status)
    → changed (λ x _. some (value x)) o none ≡ over_default value o none
changed-over value none = refl
changed-over value (some x) = refl

changed-optional :
    (id : Option ℕ) (o : Option Status)
    → changed (λ _. over_optional id) o none ≡ elim o [ none ↦ none | some _ ↦ id ]
changed-optional id none = refl
changed-optional none (some x) = refl
changed-optional (some n) (some x) = refl

-- What no item changes: the file's path, the cursor, and whether the store persists.
abbrev Settings : Type 0
Settings = String × Bool × ℕ × ℕ

abbrev settings : CursorStore → Settings
settings s = (s.file_path, s.persist, s.cursor_last_finalized_block, s.cursor_updated_at_ms)

take_entry-settings :
    (now : ℕ) (s : CursorStore) (l : Loading) (key : String) (x : Status)
    → settings (take_entry now s l key x).store ≡ settings l.store
unfolding take_item put_item
take_entry-settings now s l key Status.processing = refl
take_entry-settings now s l key Status.completed = refl
take_entry-settings now s l key Status.quarantined = refl

module _ (locale_compare : String → String → Ordering) {numbers : BigInts}
    (decimals : ReadsDecimals numbers) (now : ℕ) (s : CursorStore) (disk : Disk) where
  abbrev cmp : {V : Type 0} → String × V → String × V → Ordering
  cmp = compare_keys locale_compare

  abbrev s' : CursorStore
  s' = (loaded locale_compare decimals now s).store

  settings-loaded :
      settings (items_loaded locale_compare decimals now s).store
      ≡ settings (first_loading locale_compare decimals now s).store
  settings-loaded =
      replay-same now s (λ l. settings l.store) (take_entry-settings now s)
        (items_sorted locale_compare decimals now s) (first_loading locale_compare decimals now s)

  pending-loaded :
      (m : Map PendingItem) (k : String)
      → IsKeyed m
      → get (replay_pendings (sort cmp m) []) k ≡ get m k
  unfolding get
  pending-loaded m k h =
      pending-replay (sort cmp m) [] k (sorted-IsKeyed cmp m h)
      ∙ over_default-id (get (sort cmp m) k)
      ∙ get-sort cmp m k h

  module _ (stored : IsStored locale_compare s disk) where
    -- an item of the loaded store, from that of the sorted statuses
    of_sorted :
        {X : Type 0} (value : Option Status → X) (k : String)
        → value (get (items_sorted locale_compare decimals now s) k)
          ≡ value (get s.queue_item_status k)
    of_sorted value k = ap value (get-sort cmp s.queue_item_status k stored.status_keyed)

    loaded-IsRestored : IsRestored now s s'
    unfolding create_cursor_store get
    loaded-IsRestored =
        let m = items_sorted locale_compare decimals now s in
        let l = first_loading locale_compare decimals now s in
        let keyed = sorted-IsKeyed cmp s.queue_item_status stored.status_keyed in
        record {
          path = ap (λ (x : Settings). x.0) settings-loaded;
          persists = ap (λ (x : Settings). x.1) settings-loaded;
          cursor = ap (λ (x : Settings). x.2) settings-loaded;
          cursor_time = ap (λ (x : Settings). x.3) settings-loaded;
          status = λ k.
              status-replay now s m l k keyed
              ∙ changed-over recover (get m k)
              ∙ of_sorted (λ o. over_default recover o none) k;
          block = λ k.
              block-replay now s m l k keyed
              ∙ changed-over (λ _. number_at s.queue_item_block_number k) (get m k)
              ∙ of_sorted (λ o. over_default (λ _. number_at s.queue_item_block_number k) o none) k;
          time = λ k.
              time-replay now s m l k keyed
              ∙ changed-over (time_left now s k) (get m k)
              ∙ of_sorted (λ o. over_default (time_left now s k) o none) k;
          submission = λ k.
              submission-replay now s m l k keyed
              ∙ changed-optional (get s.queue_item_submission_id k) (get m k)
              ∙ of_sorted (λ o. elim o [ none ↦ none | some _ ↦ get s.queue_item_submission_id k ])
                  k;
          project = λ k.
              project-replay now s m l k keyed
              ∙ changed-optional (get s.queue_item_project_id k) (get m k)
              ∙ of_sorted (λ o. elim o [ none ↦ none | some _ ↦ get s.queue_item_project_id k ]) k;
          pending = λ k. pending-loaded s.pending_queue_items k stored.pending_keyed;
          candidates = λ k. pending-loaded s.pending_committed_candidates k stored.candidates_keyed;
          recovered = omega (
            arith,
            recovered-replay now s m l,
            count-sort cmp (λ e. is_processing e.1) s.queue_item_status,
          );
          quarantined = omega (
            arith,
            quarantined-replay now s m l,
            count-sort cmp (λ e. not (is_completed e.1)) s.queue_item_status,
          );
        }

    -- the file after the load
    rewritten : IsRewritten locale_compare s' disk (disk_after locale_compare decimals now s disk)
    unfolding persist_cursor_store
    rewritten = elim (Bool-cases (ltb 0 s'.recovered_processing_count)) [
      | inl e ↦ rw e (get-set_self _ s'.file_path (some (cursor_payload locale_compare s')))
      | inr e ↦ rw e refl
    ]

    -- Where the file holds the payload of a store, with its statuses and pending items each once
    -- under their own keys, loading it gives that store again, but that the items in progress are
    -- quarantined as of now and the counts are taken anew, and rewrites the file exactly where an
    -- item was in progress. BigInt is assumed to read the digits that toString writes.
    pub load_cursor_store-IsRestored :
        (t : CursorStore) × (disk' : Disk) × (load_cursor_store numbers locale_compare s.file_path
            now disk
          ≡ (ok t, disk'))
        × IsRestored now s t
        × IsRewritten locale_compare t disk disk'
    load_cursor_store-IsRestored = (
      s',
      disk_after locale_compare decimals now s disk,
      load_cursor_store-loaded locale_compare decimals now s disk stored,
      loaded-IsRestored,
      rewritten,
    )
