-- ===== src/Relayer/CursorFile/Load.antt =====
-- `loadAutoRevealCursorStore` of workflow/auto-reveal-relayer/cursor-store.ts; Parse has its parser and
-- the tests of fields.
mod Parse
unfoldable pub use Parse.*
use Prim.Native.Nat.{Ordering}
use anti_soon.Prelude.{
  ℕ, suc, String, Bool, true, false, List, [], ◌∷◌, Option, none, some, Result, ok, err, ltb,
  str_eq, if◌then◌else◌,
}
use anti_soon.Prelude.Results.{◌>>=◌}
use anti_soon.Prelude.Map
use anti_soon.Prelude.Map.{Map}
use anti_soon.Prelude.Json.{Disk, Json, number, text, object, Fields, property, entries}
use anti_soon.Relayer.Idempotency.{Status, processing, completed, quarantined}
use anti_soon.Relayer.CursorState.{PendingItem, CursorStore, create_cursor_store}
use anti_soon.Relayer.CursorFile.{
  Names, queue_names, commit_names, cursor_schema_version, persist_cursor_store,
}

-- The store that is loaded, and the two counts.
pub record Loading : Type 0 where
  pub store : CursorStore
  pub recovered : ℕ
  pub quarantined_items : ℕ

-- an optional id of an item
unfoldable pub set_optional : Map ℕ → String → Option ℕ → Map ℕ
set_optional m key none = m
set_optional m key (some n) = Map.set m key n

-- what an item that was read leaves in the maps
unfoldable pub put_item :
    Status → CursorStore → String → (block time : ℕ) → (submission project : Option ℕ) → CursorStore
unfolding set_optional
put_item status store key block time submission project = record store {
  queue_item_status = Map.set store.queue_item_status key status;
  queue_item_block_number = Map.set store.queue_item_block_number key block;
  queue_item_updated_at_ms = Map.set store.queue_item_updated_at_ms key time;
  queue_item_submission_id = set_optional store.queue_item_submission_id key submission;
  queue_item_project_id = set_optional store.queue_item_project_id key project;
}

-- an item that was in progress is quarantined
unfoldable pub take_item :
    Status → Loading → String → ℕ → (block time : ℕ) → (submission project : Option ℕ) → Loading
unfolding put_item
take_item processing l key now_ms block time submission project = record {
  store = put_item quarantined l.store key block now_ms submission project;
  recovered = suc l.recovered;
  quarantined_items = suc l.quarantined_items;
}
take_item completed l key now_ms block time submission project = record l {
  store = put_item completed l.store key block time submission project;
}
take_item quarantined l key now_ms block time submission project = record {
  store = put_item quarantined l.store key block time submission project;
  recovered = l.recovered;
  quarantined_items = suc l.quarantined_items;
}

module _ (numbers : BigInts) where
  open numbers use {is_blank, big_int}

  unfoldable pub to_big_int : String → Result LoadError ℕ
  unfolding big_int_result
  to_big_int value = if is_blank value then err empty_number else big_int_result (big_int value)

  -- a field that is read where it is a text, and for the cursor must be one
  unfoldable pub required_big_int : Option Json → Result LoadError ℕ
  unfolding to_big_int
  required_big_int (some (text value)) = to_big_int value
  required_big_int _ = err empty_number

  unfoldable pub optional_big_int : Option Json → Result LoadError (Option ℕ)
  unfolding to_big_int
  optional_big_int (some (text value)) = to_big_int value >>= λ n. ok (some n)
  optional_big_int _ = ok none

  -- an item of a status, with its block number
  unfoldable pub load_item_of :
      Option Status → Loading → String → ℕ → String → Fields → Result LoadError Loading
  unfolding to_big_int optional_big_int time_or_now take_item property
  load_item_of none l key now_ms block r = err (invalid_status key)
  load_item_of (some status) l key now_ms block r = to_big_int block >>= λ block_number.
      optional_big_int (property r "submissionId") >>= λ submission.
      optional_big_int (property r "projectId") >>= λ project. ok (
        take_item status l key now_ms block_number (time_or_now (property r "updatedAtMs") now_ms)
          submission project)

  unfoldable pub load_item_texts :
      Option Json → Option Json → Loading → String → ℕ → Fields → Result LoadError Loading
  unfolding load_item_of parse_queue_status
  load_item_texts (some (text status)) (some (text block)) l key now_ms r =
      load_item_of (parse_queue_status status) l key now_ms block r
  load_item_texts _ _ l key now_ms r = err (invalid_queue_item key)

  unfoldable pub load_item : ℕ → Loading → String → Json → Result LoadError Loading
  unfolding load_item_texts property
  load_item now_ms l key (object r) =
      load_item_texts (property r "status") (property r "blockNumber") l key now_ms r
  load_item now_ms l key _ = err (invalid_queue_item key)

  unfoldable pub load_items : ℕ → List (String × Json) → Loading → Result LoadError Loading
  unfolding load_item
  load_items now_ms [] l = ok l
  load_items now_ms ((key, r) ∷ later) l = load_item now_ms l key r >>= load_items now_ms later

  -- the five texts of a pending record
  unfoldable pub load_pending_texts :
      Option Json
      → Option Json
      → Option Json
      → Option Json
      → Option Json
      → String
      → ℕ
      → Fields
      → Result LoadError PendingItem
  unfolding to_big_int time_or_now property
  load_pending_texts (some (text submission)) (some (text project)) (some (text block))
        (some (text tx_hash)) (some (text log_index)) key now_ms r =
      to_big_int submission >>= λ submission_id. to_big_int project >>= λ project_id.
      to_big_int block >>= λ block_number. to_big_int log_index >>= λ index. ok (record {
        idempotency_key = key;
        submission_id = submission_id;
        project_id = project_id;
        block_number = block_number;
        tx_hash = tx_hash;
        log_index = index;
        first_seen_at_ms = time_or_now (property r "firstSeenAtMs") now_ms;
        last_evaluated_at_ms = time_or_now (property r "lastEvaluatedAtMs") now_ms;
      })
  load_pending_texts _ _ _ _ _ key now_ms r = err (invalid_pending_item key)

  unfoldable pub load_pending : Names → ℕ → String → Json → Result LoadError PendingItem
  unfolding load_pending_texts property
  load_pending names now_ms key (object r) =
      load_pending_texts (property r "submissionId") (property r "projectId")
        (property r names.block_number) (property r names.tx_hash) (property r names.log_index) key
        now_ms r
  load_pending names now_ms key _ = err (invalid_pending_item key)

  unfoldable pub load_pendings :
      Names → ℕ → List (String × Json) → Map PendingItem → Result LoadError (Map PendingItem)
  unfolding load_pending
  load_pendings names now_ms [] m = ok m
  load_pendings names now_ms ((key, r) ∷ later) m = load_pending names now_ms key r >>= λ item.
      load_pendings names now_ms later (Map.set m key item)

  -- the parts of the file, into a new store
  unfoldable pub load_cursor_file : ℕ → CursorStore → CursorFile → Result LoadError Loading
  unfolding required_big_int time_or_now load_items load_pendings entries entries_or_none property
  load_cursor_file now_ms store file =
      required_big_int (property file.cursor "lastFinalizedBlock") >>= λ last.
      load_items now_ms (entries file.queue_items) (record {
        store = record store {
          cursor_last_finalized_block = last;
          cursor_updated_at_ms = time_or_now (property file.cursor "updatedAtMs") now_ms;
        };
        recovered = 0;
        quarantined_items = 0;
      })
      >>= λ l.
          load_pendings queue_names now_ms (entries_or_none file.pending_queue_items) []
          >>= λ pending.
              load_pendings commit_names now_ms (entries_or_none file.pending_committed_candidates)
                []
              >>= λ candidates. ok (record l {
                store = record l.store {
                  pending_queue_items = pending;
                  pending_committed_candidates = candidates;
                  recovered_processing_count = l.recovered;
                  quarantined_item_count = l.quarantined_items;
                };
              })

  module _ (locale_compare : String → String → Ordering) where
    -- a store with recovered items is written again
    unfoldable pub finish_load :
        Result LoadError Loading → Disk → Result LoadError CursorStore × Disk
    unfolding persist_cursor_store
    finish_load (err e) disk = (err e, disk)
    finish_load (ok l) disk = (
      ok l.store,
      if ltb 0 l.recovered then persist_cursor_store locale_compare l.store disk else disk,
    )

    unfoldable pub load_cursor_store : String → ℕ → Disk → Result LoadError CursorStore × Disk
    unfolding load_cursor_file parse_cursor_store create_cursor_store persist_cursor_store
        finish_load
    load_cursor_store file_path now_ms disk =
        let store = create_cursor_store (some file_path) true in
        let first = record store { cursor_updated_at_ms = now_ms } in
        if Map.has disk file_path
        then finish_load (parse_cursor_store disk file_path >>= load_cursor_file now_ms store) disk
        else (ok first, persist_cursor_store locale_compare first disk)
