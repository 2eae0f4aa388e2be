-- ===== src/Relayer/CursorFile/Entries.antt =====
-- What is read of the entries that were written.
use anti_soon.Prelude.{
  ℕ, ◌≡◌, refl, ap, sym, ◌∙◌, String, false, [], ◌∷◌, Option, none, some, ok, arith, All,
}
use anti_soon.Prelude.Results.{◌>>=◌}
use anti_soon.Prelude.Map.{Map, get, set}
use anti_soon.Prelude.Decimal.{to_string}
use anti_soon.Prelude.Json.{Json, number, text, Fields, end, field, property, entries}
use anti_soon.Relayer.Idempotency.{Status, processing, completed, quarantined}
use anti_soon.Relayer.CursorState.{PendingItem, CursorStore}
use anti_soon.Relayer.CursorFile.{
  Names, queue_names, commit_names, queue_status_text, number_at, optional_field, queue_item_record,
  pending_record, queue_item_fields, pending_fields,
}
use anti_soon.Relayer.CursorFile.Load.{
  BigInts, Loading, to_big_int, big_int_result, optional_big_int, load_item_of, load_item_texts,
  load_item, load_items, parse_queue_status, take_item, time_or_now, load_pending,
  load_pending_texts, load_pendings,
}

-- `BigInt` reads the decimal digits that `toString` writes.
pub record ReadsDecimals (numbers : BigInts) : Type 0 where
  pub not_blank : (n : ℕ) → numbers.is_blank (to_string n) ≡ false
  pub reads : (n : ℕ) → numbers.big_int (to_string n) ≡ some n

abbrev text_of : Option ℕ → Option Json
text_of none = none
text_of (some n) = some (text (to_string n))

-- an item of the store `s`, read from its record
abbrev pub take_entry : ℕ → CursorStore → Loading → String → Status → Loading
take_entry now s l key x =
    take_item x l key now (number_at s.queue_item_block_number key)
      (number_at s.queue_item_updated_at_ms key) (get s.queue_item_submission_id key)
      (get s.queue_item_project_id key)

unfoldable pub replay_items : ℕ → CursorStore → Map Status → Loading → Loading
replay_items now s [] l = l
replay_items now s ((key, x) ∷ later) l = replay_items now s later (take_entry now s l key x)

unfoldable pub replay_pendings : Map PendingItem → Map PendingItem → Map PendingItem
replay_pendings [] acc = acc
replay_pendings ((key, item) ∷ later) acc = replay_pendings later (set acc key item)

-- the fields of a queue item's record
abbrev item_fields : Status → ℕ → ℕ → Option ℕ → Option ℕ → Fields
item_fields s b t sub proj = field "status" (text (queue_status_text s)) (
    field "blockNumber" (text (to_string b)) (
      field "updatedAtMs" (number t)
        (optional_field "submissionId" sub (optional_field "projectId" proj end))))

parse_queue_status-text : (s : Status) → parse_queue_status (queue_status_text s) ≡ some s
unfolding parse_queue_status queue_status_text
parse_queue_status-text processing = refl
parse_queue_status-text completed = refl
parse_queue_status-text quarantined = refl

module _ {numbers : BigInts} (decimals : ReadsDecimals numbers) where
  pub to_big_int-text : (n : ℕ) → to_big_int numbers (to_string n) ≡ ok n
  unfolding to_big_int big_int_result
  to_big_int-text n = ground (arith, decimals.not_blank n, decimals.reads n)

  optional_big_int-text : (o : Option ℕ) → optional_big_int numbers (text_of o) ≡ ok o
  unfolding optional_big_int
  optional_big_int-text none = refl
  optional_big_int-text (some n) = rw (to_big_int-text n) refl

  load_item_of-texts :
      (s : Status) (l : Loading) (key : String) (now b t : ℕ) (sub proj : Option ℕ) (r : Fields)
      → property r "submissionId" ≡ text_of sub
      → property r "projectId" ≡ text_of proj
      → property r "updatedAtMs" ≡ some (number t)
      → load_item_of numbers (some s) l key now (to_string b) r
        ≡ ok (take_item s l key now b t sub proj)
  unfolding load_item_of time_or_now
  load_item_of-texts s l key now b t sub proj r p q u =
      rw (p, q, u, to_big_int-text b, optional_big_int-text sub, optional_big_int-text proj) refl

  submission-field :
      (s : Status) (b t : ℕ) (sub proj : Option ℕ)
      → property (item_fields s b t sub proj) "submissionId" ≡ text_of sub
  unfolding property optional_field
  submission-field s b t none none = refl
  submission-field s b t none (some p) = refl
  submission-field s b t (some n) proj = refl

  project-field :
      (s : Status) (b t : ℕ) (sub proj : Option ℕ)
      → property (item_fields s b t sub proj) "projectId" ≡ text_of proj
  unfolding property optional_field
  project-field s b t none none = refl
  project-field s b t none (some p) = refl
  project-field s b t (some n) none = refl
  project-field s b t (some n) (some p) = refl

  load_item-record :
      (s : Status) (l : Loading) (key : String) (now b t : ℕ) (sub proj : Option ℕ)
      → load_item numbers now l key (queue_item_record s b t sub proj)
        ≡ ok (take_item s l key now b t sub proj)
  unfolding load_item load_item_texts queue_item_record property
  load_item-record s l key now b t sub proj =
      let r = item_fields s b t sub proj in
      ap (λ o. load_item_of numbers o l key now (to_string b) r) (parse_queue_status-text s)
      ∙ load_item_of-texts s l key now b t sub proj r (submission-field s b t sub proj)
          (project-field s b t sub proj) refl

  load_pending-queue :
      (now : ℕ) (key : String) (item : PendingItem)
      → item.idempotency_key ≡ key
      → load_pending numbers queue_names now key (pending_record queue_names item) ≡ ok item
  unfolding load_pending load_pending_texts pending_record property time_or_now
  load_pending-queue now key item e =
      rw
        (
          to_big_int-text item.submission_id,
          to_big_int-text item.project_id,
          to_big_int-text item.block_number,
          to_big_int-text item.log_index,
        )
        (ap (λ k. ok (record item { idempotency_key = k })) (sym e))

  load_pending-candidate :
      (now : ℕ) (key : String) (item : PendingItem)
      → item.idempotency_key ≡ key
      → load_pending numbers commit_names now key (pending_record commit_names item) ≡ ok item
  unfolding load_pending load_pending_texts pending_record property time_or_now
  load_pending-candidate now key item e =
      rw
        (
          to_big_int-text item.submission_id,
          to_big_int-text item.project_id,
          to_big_int-text item.block_number,
          to_big_int-text item.log_index,
        )
        (ap (λ k. ok (record item { idempotency_key = k })) (sym e))

  -- the loads of the written entries, one after another
  pub load_items-replay :
      (now : ℕ) (s : CursorStore) (m : Map Status) (l : Loading)
      → load_items numbers now (entries (queue_item_fields s m)) l ≡ ok (replay_items now s m l)
  unfolding load_items entries queue_item_fields replay_items
  load_items-replay now s [] l = refl
  load_items-replay now s ((key, x) ∷ later) l =
      ap (λ r. r >>= load_items numbers now (entries (queue_item_fields s later)))
        (load_item-record x l key now (number_at s.queue_item_block_number key)
          (number_at s.queue_item_updated_at_ms key) (get s.queue_item_submission_id key)
          (get s.queue_item_project_id key))
      ∙ load_items-replay now s later (take_entry now s l key x)

  module _ (names : Names) (now : ℕ)
      (load_pending-record : (key : String) (item : PendingItem)
        → item.idempotency_key ≡ key
        → load_pending numbers names now key (pending_record names item) ≡ ok item) where
    load_pendings-replay :
        (m acc : Map PendingItem)
        → All (λ e. e.1.idempotency_key ≡ e.0) m
        → load_pendings numbers names now (entries (pending_fields names m)) acc
          ≡ ok (replay_pendings m acc)
    unfolding load_pendings entries pending_fields replay_pendings
    load_pendings-replay [] acc h = refl
    load_pendings-replay ((key, item) ∷ later) acc (h, hs) =
        ap
          (λ r. r >>= λ (x : PendingItem).
            load_pendings numbers names now (entries (pending_fields names later)) (set acc key x))
          (load_pending-record key item h)
        ∙ load_pendings-replay later (set acc key item) hs

  pub load_pendings-queue :
      (now : ℕ) (m : Map PendingItem)
      → All (λ e. e.1.idempotency_key ≡ e.0) m
      → load_pendings numbers queue_names now (entries (pending_fields queue_names m)) []
        ≡ ok (replay_pendings m [])
  load_pendings-queue now m h = load_pendings-replay queue_names now (load_pending-queue now) m [] h

  pub load_pendings-candidates :
      (now : ℕ) (m : Map PendingItem)
      → All (λ e. e.1.idempotency_key ≡ e.0) m
      → load_pendings numbers commit_names now (entries (pending_fields commit_names m)) []
        ≡ ok (replay_pendings m [])
  load_pendings-candidates now m h =
      load_pendings-replay commit_names now (load_pending-candidate now) m [] h
