-- ===== src/Relayer/CursorFile/Load/Parse.antt =====
-- The parts of a file, and what stands in their fields.
use anti_soon.Prelude.{
  ℕ, String, Bool, false, List, [], ◌∷◌, Option, none, some, Result, ok, err, str_eq, if◌then◌else◌,
}
use anti_soon.Prelude.Results.{◌>>=◌}
use anti_soon.Prelude.Map
use anti_soon.Prelude.Map.{Map}
use anti_soon.Prelude.Json.{Disk, Json, number, text, object, Fields, property, entries}
use anti_soon.Relayer.Idempotency.{Status, processing, completed, quarantined}
use anti_soon.Relayer.CursorFile.{cursor_schema_version}

pub data LoadError : Type 0 where
  -- `readFileSync` of a file that is not there, and `JSON.parse` of what is no JSON
  no_such_file no_json : LoadError
  invalid_payload invalid_structure : LoadError
  unsupported_schema : Option Json → LoadError
  empty_number invalid_number : LoadError
  invalid_queue_item invalid_status invalid_pending_item : (key : String) → LoadError

-- The functions of the language on texts: whether a text is blank, and `BigInt`, which throws on a
-- text that is no number. The file holds no negative numbers.
pub record BigInts : Type 0 where
  pub is_blank : String → Bool
  pub big_int : String → Option ℕ

-- The parts of a file.
pub record CursorFile : Type 0 where
  pub cursor : Fields
  pub queue_items : Fields
  pub pending_queue_items : Option Json
  pub pending_committed_candidates : Option Json

unfoldable pub parse_text : Option (Option Json) → Result LoadError Json
parse_text none = err no_such_file
parse_text (some none) = err no_json
parse_text (some (some value)) = ok value

unfoldable pub is_cursor_schema : Option Json → Bool
is_cursor_schema (some (text s)) = str_eq s cursor_schema_version
is_cursor_schema _ = false

unfoldable pub cursor_structure :
    Option Json → Option Json → Option Json → Option Json → Result LoadError CursorFile
cursor_structure (some (object cursor)) (some (object items)) pending candidates = ok (record {
  cursor = cursor;
  queue_items = items;
  pending_queue_items = pending;
  pending_committed_candidates = candidates;
})
cursor_structure _ _ pending candidates = err invalid_structure

unfoldable pub check_cursor_file : Json → Result LoadError CursorFile
unfolding is_cursor_schema cursor_structure property
check_cursor_file (object parsed) =
    let version = property parsed "schemaVersion" in
    if is_cursor_schema version
    then cursor_structure (property parsed "cursor")
        (property parsed "queueItemStatusByIdempotencyKey")
        (property parsed "pendingQueueItemsByIdempotencyKey")
        (property parsed "pendingCommittedCandidatesByIdempotencyKey")
    else err (unsupported_schema version)
check_cursor_file _ = err invalid_payload

-- also `readAutoRevealCursorStoreFile`
unfoldable pub parse_cursor_store : Disk → String → Result LoadError CursorFile
unfolding parse_text check_cursor_file
parse_cursor_store disk file_path = parse_text (Map.get disk file_path) >>= check_cursor_file

unfoldable pub parse_queue_status : String → Option Status
parse_queue_status s =
    if str_eq s "processing"
    then some processing
    else if str_eq s "completed"
    then some completed
    else if str_eq s "quarantined"
    then some quarantined
    else none

-- `typeof value === "number" ? value : nowMs`
unfoldable pub time_or_now : Option Json → ℕ → ℕ
time_or_now (some (number t)) now_ms = t
time_or_now _ now_ms = now_ms

unfoldable pub big_int_result : Option ℕ → Result LoadError ℕ
big_int_result none = err invalid_number
big_int_result (some n) = ok n

-- `Object.entries(value ?? {})`; the first entry of a text is its first character, which is no object
unfoldable pub entries_or_none : Option Json → List (String × Json)
unfolding entries
entries_or_none (some (object fields)) = entries fields
entries_or_none (some (text s)) = if str_eq s "" then [] else ("0", text s) ∷ []
entries_or_none _ = []
