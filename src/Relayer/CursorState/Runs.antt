-- ===== src/Relayer/CursorState/Runs.antt =====
-- Runs of the store: any sequence of the operations of cursor-state.ts.
pub mod Invariant
pub mod Progress
pub mod Fence
use anti_soon.Prelude.{ℕ, String, Option, List, [], ◌∷◌}
use anti_soon.Relayer.CursorState.State.{Session}
use anti_soon.Relayer.CursorState.Pending.{
  NewItem, upsert_durable_pending_queue_item, upsert_durable_pending_committed_candidate,
  remove_durable_pending_queue_item, remove_durable_pending_committed_candidate,
}
use anti_soon.Relayer.CursorState.Pending.Upsert.{KeyAgrees}
use anti_soon.Relayer.CursorState.Claim.{
  Identity, claim_durable_queue_item, mark_durable_queue_item_completed,
  mark_durable_queue_item_quarantined,
}
use anti_soon.Relayer.CursorState.Cursor.{advance_durable_cursor}

pub data Op : Type 0 where
  claim : (key : String) (block now_ms : ℕ) → Option Identity → Op
  complete quarantine : (key : String) (now_ms : ℕ) → Op
  advance : (next now_ms : ℕ) → Op
  upsert_queue_item upsert_candidate : NewItem → (now_ms : ℕ) → Op
  remove_queue_item remove_candidate : String → Op

unfoldable pub apply : Op → Session → Session
apply (claim key block now_ms identity) s = (claim_durable_queue_item s key block now_ms identity).0
apply (complete key now_ms) s = mark_durable_queue_item_completed s key now_ms
apply (quarantine key now_ms) s = mark_durable_queue_item_quarantined s key now_ms
apply (advance next now_ms) s = (advance_durable_cursor s next now_ms).1
apply (upsert_queue_item item now_ms) s = (upsert_durable_pending_queue_item s item now_ms).0
apply (upsert_candidate item now_ms) s =
    (upsert_durable_pending_committed_candidate s item now_ms).0
apply (remove_queue_item key) s = remove_durable_pending_queue_item s key
apply (remove_candidate key) s = remove_durable_pending_committed_candidate s key

unfoldable pub run : List Op → Session → Session
run [] s = s
run (op ∷ ops) s = run ops (apply op s)

-- An upsert's key names the submission that it named before.
abbrev pub IsAdmissible : Op → Session → Type 0
IsAdmissible (upsert_queue_item item _) s = KeyAgrees s.store.pending_queue_items item
IsAdmissible (upsert_candidate item _) s = KeyAgrees s.store.pending_committed_candidates item
IsAdmissible _ s = Unit

abbrev pub AreAdmissible : List Op → Session → Type 0
AreAdmissible [] s = Unit
AreAdmissible (op ∷ ops) s = IsAdmissible op s × AreAdmissible ops (apply op s)
