-- ===== src/Relayer/CursorState/Runs/Progress.antt =====
-- What no operation takes back: a seen key, the cursor, and an unresolved item's hold on it.
use anti_soon.Prelude.{
  ℕ, ◌≤◌, String, ◌≡◌, ◌≢◌, false, Option, none, some, List, [], ◌∷◌, arith, eq_iff, Option-cases,
  inl, inr,
}
use anti_soon.Prelude.Map
use anti_soon.Prelude.Map.{Map}
use anti_soon.Relayer.Idempotency.{Status, processing, completed, quarantined}
use anti_soon.Relayer.CursorState.State.{Session, assert_healthy, count_quarantined}
use anti_soon.Prelude.{ok}
use anti_soon.Relayer.CursorState.Pending.{
  upsert_durable_pending_queue_item, upsert_durable_pending_committed_candidate,
  remove_durable_pending_queue_item, remove_durable_pending_committed_candidate,
}
use anti_soon.Relayer.CursorState.Claim.{
  Identity, claim_durable_queue_item, mark_durable_queue_item_completed,
  mark_durable_queue_item_quarantined,
}
use anti_soon.Relayer.CursorState.Claim.Laws.{claim_seen, claim_new}
use anti_soon.Relayer.CursorState.Cursor.{advance_durable_cursor}
use anti_soon.Relayer.CursorState.Runs.{
  Op, claim, complete, quarantine, advance, upsert_queue_item, upsert_candidate, remove_queue_item,
  remove_candidate, apply, run,
}
use anti_soon.Relayer.CursorState.Runs.Invariant.{IsWellFormed}

abbrev pub cursor : Session → ℕ
cursor s = s.store.cursor_last_finalized_block

abbrev pub status_of : Session → String → Option Status
status_of s key = Map.get s.store.queue_item_status key

-- What an operation leaves of the parts that the cursor depends on.
record Frame (key : String) (s t : Session) : Type 0 where
  seen : status_of s key ≢ none → status_of t key ≢ none
  le : cursor s ≤ cursor t

apply-Frame : (op : Op) (key : String) (s : Session) → Frame key s (apply op s)
unfolding apply
apply-Frame (claim k block now_ms identity) key s =
    unfold claim_durable_queue_item in
    ground (arith, Map.get-set s.store.queue_item_status k key processing, eq_iff k key)
apply-Frame (complete k now_ms) key s =
    unfold mark_durable_queue_item_completed in
    ground (arith, Map.get-set s.store.queue_item_status k key completed, eq_iff k key)
apply-Frame (quarantine k now_ms) key s =
    unfold mark_durable_queue_item_quarantined in
    ground (arith, Map.get-set s.store.queue_item_status k key quarantined, eq_iff k key)
apply-Frame (advance next now_ms) key s = unfold advance_durable_cursor in ground arith
apply-Frame (upsert_queue_item item now_ms) key s =
    unfold upsert_durable_pending_queue_item in ground arith
apply-Frame (upsert_candidate item now_ms) key s =
    unfold upsert_durable_pending_committed_candidate in ground arith
apply-Frame (remove_queue_item k) key s = unfold remove_durable_pending_queue_item in ground arith
apply-Frame (remove_candidate k) key s =
    unfold remove_durable_pending_committed_candidate in ground arith

run-Frame : (ops : List Op) (key : String) (s : Session) → Frame key s (run ops s)
unfolding run
run-Frame [] key s = ground arith
run-Frame (op ∷ ops) key s = ground (arith, apply-Frame op key s, run-Frame ops key (apply op s))

-- The cursor never moves back.
pub run-cursor-le : (ops : List Op) (s : Session) → cursor s ≤ cursor (run ops s)
run-cursor-le ops s = (run-Frame ops "" s).le

claim_leaves_status :
    (s : Session) (key : String) (block now_ms : ℕ) (identity : Option Identity)
    → status_of (claim_durable_queue_item s key block now_ms identity).0 key ≢ none
claim_leaves_status s key block now_ms identity = elim (Option-cases (status_of s key)) [
  | inl e ↦ ground (arith, claim_new s key block now_ms identity e)
  | inr (status, e) ↦ ground (arith, claim_seen s key block now_ms identity status e)
]

-- A key is granted once: after a claim of a key, whatever its answer, and any sequence of the
-- store's operations, a claim of the key is refused.
pub claimed_once :
    (s : Session) (key : String) (block now_ms : ℕ) (identity : Option Identity) (ops : List Op)
    (block' now_ms' : ℕ) (identity' : Option Identity)
    → let t = run ops (claim_durable_queue_item s key block now_ms identity).0 in
      (claim_durable_queue_item t key block' now_ms' identity').1.should_process ≡ false
claimed_once s key block now_ms identity ops block' now_ms' identity' =
    elim (Option-cases (status_of (run ops t) key)) [
      | inl e ↦
          absurd ((run-Frame ops key t).seen (claim_leaves_status s key block now_ms identity) e)
      | inr (status, e) ↦ (claim_seen (run ops t) key block' now_ms' identity' status e).0
    ]
  where
    t : Session
    t = (claim_durable_queue_item s key block now_ms identity).0

not_quarantined :
    (m : Map Status) (key : String) → count_quarantined m ≡ 0 → Map.get m key ≢ some quarantined
unfolding count_quarantined Map.get
not_quarantined [] key h e = cc
not_quarantined ((k, processing) ∷ m) key h e = ground (arith, not_quarantined m key)
not_quarantined ((k, completed) ∷ m) key h e = ground (arith, not_quarantined m key)
not_quarantined ((k, quarantined) ∷ m) key h e = absurd (omega arith)

-- A store that passes the health check holds no quarantined item.
pub healthy-not_quarantined :
    (s : Session) (key : String)
    → IsWellFormed s
    → assert_healthy s.store ≡ ok tt
    → status_of s key ≢ some quarantined
unfolding assert_healthy
healthy-not_quarantined s key h e = not_quarantined s.store.queue_item_status key (ground arith)
