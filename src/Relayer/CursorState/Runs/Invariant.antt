-- ===== src/Relayer/CursorState/Runs/Invariant.antt =====
-- What holds of the store between any two operations.
use anti_soon.Prelude.{ℕ, String, ◌≡◌, true, Option, none, some, List, [], ◌∷◌, arith}
use anti_soon.Relayer.CursorState.State.{CursorStore, Session, count_quarantined}
use anti_soon.Relayer.CursorState.Pending.{
  upsert_durable_pending_queue_item, upsert_durable_pending_committed_candidate,
  remove_durable_pending_queue_item, remove_durable_pending_committed_candidate,
}
use anti_soon.Relayer.CursorState.Pending.Upsert.{upsert_pending-IsDistinct}
use anti_soon.Relayer.CursorState.Pending.Invariant.{IsDistinct, delete-IsDistinct}
use anti_soon.Relayer.CursorState.Claim.{
  Identity, claim_durable_queue_item, mark_durable_queue_item_completed,
  mark_durable_queue_item_quarantined,
}
use anti_soon.Relayer.CursorState.Cursor.{advance_durable_cursor}
use anti_soon.Relayer.CursorState.Runs.{
  Op, claim, complete, quarantine, advance, upsert_queue_item, upsert_candidate, remove_queue_item,
  remove_candidate, apply, run, IsAdmissible, AreAdmissible,
}

-- The last thing that was saved.
abbrev pub last_saved : List CursorStore → Option CursorStore
last_saved [] = none
last_saved (s ∷ _) = some s

pub record IsWellFormed (s : Session) : Type 0 where
  pub counted : s.store.quarantined_item_count ≡ count_quarantined s.store.queue_item_status
  pub queue_distinct : IsDistinct s.store.pending_queue_items
  pub candidates_distinct : IsDistinct s.store.pending_committed_candidates
  pub durable : s.store.persist ≡ true → last_saved s.saved ≡ some s.store

claim-IsWellFormed :
    (key : String) (block now_ms : ℕ) (identity : Option Identity) (s : Session)
    → IsWellFormed s
    → IsWellFormed (claim_durable_queue_item s key block now_ms identity).0
unfolding claim_durable_queue_item
claim-IsWellFormed key block now_ms identity s h = ground arith

advance-IsWellFormed :
    (next now_ms : ℕ) (s : Session)
    → IsWellFormed s
    → IsWellFormed (advance_durable_cursor s next now_ms).1
unfolding advance_durable_cursor
advance-IsWellFormed next now_ms s h = ground arith

pub apply-IsWellFormed :
    (op : Op) (s : Session) → IsAdmissible op s → IsWellFormed s → IsWellFormed (apply op s)
unfolding apply
apply-IsWellFormed (claim key block now_ms identity) s a h =
    claim-IsWellFormed key block now_ms identity s h
apply-IsWellFormed (complete key now_ms) s a h =
    unfold mark_durable_queue_item_completed in ground arith
apply-IsWellFormed (quarantine key now_ms) s a h =
    unfold mark_durable_queue_item_quarantined in ground arith
apply-IsWellFormed (advance next now_ms) s a h = advance-IsWellFormed next now_ms s h
apply-IsWellFormed (upsert_queue_item item now_ms) s a h =
    unfold upsert_durable_pending_queue_item in
    ground
      (arith, upsert_pending-IsDistinct s.store.pending_queue_items item now_ms h.queue_distinct a)
apply-IsWellFormed (upsert_candidate item now_ms) s a h =
    unfold upsert_durable_pending_committed_candidate in
    ground (
      arith,
      upsert_pending-IsDistinct s.store.pending_committed_candidates item now_ms
          h.candidates_distinct a,
    )
apply-IsWellFormed (remove_queue_item key) s a h =
    unfold remove_durable_pending_queue_item in
    ground (arith, delete-IsDistinct s.store.pending_queue_items key h.queue_distinct)
apply-IsWellFormed (remove_candidate key) s a h =
    unfold remove_durable_pending_committed_candidate in
    ground (arith, delete-IsDistinct s.store.pending_committed_candidates key h.candidates_distinct)

-- Admissible sequences of operations keep the store well formed: the quarantine counter is exact,
-- the pending maps hold each submission once under its own key, and with persistence on the last
-- saved store is the current one.
pub run-IsWellFormed :
    (ops : List Op) (s : Session) → AreAdmissible ops s → IsWellFormed s → IsWellFormed (run ops s)
unfolding run
run-IsWellFormed [] s a h = h
run-IsWellFormed (op ∷ ops) s a h =
    run-IsWellFormed ops (apply op s) a.1 (apply-IsWellFormed op s a.0 h)
