-- ===== src/Relayer/CursorState/Runs/Fence.antt =====
-- The cursor never passes a claimed item that is not completed.
use anti_soon.Prelude.{
  ℕ, ◌<◌, String, ◌≡◌, ◌≢◌, ◌⊎◌, some, List, [], ◌∷◌, arith, refl, All, ap, ◌∙◌, eq_iff,
}
use anti_soon.Prelude.Map
use anti_soon.Prelude.Map.{Map}
use anti_soon.Relayer.Idempotency.{Status, processing, completed, quarantined}
use anti_soon.Relayer.CursorState.State.{CursorStore, Session, StoreError}
use anti_soon.Prelude.{Result, ok, err}
use anti_soon.Relayer.CursorState.Pending.{
  upsert_durable_pending_queue_item, upsert_durable_pending_committed_candidate,
  remove_durable_pending_queue_item, remove_durable_pending_committed_candidate,
}
use anti_soon.Relayer.CursorState.Claim.{
  claim_durable_queue_item, mark_durable_queue_item_completed, mark_durable_queue_item_quarantined,
}
use anti_soon.Relayer.CursorState.Cursor.{block_of, advance_durable_cursor}
use anti_soon.Relayer.CursorState.Cursor.Laws.{IsResolved, advance_ok, advance_effect}
use anti_soon.Relayer.CursorState.Runs.{
  Op, claim, complete, quarantine, advance, upsert_queue_item, upsert_candidate, remove_queue_item,
  remove_candidate, apply, run,
}
use anti_soon.Relayer.CursorState.Runs.Progress.{cursor, status_of}

resolved_at :
    (store : CursorStore) (next : ℕ) (m : Map Status) (key : String) (status : Status)
    → IsResolved store next m
    → Map.get m key ≡ some status
    → status ≢ completed
    → next < block_of store key
unfolding Map.get
resolved_at store next [] key status h e n = cc
resolved_at store next ((k, x) ∷ m) key status h e n =
    ground (arith, eq_iff k key, resolved_at store next m key status h.1)

-- A claimed item at a block above the cursor that is not completed.
pub record Holds (key : String) (block : ℕ) (s : Session) : Type 0 where
  pub open_status : (status_of s key ≡ some processing) ⊎ (status_of s key ≡ some quarantined)
  pub at_block : Map.get s.store.queue_item_block_number key ≡ some block
  pub below : cursor s < block

-- Not the completion of the item `key`.
abbrev pub Spares : String → Op → Type 0
Spares key (complete k _) = k ≢ key
Spares key _ = Unit

advance-Holds :
    (next now_ms : ℕ) (key : String) (block : ℕ) (s : Session)
    → Holds key block s
    → Holds key block (advance_durable_cursor s next now_ms).1
advance-Holds next now_ms key block s h = go (advance_durable_cursor s next now_ms).0 refl
  where
    effect :
        let (r, t) = advance_durable_cursor s next now_ms in
        ((e : StoreError) → r ≡ err e → t ≡ s)
        × ((n : ℕ)
            → r ≡ ok n
            → (n ≡ next)
              × (t.store ≡ record (s.store) {
                cursor_last_finalized_block = next;
                cursor_updated_at_ms = now_ms;
              }))
    effect = advance_effect s next now_ms

    go :
        (r : Result StoreError ℕ)
        → (advance_durable_cursor s next now_ms).0 ≡ r
        → Holds key block (advance_durable_cursor s next now_ms).1
    go (err e) p = rw (effect.0 e p) h
    go (ok n) p =
        let moved = effect.1 n p in
        let clear = ((advance_ok s next now_ms).0 (p ∙ ap ok moved.0)).1 in
        ground (
          arith,
          moved.1,
          resolved_at s.store next s.store.queue_item_status key processing clear,
          resolved_at s.store next s.store.queue_item_status key quarantined clear,
        )

apply-Holds :
    (op : Op) (key : String) (block : ℕ) (s : Session)
    → Spares key op
    → Holds key block s
    → Holds key block (apply op s)
unfolding apply
apply-Holds (claim k b now_ms identity) key block s a h =
    unfold claim_durable_queue_item in
    ground (
      arith,
      Map.get-set s.store.queue_item_status k key processing,
      Map.get-set s.store.queue_item_block_number k key b,
      eq_iff k key,
    )
apply-Holds (complete k now_ms) key block s a h =
    unfold mark_durable_queue_item_completed in
    ground (arith, Map.get-set s.store.queue_item_status k key completed, eq_iff k key)
apply-Holds (quarantine k now_ms) key block s a h =
    unfold mark_durable_queue_item_quarantined in
    ground (arith, Map.get-set s.store.queue_item_status k key quarantined, eq_iff k key)
apply-Holds (advance next now_ms) key block s a h = advance-Holds next now_ms key block s h
apply-Holds (upsert_queue_item item now_ms) key block s a h =
    unfold upsert_durable_pending_queue_item in ground arith
apply-Holds (upsert_candidate item now_ms) key block s a h =
    unfold upsert_durable_pending_committed_candidate in ground arith
apply-Holds (remove_queue_item k) key block s a h =
    unfold remove_durable_pending_queue_item in ground arith
apply-Holds (remove_candidate k) key block s a h =
    unfold remove_durable_pending_committed_candidate in ground arith

-- While an item is claimed at a block above the cursor and nothing completes it, no sequence of the
-- store's operations moves the cursor up to its block, and the item stays processing or
-- quarantined.
pub cursor_fenced :
    (ops : List Op) (key : String) (block : ℕ) (s : Session)
    → All (Spares key) ops
    → Holds key block s
    → Holds key block (run ops s)
unfolding run
cursor_fenced [] key block s a h = h
cursor_fenced (op ∷ ops) key block s a h =
    cursor_fenced ops key block (apply op s) a.1 (apply-Holds op key block s a.0 h)
