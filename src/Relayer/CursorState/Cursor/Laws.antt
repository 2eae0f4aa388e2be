-- ===== src/Relayer/CursorState/Cursor/Laws.antt =====
-- When the cursor advances.
use anti_soon.Prelude.{ℕ, ◌≤◌, ◌<◌, String, ◌≡◌, ◌↔◌, ◌⊎◌, false, none, [], ◌∷◌, arith, find?, All}
use anti_soon.Prelude.Map.{Map}
use anti_soon.Relayer.Idempotency.{Status, processing, completed, quarantined}
use anti_soon.Relayer.CursorState.State.{CursorStore, Session, StoreError}
use anti_soon.Prelude.{Result, ok, err, if◌then◌else◌, ap, sym, refl, ◌∙◌, inl, inr}
use anti_soon.Relayer.CursorState.Cursor.{block_of, blocks, advance_durable_cursor}

-- Every entry is completed, or lies above the block `next`.
abbrev pub IsResolved : CursorStore → ℕ → Map Status → Type 0
IsResolved store next = All (λ e. (e.1 ≡ completed) ⊎ (next < block_of store e.0))

blocks-cases :
    (store : CursorStore) (next : ℕ) (e : String × Status)
    → (blocks store next e ≡ false) ↔ ((e.1 ≡ completed) ⊎ (next < block_of store e.0))
unfolding blocks
blocks-cases store next (key, processing) = ground arith
blocks-cases store next (key, completed) = ground arith
blocks-cases store next (key, quarantined) = ground arith

find?-IsResolved :
    (store : CursorStore) (next : ℕ) (m : Map Status)
    → (find? (blocks store next) m ≡ none) ↔ IsResolved store next m
find?-IsResolved store next [] = ground arith
find?-IsResolved store next (e ∷ m) =
    ground (arith, blocks-cases store next e, find?-IsResolved store next m)

pub advance_ok :
    (s : Session) (next now_ms : ℕ)
    → ((advance_durable_cursor s next now_ms).0 ≡ ok next) ↔ (
        (s.store.cursor_last_finalized_block ≤ next)
        × IsResolved s.store next s.store.queue_item_status)
unfolding advance_durable_cursor
advance_ok s next now_ms = ground (arith, find?-IsResolved s.store next s.store.queue_item_status)

-- An advance that fails leaves the session as it was; one that succeeds moves only the cursor.
pub advance_effect :
    (s : Session) (next now_ms : ℕ)
    → let (r, t) = advance_durable_cursor s next now_ms in
      ((e : StoreError) → r ≡ err e → t ≡ s)
      × ((n : ℕ)
          → r ≡ ok n
          → (n ≡ next)
            × (t.store ≡ record (s.store) {
              cursor_last_finalized_block = next;
              cursor_updated_at_ms = now_ms;
            }))
unfolding advance_durable_cursor
advance_effect s next now_ms = (λ e h. ground arith, λ n h. ground arith)

-- The session `t` is `s` with the cursor moved, and handed to `persist`.
pub record IsAdvanced (next now_ms : ℕ) (s t : Session) : Type 0 where
  pub moved :
      t.store
      ≡ record (s.store) { cursor_last_finalized_block = next; cursor_updated_at_ms = now_ms }
  pub saved : t.saved ≡ (if s.store.persist then t.store ∷ s.saved else s.saved)

-- The cursor does not move back, and no item that is not completed lies at or below the next block.
abbrev pub IsFree : ℕ → Session → Type 0
IsFree next s =
    (s.store.cursor_last_finalized_block ≤ next) × IsResolved s.store next s.store.queue_item_status

advance-IsAdvanced :
    (s : Session) (next now_ms : ℕ)
    → IsFree next s
    → IsAdvanced next now_ms s (advance_durable_cursor s next now_ms).1
unfolding advance_durable_cursor
advance-IsAdvanced s next now_ms f = record {
  moved = ground (arith, find?-IsResolved s.store next s.store.queue_item_status, f);
  saved = ground (arith, find?-IsResolved s.store next s.store.queue_item_status, f);
}

-- Either the next block is not below the cursor and no item that is not completed lies at or below
-- it: then the advance returns the block, the store changes in its cursor and the time of it alone,
-- and is handed to persist where it persists. Or it is not so: then the advance throws and the
-- session stays as it was.
pub advance_iff :
    (s : Session) (next now_ms : ℕ)
    → let (r, t) = advance_durable_cursor s next now_ms in
      (IsFree next s × (r ≡ ok next) × IsAdvanced next now_ms s t)
      ⊎ ((¬ IsFree next s) × (e : StoreError) × (r ≡ err e) × (t ≡ s))
advance_iff s next now_ms = go (advance_durable_cursor s next now_ms).0 refl
  where
    go :
        (r : Result StoreError ℕ)
        → (advance_durable_cursor s next now_ms).0 ≡ r
        → let t = (advance_durable_cursor s next now_ms).1 in
          (IsFree next s
            × ((advance_durable_cursor s next now_ms).0 ≡ ok next)
            × IsAdvanced next now_ms s t)
          ⊎ ((¬ IsFree next s)
              × (e : StoreError) × ((advance_durable_cursor s next now_ms).0 ≡ err e)
              × (t ≡ s))
    go (err e) p = inr (
      λ f. (let q : ok next ≡ err e = sym ((advance_ok s next now_ms).1 f) ∙ p in cc),
      e,
      p,
      (advance_effect s next now_ms).0 e p,
    )
    go (ok n) p =
        let same = ((advance_effect s next now_ms).1 n p).0 in
        let free = (advance_ok s next now_ms).0 (p ∙ ap ok same) in
        inl (free, p ∙ ap ok same, advance-IsAdvanced s next now_ms free)
