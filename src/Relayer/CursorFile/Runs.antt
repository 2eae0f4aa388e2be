-- ===== src/Relayer/CursorFile/Runs.antt =====
-- Runs of the store, ended by a restart of the process.
use Prim.Native.Nat.{Ordering}
use anti_soon.Prelude.{
  ℕ, ◌≡◌, ◌≢◌, subst, String, true, Option, none, some, List, [], ◌∷◌, ok, eq_iff, arith, All,
}
use anti_soon.Prelude.Map.{Map, get}
use anti_soon.Prelude.Keys.{IsKeyed, set-IsKeyed}
use anti_soon.Prelude.Json.{Disk}
use anti_soon.Relayer.Idempotency.{Status, processing, completed, quarantined, claim_slot}
use anti_soon.Relayer.CursorState.{PendingItem, CursorStore, Session}
use anti_soon.Relayer.CursorState.Claim.{
  claim_durable_queue_item, mark_durable_queue_item_completed, mark_durable_queue_item_quarantined,
}
use anti_soon.Relayer.CursorState.Pending.{
  upsert_durable_pending_queue_item, upsert_durable_pending_committed_candidate,
  remove_durable_pending_queue_item, remove_durable_pending_committed_candidate,
}
use anti_soon.Relayer.CursorState.Pending.Invariant.{IsDistinct}
use anti_soon.Relayer.CursorState.Cursor.{advance_durable_cursor}
use anti_soon.Relayer.CursorState.Runs.{
  Op, claim, complete, quarantine, advance, upsert_queue_item, upsert_candidate, remove_queue_item,
  remove_candidate, apply, run, AreAdmissible,
}
use anti_soon.Relayer.CursorState.Runs.Invariant.{IsWellFormed, last_saved, run-IsWellFormed}
use anti_soon.Relayer.CursorFile.Load.{BigInts, load_cursor_store}
use anti_soon.Relayer.CursorFile.Entries.{ReadsDecimals}
use anti_soon.Relayer.CursorFile.Restored.{IsRestored, IsStored, IsSaved, IsRewritten, HoldsOwnKeys}
use anti_soon.Relayer.CursorFile.Restart.{load_cursor_store-IsRestored}

All-of_get : (m : Map PendingItem) (k : String) → get m k ≡ none → All (λ b. k ≢ b.0) m
unfolding get
All-of_get [] k h = tt
All-of_get ((j, v) ∷ m) k h =
    (λ p. ground (arith, eq_iff j k, p), All-of_get m k (ground (arith, eq_iff j k)))

IsDistinct-IsKeyed : (m : Map PendingItem) → IsDistinct m → IsKeyed m
IsDistinct-IsKeyed [] h = tt
IsDistinct-IsKeyed ((k, item) ∷ m) h = (All-of_get m k h.1, IsDistinct-IsKeyed m h.3)

IsDistinct-HoldsOwnKeys : (m : Map PendingItem) → IsDistinct m → HoldsOwnKeys m
IsDistinct-HoldsOwnKeys [] h = tt
IsDistinct-HoldsOwnKeys ((k, item) ∷ m) h = (h.0, IsDistinct-HoldsOwnKeys m h.3)

-- A store that is written at each change, with each key once.
pub record IsKept (s : Session) : Type 0 where
  pub keyed : IsKeyed s.store.queue_item_status
  pub persists : s.store.persist ≡ true

claim_slot-IsKeyed : (m : Map Status) (key : String) → IsKeyed m → IsKeyed (claim_slot m key).0
unfolding claim_slot
claim_slot-IsKeyed m key h = ground (arith, set-IsKeyed m key processing h)

apply-IsKept : (op : Op) (s : Session) → IsKept s → IsKept (apply op s)
unfolding apply
apply-IsKept (claim key block now_ms identity) s h =
    unfold claim_durable_queue_item in
    ground (arith, claim_slot-IsKeyed s.store.queue_item_status key h.keyed)
apply-IsKept (complete key now_ms) s h =
    unfold mark_durable_queue_item_completed in
    ground (arith, set-IsKeyed s.store.queue_item_status key completed h.keyed)
apply-IsKept (quarantine key now_ms) s h =
    unfold mark_durable_queue_item_quarantined in
    ground (arith, set-IsKeyed s.store.queue_item_status key quarantined h.keyed)
apply-IsKept (advance next now_ms) s h = unfold advance_durable_cursor in ground arith
apply-IsKept (upsert_queue_item item now_ms) s h =
    unfold upsert_durable_pending_queue_item in ground arith
apply-IsKept (upsert_candidate item now_ms) s h =
    unfold upsert_durable_pending_committed_candidate in ground arith
apply-IsKept (remove_queue_item key) s h = unfold remove_durable_pending_queue_item in ground arith
apply-IsKept (remove_candidate key) s h =
    unfold remove_durable_pending_committed_candidate in ground arith

pub run-IsKept : (ops : List Op) (s : Session) → IsKept s → IsKept (run ops s)
unfolding run
run-IsKept [] s h = h
run-IsKept (op ∷ ops) s h = run-IsKept ops (apply op s) (apply-IsKept op s h)

module _ (locale_compare : String → String → Ordering) where
  -- the file holds what was handed to `persist` last
  abbrev pub HoldsLast : Option CursorStore → Disk → Type 0
  HoldsLast none disk = ⊥
  HoldsLast (some t) disk = IsSaved locale_compare t disk

  pub last-IsStored :
      (s : Session) (disk : Disk)
      → IsWellFormed s
      → IsKept s
      → HoldsLast (last_saved s.saved) disk
      → IsStored locale_compare s.store disk
  last-IsStored s disk w k h = record {
    saved = subst (λ o. HoldsLast o disk) (w.durable k.persists) h;
    status_keyed = k.keyed;
    pending_keyed = IsDistinct-IsKeyed s.store.pending_queue_items w.queue_distinct;
    pending_own = IsDistinct-HoldsOwnKeys s.store.pending_queue_items w.queue_distinct;
    candidates_keyed =
        IsDistinct-IsKeyed s.store.pending_committed_candidates w.candidates_distinct;
    candidates_own =
        IsDistinct-HoldsOwnKeys s.store.pending_committed_candidates w.candidates_distinct;
  }

  -- What a restart at a time gives for a store and its file.
  abbrev pub Reloads : BigInts → ℕ → CursorStore → Disk → Type 0
  Reloads numbers now s disk =
      (t : CursorStore) × (disk' : Disk) × (load_cursor_store numbers locale_compare s.file_path now
          disk
        ≡ (ok t, disk'))
      × IsRestored now s t
      × IsRewritten locale_compare t disk disk'

  -- Where a well-formed, persisting store runs through admissible operations and the file holds
  -- what was persisted last, a restart loads the file without an error: the cursor, the pending
  -- items, the completed and the quarantined items are those of the store, the items in progress
  -- are quarantined as of now, the counts are taken anew, and the file is rewritten exactly where
  -- an item was in progress. BigInt is assumed to read the digits that toString writes.
  pub run-Reloads :
      {numbers : BigInts} (decimals : ReadsDecimals numbers) (now : ℕ) (ops : List Op) (s : Session)
      (disk : Disk)
      → AreAdmissible ops s
      → IsWellFormed s
      → IsKept s
      → HoldsLast (last_saved (run ops s).saved) disk
      → Reloads numbers now (run ops s).store disk
  run-Reloads decimals now ops s disk a w k h =
      load_cursor_store-IsRestored locale_compare decimals now (run ops s).store disk
        (last-IsStored (run ops s) disk (run-IsWellFormed ops s a w) (run-IsKept ops s k) h)
