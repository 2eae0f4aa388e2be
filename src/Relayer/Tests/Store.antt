-- ===== src/Relayer/Tests/Store.antt =====
-- The store's operations.
use anti_soon.Prelude.{
  String, ◌≡◌, refl, eq_iff, inl, arith, ok, err, none, some, List, [], ◌∷◌, true, false, ◌↔◌, ◌⊎◌,
  All,
}
use anti_soon.Prelude.Map
use mathlib.Core.List.{Memᴰ}
use anti_soon.Relayer.Idempotency.{completed}
use anti_soon.Relayer.CursorState.{PendingItem, StoreError, create_cursor_store, count_quarantined}
use anti_soon.Relayer.CursorState.Pending.{
  stamp, upsert_pending, find_existing, next_item, upsert_durable_pending_queue_item,
}
use anti_soon.Relayer.CursorState.Claim.{claim_durable_queue_item, has_durable_completed_submission}
use anti_soon.Relayer.CursorState.Claim.Laws.{has_completed_iff}
use anti_soon.Relayer.CursorState.Cursor.{advance_durable_cursor}
use anti_soon.Relayer.CursorState.Cursor.Laws.{IsFree, IsAdvanced, advance_iff}
use anti_soon.Relayer.CursorState.Runs.{
  AreAdmissible, Op, claim, complete, quarantine, advance, upsert_queue_item, apply, run,
}
use anti_soon.Relayer.CursorState.Runs.Invariant.{IsWellFormed, run-IsWellFormed}
use anti_soon.Relayer.CursorState.Runs.Progress.{claimed_once}
use anti_soon.Relayer.CursorState.Runs.Fence.{Holds, Spares, cursor_fenced}
use anti_soon.Relayer.Tests.Fixtures.{empty_session, claimed_session, some_item}

abbrev some_ops : List Op
some_ops =
    advance 9 200
    ∷ quarantine "a" 210
    ∷ claim "b" 8 220 none
    ∷ complete "b" 230
    ∷ advance 5 240
    ∷ []

claimed-Holds : Holds "a" 7 claimed_session
unfolding claim_durable_queue_item create_cursor_store Map.get Map.set
claimed-Holds = record { open_status = inl refl; at_block = refl; below = omega arith }

spared : All (Spares "a") some_ops
spared = (tt, (tt, (tt, (λ e. ground (arith, eq_iff "b" "a"), (tt, tt)))))

cursor_fenced_example : Holds "a" 7 (run some_ops claimed_session)
cursor_fenced_example = cursor_fenced some_ops "a" 7 claimed_session spared claimed-Holds

claimed_once_example :
    let t = run some_ops claimed_session in
    (claim_durable_queue_item t "a" 9 300 none).1.should_process ≡ false
claimed_once_example =
    claimed_once empty_session "a" 7 100 (some (record { submission_id = 4; project_id = 2 }))
      some_ops 9 300 none

pub empty-IsWellFormed : IsWellFormed (record empty_session { saved = empty_session.store ∷ [] })
unfolding create_cursor_store count_quarantined
empty-IsWellFormed = record {
  counted = refl;
  queue_distinct = tt;
  candidates_distinct = tt;
  durable = λ e. refl;
}

abbrev pub upserts : List Op
upserts =
    upsert_queue_item some_item 300
    ∷ upsert_queue_item (record some_item { idempotency_key = "b"; block_number = 9 }) 310
    ∷ quarantine "a" 320
    ∷ []

pub upserts-AreAdmissible :
    AreAdmissible upserts (record empty_session { saved = empty_session.store ∷ [] })
unfolding apply upsert_durable_pending_queue_item upsert_pending find_existing next_item Map.get
    Map.set Map.values create_cursor_store
upserts-AreAdmissible = (λ a e. cc, (λ a e. cc, (tt, tt)))

run-IsWellFormed_example :
    IsWellFormed (run upserts (record empty_session { saved = empty_session.store ∷ [] }))
run-IsWellFormed_example =
    run-IsWellFormed upserts (record empty_session { saved = empty_session.store ∷ [] })
      upserts-AreAdmissible empty-IsWellFormed

advance_iff_example :
    let (r, t) = advance_durable_cursor claimed_session 6 200 in
    (IsFree 6 claimed_session × (r ≡ ok 6) × IsAdvanced 6 200 claimed_session t)
    ⊎ ((¬ IsFree 6 claimed_session) × (e : StoreError) × (r ≡ err e) × (t ≡ claimed_session))
advance_iff_example = advance_iff claimed_session 6 200

has_completed_iff_example : (has_durable_completed_submission claimed_session.store 4 2 ≡ true) ↔ (
    (key : String) × Memᴰ (key, completed) claimed_session.store.queue_item_status
    × (Map.get claimed_session.store.queue_item_submission_id key ≡ some 4)
    × (Map.get claimed_session.store.queue_item_project_id key ≡ some 2))
has_completed_iff_example = has_completed_iff claimed_session.store 4 2

abbrev pending_one : Map.Map PendingItem
pending_one = (some_item.idempotency_key, stamp some_item 50 60) ∷ []
