-- ===== src/Relayer/CursorState/Claim.antt =====
-- Claiming a queue item, and closing the claim as completed or quarantined.
pub mod Laws
use anti_soon.Prelude.{
  ℕ, String, Bool, true, false, ◌&&◌, Option, none, some, [], ◌∷◌, ◌==◌, if◌then◌else◌,
}
use anti_soon.Prelude.Map
use anti_soon.Prelude.Map.{Map}
use anti_soon.Relayer.Idempotency.{
  Status, completed, Decision, claim_slot, mark_completed, mark_quarantined,
}
use anti_soon.Relayer.CursorState.State.{
  CursorStore, Session, persist_store, recompute_quarantined_count,
}

pub record Identity : Type 0 where
  pub submission_id : ℕ
  pub project_id : ℕ

-- the two writes under `if (identity)`
record_identity : Option Identity → String → CursorStore → CursorStore
record_identity none key store = store
record_identity (some identity) key store = record store {
  queue_item_submission_id = Map.set store.queue_item_submission_id key identity.submission_id;
  queue_item_project_id = Map.set store.queue_item_project_id key identity.project_id;
}

unfoldable pub claim_durable_queue_item :
    Session → String → ℕ → ℕ → Option Identity → Session × Decision
unfolding claim_slot record_identity recompute_quarantined_count persist_store
claim_durable_queue_item s key block_number now_ms identity =
    let (status, decision) = claim_slot s.store.queue_item_status key in
    let claimed = record (s.store) {
      queue_item_status = status;
      queue_item_block_number = Map.set s.store.queue_item_block_number key block_number;
      queue_item_updated_at_ms = Map.set s.store.queue_item_updated_at_ms key now_ms;
    } in
    if decision.should_process
    then (
      persist_store
          (record s { store = recompute_quarantined_count (record_identity identity key claimed) }),
      decision,
    )
    else (record s { store = record (s.store) { queue_item_status = status } }, decision)

unfoldable pub mark_durable_queue_item_completed : Session → String → ℕ → Session
unfolding mark_completed recompute_quarantined_count persist_store
mark_durable_queue_item_completed s key now_ms = persist_store (record s {
  store = recompute_quarantined_count (record (s.store) {
    queue_item_status = mark_completed s.store.queue_item_status key;
    queue_item_updated_at_ms = Map.set s.store.queue_item_updated_at_ms key now_ms;
  });
})

unfoldable pub mark_durable_queue_item_quarantined : Session → String → ℕ → Session
unfolding mark_quarantined recompute_quarantined_count persist_store
mark_durable_queue_item_quarantined s key now_ms = persist_store (record s {
  store = recompute_quarantined_count (record (s.store) {
    queue_item_status = mark_quarantined s.store.queue_item_status key;
    queue_item_updated_at_ms = Map.set s.store.queue_item_updated_at_ms key now_ms;
  });
})

-- `map.get(key) === value`
abbrev pub get_is : Map ℕ → String → ℕ → Bool
get_is m key n = elim (Map.get m key) [ none ↦ false | some v ↦ v == n ]

-- the loop of `has_durable_completed_submission`
completed_among : CursorStore → ℕ → ℕ → Map Status → Bool
completed_among store submission_id project_id [] = false
completed_among store submission_id project_id ((key, completed) ∷ m) =
    if get_is store.queue_item_submission_id key submission_id
      && get_is store.queue_item_project_id key project_id
    then true
    else completed_among store submission_id project_id m
completed_among store submission_id project_id ((key, _) ∷ m) =
    completed_among store submission_id project_id m

unfoldable pub has_durable_completed_submission : CursorStore → ℕ → ℕ → Bool
unfolding completed_among
has_durable_completed_submission store submission_id project_id =
    completed_among store submission_id project_id store.queue_item_status
