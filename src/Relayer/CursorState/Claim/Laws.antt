-- ===== src/Relayer/CursorState/Claim/Laws.antt =====
-- Who may process a queue item.
use anti_soon.Prelude.{
  ℕ, String, ◌≡◌, ◌≢◌, ◌↔◌, Bool-cases, inl, inr, ◌&&◌, true, false, Option, none, some, [], ◌∷◌,
  arith, eq_iff, refl,
}
use mathlib.Core.List.{Memᴰ}
use anti_soon.Prelude.Map
use anti_soon.Prelude.Map.{Map}
use anti_soon.Relayer.Idempotency.{Status, processing, completed, quarantined}
use anti_soon.Relayer.CursorState.State.{CursorStore, Session}
use anti_soon.Relayer.CursorState.Claim.{
  Identity, claim_durable_queue_item, completed_among, get_is, has_durable_completed_submission,
}

module _ (s : Session) (key : String) (block now_ms : ℕ) (identity : Option Identity) where
  -- A key that the store has seen, in whatever state, is refused, and nothing changes or is saved.
  pub claim_seen :
      (status : Status)
      → Map.get s.store.queue_item_status key ≡ some status
      → ((claim_durable_queue_item s key block now_ms identity).1.should_process ≡ false)
        × ((claim_durable_queue_item s key block now_ms identity).0 ≡ s)
  unfolding claim_durable_queue_item
  claim_seen status e = ground arith

  pub claim_new :
      Map.get s.store.queue_item_status key ≡ none
      → let (t, decision) = claim_durable_queue_item s key block now_ms identity in
        (decision.should_process ≡ true)
        × (Map.get t.store.queue_item_status key ≡ some processing)
        × (Map.get t.store.queue_item_block_number key ≡ some block)
        × ((j : String)
            → j ≢ key
            → Map.get t.store.queue_item_status j ≡ Map.get s.store.queue_item_status j)
  unfolding claim_durable_queue_item
  claim_new e = (
    ground arith,
    ground (arith, Map.get-set s.store.queue_item_status key key processing, eq_iff key key),
    ground (arith, Map.get-set s.store.queue_item_block_number key key block, eq_iff key key),
    λ j ne. ground (arith, Map.get-set s.store.queue_item_status key j processing, eq_iff key j),
  )

module _ (store : CursorStore) (submission_id project_id : ℕ) where
  -- An entry that records the submission as completed.
  abbrev IsCompletion : Map Status → Type 0
  IsCompletion m =
      (key : String) × Memᴰ (key, completed) m
      × (Map.get store.queue_item_submission_id key ≡ some submission_id)
      × (Map.get store.queue_item_project_id key ≡ some project_id)

  IsCompletion-later :
      (e : String × Status) (m : Map Status) → IsCompletion m → IsCompletion (e ∷ m)
  IsCompletion-later e m (key, mem, s, p) = (key, Memᴰ.tail mem, s, p)

  IsCompletion-found :
      (m : Map Status) → completed_among store submission_id project_id m ≡ true → IsCompletion m
  unfolding completed_among
  IsCompletion-found [] h = cc
  IsCompletion-found ((key, completed) ∷ m) h =
      elim (Bool-cases (
        get_is store.queue_item_submission_id key submission_id
        && get_is store.queue_item_project_id key project_id)) [
          | inl e ↦ (key, Memᴰ.head refl, ground arith, ground arith)
          | inr e ↦ IsCompletion-later (key, completed) m (IsCompletion-found m (ground arith))
        ]
  IsCompletion-found ((key, processing) ∷ m) h =
      IsCompletion-later (key, processing) m (IsCompletion-found m h)
  IsCompletion-found ((key, quarantined) ∷ m) h =
      IsCompletion-later (key, quarantined) m (IsCompletion-found m h)

  completed_among-true :
      (m : Map Status) (key : String)
      → Memᴰ (key, completed) m
      → Map.get store.queue_item_submission_id key ≡ some submission_id
      → Map.get store.queue_item_project_id key ≡ some project_id
      → completed_among store submission_id project_id m ≡ true
  unfolding completed_among
  completed_among-true [] key mem s p = elim mem [ ]
  completed_among-true ((j, completed) ∷ m) key (Memᴰ.head e) s p = ground arith
  completed_among-true ((j, processing) ∷ m) key (Memᴰ.head e) s p = ground arith
  completed_among-true ((j, quarantined) ∷ m) key (Memᴰ.head e) s p = ground arith
  completed_among-true ((j, completed) ∷ m) key (Memᴰ.tail mem) s p =
      ground (arith, completed_among-true m key mem s p)
  completed_among-true ((j, processing) ∷ m) key (Memᴰ.tail mem) s p =
      completed_among-true m key mem s p
  completed_among-true ((j, quarantined) ∷ m) key (Memᴰ.tail mem) s p =
      completed_among-true m key mem s p

  -- A submission counts as completed exactly when some completed item of the store records its
  -- submission and project ids.
  pub has_completed_iff :
      (has_durable_completed_submission store submission_id project_id ≡ true) ↔ (
        (key : String) × Memᴰ (key, completed) store.queue_item_status
        × (Map.get store.queue_item_submission_id key ≡ some submission_id)
        × (Map.get store.queue_item_project_id key ≡ some project_id))
  unfolding has_durable_completed_submission
  has_completed_iff = (
    IsCompletion-found store.queue_item_status,
    λ (key, mem, s, p). completed_among-true store.queue_item_status key mem s p,
  )
