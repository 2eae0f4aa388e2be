-- ===== src/Relayer/CursorState/Pending/Upsert.antt =====
-- What an upsert of a pending item does to the map.
use anti_soon.Prelude.{
  ℕ, suc, String, ◌≡◌, none, some, [], ◌∷◌, arith, eq_iff, refl, inl, inr, sym, ◌∙◌, length,
  Option-cases,
}
use anti_soon.Prelude.Map
use anti_soon.Prelude.Map.{Map}
use anti_soon.Relayer.CursorState.State.{PendingItem}
use anti_soon.Relayer.CursorState.Pending.Items.{
  NewItem, stamp, find_existing, next_item, upsert_pending,
}
use anti_soon.Relayer.CursorState.Pending.Invariant.{
  IsDistinct, item_of, get-item_of, set_old-IsDistinct, set_new-IsDistinct,
}

-- An idempotency key names one submission of one project: the key is a digest of both.
abbrev pub KeyAgrees : Map PendingItem → NewItem → Type 0
KeyAgrees m item =
    (a : PendingItem)
    → Map.get m item.idempotency_key ≡ some a
    → (a.submission_id ≡ item.submission_id) × (a.project_id ≡ item.project_id)

item_of-get :
    (m : Map PendingItem) (k : String) (a : PendingItem)
    → IsDistinct m
    → Map.get m k ≡ some a
    → item_of a.submission_id a.project_id m ≡ some a
unfolding Map.get Map.values item_of
item_of-get [] k a h e = cc
item_of-get ((j, b) ∷ m) k a h e = ground (arith, eq_iff j k, item_of-get m k a h.3)

-- The search by key and then by identity finds the item of the submission.
pub find_existing-item_of :
    (m : Map PendingItem) (item : NewItem)
    → IsDistinct m
    → KeyAgrees m item
    → find_existing m item ≡ item_of item.submission_id item.project_id m
unfolding find_existing
find_existing-item_of m item h agrees = elim (Option-cases (Map.get m item.idempotency_key)) [
  | inl e ↦ rw (e, find_existing) (unfold item_of in refl)
  | inr (a, e) ↦ ground (arith, item_of-get m item.idempotency_key a h e, agrees a e)
]

module _ (m : Map PendingItem) (item : NewItem) (now_ms : ℕ) (h : IsDistinct m)
    (agrees : KeyAgrees m item) where
  -- The entry of a submission that is not pending is new, and was first seen now.
  next-new :
      item_of item.submission_id item.project_id m ≡ none
      → (next_item (find_existing m item) item now_ms ≡ stamp item now_ms now_ms)
        × (Map.get m item.idempotency_key ≡ none)
  unfolding next_item
  next-new e = elim (Option-cases (Map.get m item.idempotency_key)) [
    | inl none_there ↦ (rw (find_existing-item_of m item h agrees, e), none_there)
    | inr (a, there) ↦
        absurd (ground (arith, item_of-get m item.idempotency_key a h there, agrees a there))
  ]

  -- The entry of a submission that is pending keeps its key, its submission and its first sighting.
  next-old :
      (a : PendingItem)
      → item_of item.submission_id item.project_id m ≡ some a
      → let next = next_item (find_existing m item) item now_ms in
        (next.idempotency_key ≡ a.idempotency_key)
        × (next.submission_id ≡ item.submission_id)
        × (next.project_id ≡ item.project_id)
        × (next.first_seen_at_ms ≡ a.first_seen_at_ms)
        × (next.last_evaluated_at_ms ≡ now_ms)
  unfolding next_item
  next-old a e =
      rw (find_existing-item_of m item h agrees, e)
        (ground (
          arith,
          eq_iff a.idempotency_key item.idempotency_key,
          get-item_of m item.submission_id item.project_id a h e,
        ))

  pub upsert_pending-IsDistinct : IsDistinct (upsert_pending m item now_ms).0
  unfolding upsert_pending
  upsert_pending-IsDistinct = elim (Option-cases (item_of item.submission_id item.project_id m)) [
    | inl e ↦
        rw ((next-new e).0) (set_new-IsDistinct m (stamp item now_ms now_ms) h (next-new e).1 e)
    | inr (a, e) ↦ rewrite_old a e
  ]
    where
      next : PendingItem
      next = next_item (find_existing m item) item now_ms

      rewrite_old :
          (a : PendingItem)
          → item_of item.submission_id item.project_id m ≡ some a
          → IsDistinct (Map.set m next.idempotency_key next)
      rewrite_old a e =
          let found = get-item_of m item.submission_id item.project_id a h e in
          let old = next-old a e in
          set_old-IsDistinct m next.idempotency_key a next h (rw old.0 found.0) refl
            (found.1 ∙ sym old.1) (found.2 ∙ sym old.2)

  -- An upsert of a submission that is not pending adds it as it was given, first seen now.
  pub upsert_pending-new :
      item_of item.submission_id item.project_id m ≡ none
      → let (m', next) = upsert_pending m item now_ms in
        (next ≡ stamp item now_ms now_ms)
        × (Map.get m' item.idempotency_key ≡ some next)
        × (length m' ≡ suc (length m))
  unfolding upsert_pending
  upsert_pending-new e =
      let fresh = next-new e in
      (
        fresh.0,
        rw fresh.0 (Map.get-set_self m item.idempotency_key _),
        rw fresh.0 (Map.length-set_new m item.idempotency_key _ fresh.1),
      )
