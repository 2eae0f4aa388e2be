-- ===== src/Relayer/Unique/Considered.antt =====
-- What the verdict on one pending candidate changes.
use anti_soon.Prelude.{
  ℕ, String, ◌≡◌, ◌⊎◌, inl, inr, refl, Bool, List, [], ◌∷◌, ◌++◌, All, All-imp, arith,
  if◌then◌else◌,
}
use anti_soon.Prelude.Map
use anti_soon.Prelude.Map.{Map}
use anti_soon.Relayer.CursorState.{PendingItem, Session}
use anti_soon.Relayer.CursorState.Pending.{remove_durable_pending_committed_candidate}
use anti_soon.Relayer.Keys.{Platform}
use anti_soon.Relayer.RunPlan.{RunOnceConfig, RunOncePlan}
use anti_soon.Relayer.Scan.{World}
use anti_soon.Relayer.Scan.Triple.{
  Ends, bind-Ends, then-Ends, and-Ends, pure-Ends, ask-Ends, modify-Ends, Anyhow,
}
use anti_soon.Relayer.Unique
use anti_soon.Prelude.Set.{contains}
use anti_soon.Relayer.Unique.Judge.{
  SubmissionSnapshot, ProjectSnapshot, RevealStateSnapshot, Verdict, skip, select, judge,
}
use anti_soon.Relayer.Unique.Firsts.{
  View, IsFirst, Knows, verdict, select-IsFirst, select-Knows, skip-closed, skip-Knows,
}

-- the item is one of the list
abbrev pub IsAmong : PendingItem → List PendingItem → Type 0
IsAmong x [] = ⊥
IsAmong x (y ∷ ys) = (x ≡ y) ⊎ IsAmong x ys

pub All-IsAmong : (xs : List PendingItem) → All (λ x. IsAmong x xs) xs
All-IsAmong [] = tt
All-IsAmong (x ∷ xs) = (inl refl, All-imp (λ y h. inr h) xs (All-IsAmong xs))

abbrev pub HoldsOnly : List PendingItem → Map PendingItem → Type 0
HoldsOnly items m = All (λ x. IsAmong x items) (Map.values m)

HoldsOnly-delete :
    (items : List PendingItem) (m : Map PendingItem) (k : String)
    → HoldsOnly items m
    → HoldsOnly items (Map.delete m k)
unfolding Map.values Map.delete
HoldsOnly-delete items [] k h = tt
HoldsOnly-delete items ((j, x) ∷ m) k h = ground (arith, HoldsOnly-delete items m k h.1)

abbrev pub ids_of : List PendingItem → List ℕ
ids_of [] = []
ids_of (x ∷ xs) = x.submission_id ∷ ids_of xs

module _ {E : Type 0} {runtime : Unique.CandidateRuntime E} (view : View runtime)
    (platform : Platform) (config : RunOnceConfig) (plan : RunOncePlan) (now_ms : ℕ) where
  -- no candidate is pending but the items
  abbrev pub Pends : List PendingItem → World E → Type 0
  Pends items w = HoldsOnly items w.session.store.pending_committed_candidates

  -- what the verdict on a submission changes
  abbrev pub Chose : List ℕ → ℕ → Unique.Selection → Unique.Selection → Type 0
  Chose before id acc acc' =
      (IsFirst view before id
        × (acc'.selected_candidate_submission_ids
            ≡ acc.selected_candidate_submission_ids ++ id ∷ [])
        × Knows view (id ∷ before) acc'.selected_project_ids)
      ⊎ ((¬ IsFirst view before id)
          × (acc'.selected_candidate_submission_ids ≡ acc.selected_candidate_submission_ids)
          × Knows view (id ∷ before) acc'.selected_project_ids)

  remove-Pends :
      (items : List PendingItem) (key : String) (terminal : Bool) (s : Session)
      → HoldsOnly items s.store.pending_committed_candidates
      → HoldsOnly items
          (if terminal
            then remove_durable_pending_committed_candidate s key
            else s).store.pending_committed_candidates
  unfolding remove_durable_pending_committed_candidate
  remove-Pends items key terminal s h =
      ground (arith, HoldsOnly-delete items s.store.pending_committed_candidates key h)

  settle_item-Ends :
      (items : List PendingItem) (item : PendingItem) (before : List ℕ) (acc : Unique.Selection)
      (v : Verdict)
      → Knows view before acc.selected_project_ids
      → verdict view item.submission_id acc.selected_project_ids ≡ v
      → Ends {E = E} Anyhow
          (Pends items)
          (λ acc' w. Chose before item.submission_id acc acc' × Pends items w)
          (Unique.settle_item platform config plan runtime now_ms item
            (view.submission item.submission_id).project_id
            acc
            v)
  unfolding Unique.settle_item
  settle_item-Ends items item before acc (skip reason terminal) k e =
      let closed =
        skip-closed view item.submission_id before acc.selected_project_ids reason terminal k e in
      then-Ends Anyhow
        (modify-Ends Anyhow (Pends items) {after = Pends items} _
          (λ w h. remove-Pends items item.idempotency_key terminal w.session h))
        (pure-Ends Anyhow (Pends items) _ (λ w h. (
          inr (
            closed,
            refl,
            skip-Knows view item.submission_id before acc.selected_project_ids k closed,
          ),
          h,
        )))
  settle_item-Ends items item before acc select k e =
      let first = select-IsFirst view item.submission_id before acc.selected_project_ids k e in
      pure-Ends Anyhow (Pends items) _ (λ w h. (
        inl (
          first,
          refl,
          select-Knows view item.submission_id before acc.selected_project_ids k first.0,
        ),
        h,
      ))

  -- with what the reads gave
  judged-Ends :
      (items : List PendingItem) (item : PendingItem) (before : List ℕ) (acc : Unique.Selection)
      (submission : SubmissionSnapshot) (project : ProjectSnapshot) (state : RevealStateSnapshot)
      → Knows view before acc.selected_project_ids
      → submission ≡ view.submission item.submission_id
      → project ≡ view.project submission.project_id
      → state ≡ view.state submission.project_id
      → Ends {E = E} Anyhow
          (Pends items)
          (λ acc' w. Chose before item.submission_id acc acc' × Pends items w)
          (Unique.settle_item platform config plan runtime now_ms item submission.project_id acc (
            judge project state submission
              (contains submission.project_id acc.selected_project_ids)))
  judged-Ends items item before acc submission project state k p q r =
      rw (q, r, p) (settle_item-Ends items item before acc _ k refl)

  pub consider_item-Ends :
      (items : List PendingItem) (item : PendingItem) (before : List ℕ) (acc : Unique.Selection)
      → Knows view before acc.selected_project_ids
      → Ends Anyhow
          (Pends items)
          (λ acc' w. Chose before item.submission_id acc acc' × Pends items w)
          (Unique.consider_item platform config plan runtime now_ms item acc)
  unfolding Unique.consider_item
  consider_item-Ends items item before acc k =
      let id = item.submission_id in
      bind-Ends Anyhow
        (ask-Ends Anyhow (Pends items) {after = λ s w. (s ≡ view.submission id) × Pends items w}
          (runtime.read_submission id) (λ w s e h. (view.reads_submission id w.env s e, h))
          (λ w t h. tt))
        (λ submission. and-Ends Anyhow (λ p.
          bind-Ends Anyhow
            (ask-Ends Anyhow (Pends items)
              {after = λ s w. (s ≡ view.project submission.project_id) × Pends items w}
              (runtime.read_project submission.project_id)
              (λ w s e h. (view.reads_project submission.project_id w.env s e, h)) (λ w t h. tt))
            (λ project. and-Ends Anyhow (λ q.
              bind-Ends Anyhow
                (ask-Ends Anyhow (Pends items)
                  {after = λ s w. (s ≡ view.state submission.project_id) × Pends items w}
                  (runtime.read_unique_reveal_state submission.project_id)
                  (λ w s e h. (view.reads_state submission.project_id w.env s e, h)) (λ w t h. tt))
                (λ state.
                  and-Ends Anyhow
                    (λ r. judged-Ends items item before acc submission project state k p q r))))))
