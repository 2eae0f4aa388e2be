-- ===== src/Relayer/Unique/Outcome.antt =====
-- What a scan of the committed candidates selects when it returns.
use anti_soon.Prelude.{ℕ, ◌≡◌, List, [], ◌++◌, All}
use anti_soon.Prelude.Sort.{IsComparator}
use anti_soon.Prelude.Pairwise.{Pairwise}
use anti_soon.Relayer.CursorState.{PendingItem, CursorStore}
use anti_soon.Relayer.CursorState.Pending.{list_durable_pending_committed_candidates}
use anti_soon.Relayer.CursorState.Pending.Listing.{Comes}
use anti_soon.Relayer.Keys.{Platform}
use anti_soon.Relayer.RunPlan.{RunOnceConfig, RunOncePlan}
use anti_soon.Relayer.Scan.{World}
use anti_soon.Relayer.Unique
use anti_soon.Relayer.Unique.Firsts.{View, Picks}
use anti_soon.Relayer.Unique.Considered.{IsAmong, ids_of, Pends}

module _ {E : Type 0} {runtime : Unique.CandidateRuntime E} (view : View runtime)
    (platform : Platform) (config : RunOnceConfig) (plan : RunOncePlan) (now_ms : ℕ) where
  abbrev Waits : List PendingItem → World E → Type 0
  Waits = Pends view platform config plan now_ms

  -- what the loop over the items `rest` adds to the selection
  abbrev Adds : List ℕ → List PendingItem → Unique.Selection → Unique.Selection → Type 0
  Adds before rest acc acc' =
      (picked : List ℕ) × Picks view before (ids_of rest) picked
      × (acc'.selected_candidate_submission_ids ≡ acc.selected_candidate_submission_ids ++ picked)

  module _ (laws : IsComparator platform.locale_compare) where
    -- What a scan returns: in the order of the chain it selected, of the candidates that were pending,
    -- the first open one of each project, and nothing is pending that it did not consider.
    pub record IsSelection (r : Unique.ScannerResult) : Type 0 where
      pub items : List PendingItem
      pub in_order : Pairwise (Comes platform.locale_compare laws) items
      pub selected : Picks view [] (ids_of items) r.selected_candidate_submission_ids
      pub considered : All (λ x. IsAmong x items) r.pending_committed_candidates

    abbrev listed : CursorStore → List PendingItem
    listed = list_durable_pending_committed_candidates platform.locale_compare
