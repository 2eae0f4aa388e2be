-- ===== src/Verify/Slots.antt =====
-- The idempotency slots of workflow/verify-poc/src/idempotency.ts: who may process a key. A map is
-- changed in place: it is what the operations return, the claim's decision beside it.
pub mod Exclusion
pub mod Kept
use anti_soon.Prelude.{String, Bool, true, false, Option, none, some}
use anti_soon.Prelude.Map
use anti_soon.Prelude.Map.{Map}

pub data Status : Type 0 where
  processing completed quarantined strict_failed : Status

pub data Reason : Type 0 where
  first_seen in_flight already_completed is_quarantined : Reason
  has_strictly_failed reclaimed_quarantined : Reason

pub record Decision : Type 0 where
  pub should_process : Bool
  pub reason : Reason

-- `current === "quarantined"`, by `allowQuarantinedReclaim`
reclaim_at : Bool → Map Status → String → Map Status × Decision
reclaim_at true m key =
    (Map.set m key processing, record { should_process = true; reason = reclaimed_quarantined })
reclaim_at false m key = (m, record { should_process = false; reason = is_quarantined })

claim_at : Option Status → Bool → Map Status → String → Map Status × Decision
unfolding reclaim_at
claim_at (some processing) allow_reclaim m key =
    (m, record { should_process = false; reason = in_flight })
claim_at (some completed) allow_reclaim m key =
    (m, record { should_process = false; reason = already_completed })
claim_at (some quarantined) allow_reclaim m key = reclaim_at allow_reclaim m key
claim_at (some strict_failed) allow_reclaim m key =
    (m, record { should_process = false; reason = has_strictly_failed })
claim_at none allow_reclaim m key =
    (Map.set m key processing, record { should_process = true; reason = first_seen })

unfoldable pub claim_idempotency_slot :
    Map Status → String → (allow_quarantined_reclaim : Bool) → Map Status × Decision
unfolding claim_at
claim_idempotency_slot state_by_key key allow_reclaim =
    claim_at (Map.get state_by_key key) allow_reclaim state_by_key key

unfoldable pub mark_completed : Map Status → String → Map Status
mark_completed state_by_key key = Map.set state_by_key key completed

unfoldable pub mark_quarantined : Map Status → String → Map Status
mark_quarantined state_by_key key = Map.set state_by_key key quarantined

unfoldable pub mark_strict_failed : Map Status → String → Map Status
mark_strict_failed state_by_key key = Map.set state_by_key key strict_failed

release_at : Option Status → Map Status → String → Map Status
release_at (some processing) m key = Map.set m key quarantined
release_at _ m key = m

unfoldable pub release_slot : Map Status → String → Map Status
unfolding release_at
release_slot state_by_key key = release_at (Map.get state_by_key key) state_by_key key
