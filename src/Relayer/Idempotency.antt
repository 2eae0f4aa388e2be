-- ===== src/Relayer/Idempotency.antt =====
-- workflow/auto-reveal-relayer/idempotency.ts: the status of a queue item, and who may process it.
use anti_soon.Prelude.{String, Bool, true, false, Option, none, some}
use anti_soon.Prelude.Map
use anti_soon.Prelude.Map.{Map}

pub data Status : Type 0 where
  processing completed quarantined : Status

pub data Reason : Type 0 where
  first_seen in_flight already_completed is_quarantined : Reason

pub record Decision : Type 0 where
  pub should_process : Bool
  pub reason : Reason

-- the tests of `claim_slot` on the current status
claim_at : Option Status → Map Status → String → Map Status × Decision
claim_at (some processing) m key = (m, record { should_process = false; reason = in_flight })
claim_at (some completed) m key = (m, record { should_process = false; reason = already_completed })
claim_at (some quarantined) m key = (m, record { should_process = false; reason = is_quarantined })
claim_at none m key =
    (Map.set m key processing, record { should_process = true; reason = first_seen })

unfoldable pub claim_slot : Map Status → String → Map Status × Decision
unfolding claim_at
claim_slot state_by_key key = claim_at (Map.get state_by_key key) state_by_key key

unfoldable pub mark_completed : Map Status → String → Map Status
mark_completed state_by_key key = Map.set state_by_key key completed

unfoldable pub mark_quarantined : Map Status → String → Map Status
mark_quarantined state_by_key key = Map.set state_by_key key quarantined
