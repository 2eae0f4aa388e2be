-- ===== src/Verify/SyncState.antt =====
-- `transitionVerifyPocSyncState` of workflow/verify-poc/src/idempotency.ts: the state of
-- synchronisation of a submission, by its sync id.
pub mod Trails
use anti_soon.Prelude.{String, Bool, true, false, Option, none, some, Result, ok, err}
use anti_soon.Prelude.Map
use anti_soon.Prelude.Map.{Map}

pub data SyncState : Type 0 where
  sapphire_written sepolia_committed sepolia_revealed : SyncState
  workflow_verified report_written quarantined : SyncState

-- `VERIFY_POC_INVALID_SYNC_TRANSITION`; `from` is `UNSET` where there is none
pub data SyncError : Type 0 where
  invalid_transition : (sync_id : String) (from : Option SyncState) (next : SyncState) → SyncError

-- `allowedSyncTransitions[current].includes(next)`
unfoldable pub is_allowed : SyncState → SyncState → Bool
is_allowed sapphire_written sepolia_committed = true
is_allowed sapphire_written quarantined = true
is_allowed sepolia_committed sepolia_revealed = true
is_allowed sepolia_committed quarantined = true
is_allowed sepolia_revealed workflow_verified = true
is_allowed sepolia_revealed quarantined = true
is_allowed workflow_verified report_written = true
is_allowed workflow_verified quarantined = true
is_allowed _ _ = false

-- `options?.allowInitialize && nextState === "SAPPHIRE_WRITTEN"`
unfoldable pub may_initialize : Bool → SyncState → Bool
may_initialize true sapphire_written = true
may_initialize _ _ = false

-- a transition that is allowed, or is refused with the error
settle :
    Bool
    → SyncError
    → Map SyncState
    → String
    → SyncState
    → Result SyncError SyncState × Map SyncState
settle true error m sync_id next = (ok next, Map.set m sync_id next)
settle false error m sync_id next = (err error, m)

transition_from :
    Option SyncState
    → Map SyncState
    → String
    → SyncState
    → Bool
    → Result SyncError SyncState × Map SyncState
unfolding settle
transition_from none m sync_id next allow_initialize =
    settle (may_initialize allow_initialize next) (invalid_transition sync_id none next) m sync_id
      next
transition_from (some current) m sync_id next allow_initialize =
    settle (is_allowed current next) (invalid_transition sync_id (some current) next) m sync_id next

-- The map is changed in place: it is the second component.
unfoldable pub transition_sync_state :
    Map SyncState → String → SyncState → Bool → Result SyncError SyncState × Map SyncState
unfolding transition_from
transition_sync_state m sync_id next allow_initialize =
    transition_from (Map.get m sync_id) m sync_id next allow_initialize
