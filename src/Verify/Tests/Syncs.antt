-- ===== src/Verify/Tests/Syncs.antt =====
-- A submission that is synchronised, with refused calls in between, and a key that is claimed twice.
use anti_soon.Prelude.{◌≡◌, refl, true, false, List, [], ◌∷◌, eq_iff}
use anti_soon.Prelude.Map.{get}
use anti_soon.Verify.SyncState.{sapphire_written, sepolia_committed, workflow_verified, quarantined}
use anti_soon.Verify.SyncState.Trails.{Call, IsTrail, run_calls, trail, trail-IsTrail}
use anti_soon.Verify.Slots.{claim_idempotency_slot, in_flight}
use anti_soon.Verify.Slots.Exclusion.{Op, claim, complete, run, claim_idempotency_slot-exclusive}

abbrev calls : List Call
calls =
    record { sync_id = "a"; next = sapphire_written; allow_initialize = true }
    ∷ record { sync_id = "a"; next = workflow_verified; allow_initialize = false }
    ∷ record { sync_id = "b"; next = sapphire_written; allow_initialize = true }
    ∷ record { sync_id = "a"; next = sepolia_committed; allow_initialize = false }
    ∷ record { sync_id = "a"; next = quarantined; allow_initialize = false }
    ∷ []

trail-IsTrail_example : IsTrail (get (run_calls calls []) "a") (trail "a" calls [])
trail-IsTrail_example = trail-IsTrail "a" calls

abbrev other_operations : List Op
other_operations = claim "b" false ∷ claim "a" true ∷ complete "b" ∷ []

claim_idempotency_slot-exclusive_example :
    (claim_idempotency_slot
      (run other_operations (claim_idempotency_slot [] "a" false).0)
      "a"
      true).1
    ≡ record { should_process = false; reason = in_flight }
unfolding claim_idempotency_slot get
claim_idempotency_slot-exclusive_example =
    claim_idempotency_slot-exclusive [] "a" false true other_operations refl
      (tt, (tt, (λ q. (let t : false ≡ true = (eq_iff "b" "a").1 q in cc), tt)))
