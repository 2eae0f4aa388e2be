-- ===== src/Verify/Slots/Kept.antt =====
-- What a claim leaves of the slots.
use anti_soon.Prelude.{String, ◌≡◌, refl, ap, false, Option, none, some}
use anti_soon.Prelude.Map.{Map, get}
use anti_soon.Prelude.Keys.{IsKeyed, set-IsKeyed}
use anti_soon.Verify.Slots.{
  Status, processing, completed, quarantined, strict_failed, is_quarantined, reclaim_at, claim_at,
  claim_idempotency_slot,
}

claim_at-refused :
    (o : Option Status) (m : Map Status) (key : String)
    → (claim_at o false m key).1.should_process ≡ false
    → (claim_at o false m key).0 ≡ m
unfolding claim_at reclaim_at
claim_at-refused none m key h = cc
claim_at-refused (some processing) m key h = refl
claim_at-refused (some completed) m key h = refl
claim_at-refused (some quarantined) m key h = refl
claim_at-refused (some strict_failed) m key h = refl

claim_at-IsKeyed :
    (o : Option Status) (m : Map Status) (key : String)
    → IsKeyed m
    → IsKeyed (claim_at o false m key).0
unfolding claim_at reclaim_at
claim_at-IsKeyed none m key h = set-IsKeyed m key processing h
claim_at-IsKeyed (some processing) m key h = h
claim_at-IsKeyed (some completed) m key h = h
claim_at-IsKeyed (some quarantined) m key h = h
claim_at-IsKeyed (some strict_failed) m key h = h

-- a claim that is refused changes nothing
pub claim_idempotency_slot-refused :
    (m : Map Status) (key : String)
    → (claim_idempotency_slot m key false).1.should_process ≡ false
    → (claim_idempotency_slot m key false).0 ≡ m
unfolding claim_idempotency_slot
claim_idempotency_slot-refused m key h = claim_at-refused (get m key) m key h

pub claim_idempotency_slot-IsKeyed :
    (m : Map Status) (key : String) → IsKeyed m → IsKeyed (claim_idempotency_slot m key false).0
unfolding claim_idempotency_slot
claim_idempotency_slot-IsKeyed m key h = claim_at-IsKeyed (get m key) m key h

-- a quarantined key is refused to whoever may not reclaim it
pub claim_idempotency_slot-quarantined :
    (m : Map Status) (key : String)
    → get m key ≡ some quarantined
    → (claim_idempotency_slot m key false).1
      ≡ record { should_process = false; reason = is_quarantined }
unfolding claim_idempotency_slot claim_at reclaim_at
claim_idempotency_slot-quarantined m key h = ap (λ o. (claim_at o false m key).1) h
