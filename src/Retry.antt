-- ===== src/Retry.antt =====
-- The retry policy that the relayer and the RPC reader share, word for word: normalization of the
-- four numbers and the schedule of the waits. The code reads no number but through `Math.floor`, so a
-- policy holds the floors, which may be negative.
pub mod Schedule
use anti_soon.Prelude.{
  ℕ, zero, suc, ◌+◌, ◌-◌, ◌*◌, ◌^◌, min, max, Option, none, some, List, [], ◌∷◌, ◌==◌,
  if◌then◌else◌,
}

-- `negsuc n` is -(n + 1).
pub data ℤ : Type 0 where
  pos : ℕ → ℤ
  negsuc : ℕ → ℤ

-- Its numbers are finite and stand for their integral parts.
pub record RetryPolicy : Type 0 where
  pub max_attempts : ℤ
  pub base_delay_ms : ℤ
  pub backoff_multiplier : ℤ
  pub max_delay_ms : ℤ

-- A policy as `normalize_retry_policy` leaves it.
pub record NormalPolicy : Type 0 where
  pub max_attempts : ℕ
  pub base_delay_ms : ℕ
  pub backoff_multiplier : ℕ
  pub max_delay_ms : ℕ

abbrev pub default_retry_policy : RetryPolicy
default_retry_policy = record {
  max_attempts = pos 3;
  base_delay_ms = pos 250;
  backoff_multiplier = pos 2;
  max_delay_ms = pos 2000;
}

-- `Math.max(low, z)`
abbrev pub at_least : ℕ → ℤ → ℕ
at_least low (pos n) = max low n
at_least low (negsuc n) = low

normalize : RetryPolicy → NormalPolicy
normalize p = record {
  max_attempts = at_least 1 p.max_attempts;
  base_delay_ms = at_least 0 p.base_delay_ms;
  backoff_multiplier = at_least 1 p.backoff_multiplier;
  max_delay_ms = at_least (at_least 0 p.base_delay_ms) p.max_delay_ms;
}

unfoldable pub normalize_retry_policy : Option RetryPolicy → NormalPolicy
unfolding normalize
normalize_retry_policy none = normalize default_retry_policy
normalize_retry_policy (some p) = normalize p

-- A normal policy where the code expects a policy.
abbrev pub as_policy : NormalPolicy → RetryPolicy
as_policy p = record {
  max_attempts = pos p.max_attempts;
  base_delay_ms = pos p.base_delay_ms;
  backoff_multiplier = pos p.backoff_multiplier;
  max_delay_ms = pos p.max_delay_ms;
}

unfoldable pub wait_before : NormalPolicy → ℕ → ℕ
wait_before p attempt =
    if attempt == 1
    then 0
    else min (p.base_delay_ms * p.backoff_multiplier ^ (attempt - 2)) p.max_delay_ms

-- the rounds of the loop from `attempt` on
schedule_from : NormalPolicy → ℕ → ℕ → List ℕ
schedule_from p zero attempt = []
schedule_from p (suc rounds) attempt = wait_before p attempt ∷ schedule_from p rounds (attempt + 1)

unfoldable pub create_retry_schedule : RetryPolicy → List ℕ
unfolding schedule_from normalize_retry_policy wait_before
create_retry_schedule policy =
    let normalized = normalize_retry_policy (some policy) in
    schedule_from normalized normalized.max_attempts 1
