-- ===== src/Retry/Schedule.antt =====
-- The schedule: one wait for each attempt, none before the first, growing up to the cap.
use native.Mathlib.Nat.{pow-suc, mul-le-mul_left}
use anti_soon.Prelude.{false, get_or}
use anti_soon.Prelude.{
  ℕ, zero, suc, ◌+◌, ◌-◌, ◌*◌, ◌^◌, ◌≤◌, ◌≡◌, Option, none, some, List, [], ◌∷◌, ◌==◌, refl, length,
  arith, All, ap,
}
use anti_soon.Retry.{
  RetryPolicy, NormalPolicy, normalize_retry_policy, as_policy, wait_before, schedule_from,
  create_retry_schedule,
}

pub record IsNormal (p : NormalPolicy) : Type 0 where
  pub attempts_pos : 1 ≤ p.max_attempts
  pub multiplier_pos : 1 ≤ p.backoff_multiplier
  pub delay_le : p.base_delay_ms ≤ p.max_delay_ms

-- Normalization makes every policy normal.
pub normalize-IsNormal : (p : Option RetryPolicy) → IsNormal (normalize_retry_policy p)
unfolding normalize_retry_policy
normalize-IsNormal none = ground arith
normalize-IsNormal (some p) = ground arith

-- Normalizing what is normal changes nothing.
pub normalize_idem :
    (p : NormalPolicy) → IsNormal p → normalize_retry_policy (some (as_policy p)) ≡ p
unfolding normalize_retry_policy
normalize_idem p h = ground arith

length-schedule_from :
    (p : NormalPolicy) (rounds attempt : ℕ) → length (schedule_from p rounds attempt) ≡ rounds
unfolding schedule_from
length-schedule_from p zero attempt = refl
length-schedule_from p (suc rounds) attempt = ap suc (length-schedule_from p rounds (attempt + 1))

-- In order, each wait at most the next.
abbrev pub Grows : List ℕ → Type 0
Grows [] = Unit
Grows (x ∷ []) = Unit
Grows (x ∷ y ∷ l) = (x ≤ y) × Grows (y ∷ l)

backoff-le : (b m n : ℕ) → 1 ≤ m → b * m ^ n ≤ b * m ^ suc n
backoff-le b m n h = rw pow-suc (mul-le-mul_left b (omega (arith, mul-le-mul_left (m ^ n) h)))

wait-le-next :
    (p : NormalPolicy) (attempt : ℕ)
    → IsNormal p
    → 1 ≤ attempt
    → wait_before p attempt ≤ wait_before p (attempt + 1)
unfolding wait_before
wait-le-next p zero h k = absurd (omega arith)
wait-le-next p (suc zero) h k = ground arith
wait-le-next p (suc (suc n)) h k =
    let exponent : suc (suc n) - 2 ≡ n = omega arith in
    let next : suc (suc n) + 1 - 2 ≡ suc n = omega arith in
    let later : (suc (suc n) == 1) ≡ false = ground arith in
    let latest : (suc (suc n) + 1 == 1) ≡ false = ground arith in
    rw (later, latest, exponent, next)
      (omega (arith, backoff-le p.base_delay_ms p.backoff_multiplier n h.multiplier_pos))

wait-le : (p : NormalPolicy) (attempt : ℕ) → wait_before p attempt ≤ p.max_delay_ms
unfolding wait_before
wait-le p attempt = ground arith

schedule_from-Grows :
    (p : NormalPolicy) (rounds attempt : ℕ)
    → IsNormal p
    → 1 ≤ attempt
    → Grows (schedule_from p rounds attempt)
unfolding schedule_from
schedule_from-Grows p zero attempt h k = tt
schedule_from-Grows p (suc zero) attempt h k = tt
schedule_from-Grows p (suc (suc rounds)) attempt h k =
    (wait-le-next p attempt h k, schedule_from-Grows p (suc rounds) (attempt + 1) h (omega arith))

schedule_from-le :
    (p : NormalPolicy) (rounds attempt : ℕ)
    → All (λ w. w ≤ p.max_delay_ms) (schedule_from p rounds attempt)
unfolding schedule_from
schedule_from-le p zero attempt = tt
schedule_from-le p (suc rounds) attempt =
    (wait-le p attempt, schedule_from-le p rounds (attempt + 1))

-- The retry schedule of any policy has one wait for each attempt of the normalized policy, never
-- falls, and stays at or below the cap.
pub create_retry_schedule-Grows :
    (policy : RetryPolicy)
    → let p = normalize_retry_policy (some policy) in
      let schedule = create_retry_schedule policy in
      (length schedule ≡ p.max_attempts) × Grows schedule × All (λ w. w ≤ p.max_delay_ms) schedule
unfolding create_retry_schedule
create_retry_schedule-Grows policy =
    let p = normalize_retry_policy (some policy) in
    (
      length-schedule_from p p.max_attempts 1,
      schedule_from-Grows p p.max_attempts 1 (normalize-IsNormal (some policy)) (omega arith),
      schedule_from-le p p.max_attempts 1,
    )

first_of_schedule : (p : NormalPolicy) (rounds : ℕ) → get_or (schedule_from p rounds 1) 0 0 ≡ 0
unfolding schedule_from wait_before
first_of_schedule p zero = refl
first_of_schedule p (suc rounds) = refl

-- The schedule begins with no wait.
pub first_wait : (policy : RetryPolicy) → get_or (create_retry_schedule policy) 0 0 ≡ 0
unfolding create_retry_schedule
first_wait policy =
    first_of_schedule (normalize_retry_policy (some policy))
      (normalize_retry_policy (some policy)).max_attempts
