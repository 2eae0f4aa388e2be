-- ===== src/Relayer/RetryPolicy/Runner/Events.antt =====
-- The metrics and the sleeps of a run.
use anti_soon.Prelude.{
  ℕ, zero, suc, ◌+◌, ◌-◌, ◌*◌, ◌≤◌, ◌<◌, ◌≡◌, refl, String, Bool, true, false, Result, ok, err,
  Option, none, some, List, [], ◌∷◌, ◌++◌, ◌==◌, get_or, All, All-get_or, arith,
}
use anti_soon.Retry.{
  RetryPolicy, NormalPolicy, normalize_retry_policy, as_policy, create_retry_schedule,
}
use anti_soon.Retry.Schedule.{
  first_wait, normalize-IsNormal, normalize_idem, create_retry_schedule-Grows,
}
use anti_soon.Relayer.RetryPolicy.Errors.{Thrown, Failure}
use anti_soon.Relayer.RetryPolicy.Runner.{
  retry_scheduled, execution_failed, Event, slept, emitted, Run, pause, metric, settle_failure,
  settle, attempt_from, run_with_retry,
}

abbrev pub retries_in : List Event → ℕ
retries_in [] = 0
retries_in (slept ms ∷ l) = retries_in l
retries_in (emitted m ∷ l) =
    (elim m.transition [ retry_scheduled ↦ 1 | execution_failed ↦ 0 ]) + retries_in l

abbrev pub failures_in : List Event → ℕ
failures_in [] = 0
failures_in (slept ms ∷ l) = failures_in l
failures_in (emitted m ∷ l) =
    (elim m.transition [ retry_scheduled ↦ 0 | execution_failed ↦ 1 ]) + failures_in l

abbrev pub slept_in : List Event → ℕ
slept_in [] = 0
slept_in (slept ms ∷ l) = ms + slept_in l
slept_in (emitted m ∷ l) = slept_in l

abbrev pub failed : {E A : Type 0} → Result E A → ℕ
failed (ok _) = 0
failed (err _) = 1

-- The events of the loop from the attempt `n` on, at waits of at most `cap`.
record Tally (n attempts cap wait : ℕ) (failures : ℕ) (events : List Event) : Type 0 where
  one_failure : failures_in events ≡ failures
  few_retries : n + retries_in events ≤ attempts
  short_sleep : slept_in events ≤ wait + retries_in events * cap

pause_counts :
    (wait : ℕ) (l : List Event)
    → (retries_in (pause wait ++ l) ≡ retries_in l)
      × (failures_in (pause wait ++ l) ≡ failures_in l)
      × (slept_in (pause wait ++ l) ≡ wait + slept_in l)
pause_counts wait l = ground arith

module _ {E T : Type 0} (policy : NormalPolicy) (operation : String) (key : Option String)
    (classify : Thrown → Failure) (execute : ℕ → E → Result Thrown T × E) (cap : ℕ) where
  settle_failure-Tally :
      (again is_last : Bool) (n w wait : ℕ) (f : Failure) (e : E) (rest : Run E T)
      → (again ≡ true
          → is_last ≡ false
          → Tally (n + 1) policy.max_attempts cap w (failed rest.result) rest.events)
      → w ≤ cap
      → n ≤ policy.max_attempts
      → let r =
          settle_failure policy operation key classify execute again is_last
            (pause wait)
            n
            f
            e
            rest in
        Tally n policy.max_attempts cap wait (failed r.result) r.events
  unfolding settle_failure
  settle_failure-Tally false is_last n w wait f e rest next le k = ground arith
  settle_failure-Tally true true n w wait f e rest next le k = ground arith
  settle_failure-Tally true false n w wait f e rest next le k =
      let tally = next refl refl in
      let counts = pause_counts wait (
        metric policy operation key classify execute retry_scheduled f.reason_code n false
        ∷ rest.events) in
      record {
        one_failure = omega (arith, counts, tally.one_failure);
        few_retries = omega (arith, counts, tally.few_retries);
        short_sleep = rw (counts.2, counts.0) (omega (arith, tally.short_sleep));
      }

  settle-Tally :
      (outcome : Result Thrown T) (n w wait : ℕ) (e : E) (rest : Failure → Run E T)
      → ((f : Failure)
          → n < policy.max_attempts
          → Tally (n + 1) policy.max_attempts cap w (failed (rest f).result) (rest f).events)
      → w ≤ cap
      → n ≤ policy.max_attempts
      → let r = settle policy operation key classify execute outcome (pause wait) n e rest in
        Tally n policy.max_attempts cap wait (failed r.result) r.events
  unfolding settle
  settle-Tally (ok v) n w wait e rest next le k = ground arith
  settle-Tally (err t) n w wait e rest next le k =
      settle_failure-Tally (classify t).retriable (n == policy.max_attempts) n w wait (classify t) e
        (rest (classify t)) (λ again more. next (classify t) (ground arith)) le k

  attempt_from-Tally :
      (schedule : List ℕ)
      → All (λ w. w ≤ cap) schedule
      → (rounds n : ℕ) (last : Option Failure) (e : E) → rounds + n ≡ policy.max_attempts + 1
      → 0 < rounds
      → let r = attempt_from policy operation key classify execute schedule rounds n last e in
        Tally n policy.max_attempts cap (get_or schedule (n - 1) 0) (failed r.result) r.events
  unfolding attempt_from
  attempt_from-Tally schedule below zero n last e h k = elim k [ ]
  attempt_from-Tally schedule below (suc rounds) n last e h k =
      settle-Tally (execute n e).0 n (get_or schedule (n + 1 - 1) 0) (get_or schedule (n - 1) 0)
        (execute n e).1
        (λ failure.
          attempt_from policy operation key classify execute schedule rounds (n + 1) (some failure)
            (execute n e).1)
        (λ f more.
          attempt_from-Tally schedule below rounds (n + 1) (some f) (execute n e).1 (omega arith)
            (omega arith))
        (All-get_or (λ w. w ≤ cap) schedule (n + 1 - 1) 0 below (omega arith)) (omega arith)

-- A run reports exactly one failure if it throws and none if it returns, schedules fewer retries
-- than the policy has attempts, and sleeps at most the cap for each retry.
pub run_with_retry_events :
    {E T : Type 0} (policy : Option RetryPolicy) (operation : String) (key : Option String)
    (classify : Thrown → Failure) (execute : ℕ → E → Result Thrown T × E) (e : E)
    → let r = run_with_retry policy operation key classify execute e in
      let p = normalize_retry_policy policy in
      (failures_in r.events ≡ failed r.result)
      × (retries_in r.events < p.max_attempts)
      × (slept_in r.events ≤ retries_in r.events * p.max_delay_ms)
unfolding run_with_retry
run_with_retry_events policy operation key classify execute e = (
  tally.one_failure,
  omega (arith, tally.few_retries),
  omega (arith, tally.short_sleep, first_wait (as_policy p)),
)
  where
    p : NormalPolicy
    p = normalize_retry_policy policy

    schedule : List ℕ
    schedule = create_retry_schedule (as_policy p)

    below : All (λ w. w ≤ p.max_delay_ms) schedule
    below =
        rw (normalize_idem p (normalize-IsNormal policy)) at
          ((create_retry_schedule-Grows (as_policy p)).2)

    tally :
        let r = attempt_from p operation key classify execute schedule p.max_attempts 1 none e in
        Tally 1 p.max_attempts p.max_delay_ms (get_or schedule 0 0) (failed r.result) r.events
    tally =
        attempt_from-Tally p operation key classify execute p.max_delay_ms schedule below
          p.max_attempts 1 none e refl (normalize-IsNormal policy).attempts_pos
