-- ===== src/Relayer/RetryPolicy/Runner/Laws.antt =====
-- What the loop of attempts does: the sequences of attempts that it can make, and its events.
use anti_soon.Prelude.{
  ℕ, zero, suc, ◌+◌, ◌-◌, ◌≤◌, ◌<◌, ◌≡◌, refl, String, Bool, true, false, Result, ok, err, Option,
  none, some, List, ◌==◌, ==_iff, get_or, arith,
}
use anti_soon.Retry.{
  RetryPolicy, NormalPolicy, normalize_retry_policy, as_policy, create_retry_schedule,
}
use anti_soon.Retry.Schedule.{normalize-IsNormal}
use anti_soon.Relayer.RetryPolicy.Errors.{Thrown, Failure}
use anti_soon.Relayer.RetryPolicy.Runner.{
  Event, RetryError, terminal, exhausted, Run, pause, settle_failure, settle, attempt_from,
  run_with_retry,
}

module _ {E T : Type 0} (operation : String) (attempts : ℕ) (classify : Thrown → Failure)
    (execute : ℕ → E → Result Thrown T × E) where
  -- `Tries n e r e'`: attempts from the `n`-th on lead from `e` to the result `r` and `e'`. An attempt
  -- that succeeds or fails for good is the last one, and so is the last that the policy allows.
  pub data Tries : ℕ → E → Result RetryError T → E → Type 0 where
    succeeds : {n : ℕ} {e e' : E} {v : T} → execute n e ≡ (ok v, e') → Tries n e (ok v) e'
    stops :
        {n : ℕ} {e e' : E} {t : Thrown}
        → execute n e ≡ (err t, e')
        → (classify t).retriable ≡ false
        → Tries n e (err (terminal operation n attempts (classify t))) e'
    gives_up :
        {n : ℕ} {e e' : E} {t : Thrown}
        → execute n e ≡ (err t, e')
        → (classify t).retriable ≡ true
        → n ≡ attempts
        → Tries n e (err (exhausted operation attempts (classify t))) e'
    repeats :
        {n : ℕ} {e e' e'' : E} {t : Thrown} {r : Result RetryError T}
        → execute n e ≡ (err t, e')
        → (classify t).retriable ≡ true
        → n < attempts
        → Tries (n + 1) e' r e''
        → Tries n e r e''

module _ {E T : Type 0} (policy : NormalPolicy) (operation : String) (key : Option String)
    (classify : Thrown → Failure) (execute : ℕ → E → Result Thrown T × E) (schedule : List ℕ) where
  settle-Tries :
      (outcome : Result Thrown T) (before : List Event) (n : ℕ) (e e' : E)
      (rest : Failure → Run E T)
      → execute n e ≡ (outcome, e')
      → n ≤ policy.max_attempts
      → ((f : Failure)
          → n < policy.max_attempts
          → Tries operation policy.max_attempts classify execute
              (n + 1)
              e'
              (rest f).result
              (rest f).env)
      → let r = settle policy operation key classify execute outcome before n e' rest in
        Tries operation policy.max_attempts classify execute n e r.result r.env
  unfolding settle
  settle-Tries (ok v) before n e e' rest x le next = succeeds x
  settle-Tries (err t) before n e e' rest x le next =
      by_cases (classify t).retriable refl (n == policy.max_attempts) refl
    where
      by_cases :
          (again : Bool)
          → (classify t).retriable ≡ again
          → (is_last : Bool) → (n == policy.max_attempts) ≡ is_last
          → let r =
              settle_failure policy operation key classify execute again is_last before n
                (classify t)
                e'
                (rest (classify t)) in
            Tries operation policy.max_attempts classify execute n e r.result r.env
      by_cases false p _ q = stops x p
      by_cases true p true q = gives_up x p ((==_iff n policy.max_attempts).0 q)
      by_cases true p false q = repeats x p (ground arith) (next (classify t) (ground arith))

  attempt_from-Tries :
      (rounds n : ℕ) (last : Option Failure) (e : E)
      → rounds + n ≡ policy.max_attempts + 1
      → 0 < rounds
      → let r = attempt_from policy operation key classify execute schedule rounds n last e in
        Tries operation policy.max_attempts classify execute n e r.result r.env
  unfolding attempt_from
  attempt_from-Tries zero n last e h k = elim k [ ]
  attempt_from-Tries (suc rounds) n last e h k =
      settle-Tries (execute n e).0 (pause (get_or schedule (n - 1) 0)) n e (execute n e).1
        (λ failure.
          attempt_from policy operation key classify execute schedule rounds (n + 1) (some failure)
            (execute n e).1)
        refl (omega arith)
        (λ f more.
          attempt_from-Tries rounds (n + 1) (some f) (execute n e).1 (omega arith) (omega arith))

-- A run with retries makes a sequence of attempts that the policy allows, beginning with the first:
-- it stops at the first success or terminal failure, gives up at the last attempt of the policy,
-- and returns what that attempt gave.
pub run_with_retry-Tries :
    {E T : Type 0} (policy : Option RetryPolicy) (operation : String) (key : Option String)
    (classify : Thrown → Failure) (execute : ℕ → E → Result Thrown T × E) (e : E)
    → let r = run_with_retry policy operation key classify execute e in
      Tries operation
        (normalize_retry_policy policy).max_attempts
        classify
        execute
        1
        e
        r.result
        r.env
unfolding run_with_retry
run_with_retry-Tries policy operation key classify execute e =
    let p = normalize_retry_policy policy in
    attempt_from-Tries p operation key classify execute (create_retry_schedule (as_policy p))
      p.max_attempts 1 none e refl (normalize-IsNormal policy).attempts_pos
