-- ===== src/Relayer/RetryPolicy/Runner.antt =====
-- `runAutoRevealWithRetry`: the loop of attempts. What an attempt reads and changes is the
-- environment `E`; the calls of `sleep` and `onMetric` are the events, in order.
pub mod Laws
pub mod Events
use anti_soon.Prelude.{
  ℕ, zero, suc, ◌+◌, ◌-◌, String, Bool, true, false, Result, ok, err, Option, none, some, List, [],
  ◌∷◌, ◌++◌, ◌==◌, ltb, get_or, if◌then◌else◌,
}
use anti_soon.Retry.{
  RetryPolicy, NormalPolicy, normalize_retry_policy, as_policy, create_retry_schedule,
}
use anti_soon.Relayer.RetryPolicy.Errors.{
  ReasonCode, retry_exhausted, retryable_rpc_transient, Thrown, Failure,
}

pub data Transition : Type 0 where
  retry_scheduled execution_failed : Transition

-- `quarantine_state` is `true` for the text "QUARANTINED" and `false` for `null`.
pub record FailureMetric : Type 0 where
  pub transition : Transition
  pub operation : String
  pub idempotency_key : Option String
  pub reason_code : ReasonCode
  pub attempt : ℕ
  pub attempts : ℕ
  pub quarantine_state : Bool

pub data Event : Type 0 where
  slept : (ms : ℕ) → Event
  emitted : FailureMetric → Event

-- `AutoRevealTerminalError` and `AutoRevealRetryExhaustedError`
pub data RetryError : Type 0 where
  terminal : (operation : String) (attempt attempts : ℕ) → Failure → RetryError
  exhausted : (operation : String) (attempts : ℕ) (last_failure : Failure) → RetryError

pub record Run (E T : Type 0) : Type 0 where
  pub result : Result RetryError T
  pub env : E
  pub events : List Event

abbrev no_failure : Failure
no_failure = record {
  retriable = true;
  reason_code = retryable_rpc_transient;
  message = "auto-reveal execution exhausted without classified failure";
  status_code = none;
}

-- `lastFailure ?? …`
abbrev last_or_none : Option Failure → Failure
last_or_none none = no_failure
last_or_none (some f) = f

-- The sleep before an attempt: none for 0 ms.
abbrev pub pause : ℕ → List Event
pause wait_ms = if ltb 0 wait_ms then slept wait_ms ∷ [] else []

module _ {E T : Type 0} (policy : NormalPolicy) (operation : String)
    (idempotency_key : Option String) (classify : Thrown → Failure)
    (execute : ℕ → E → Result Thrown T × E) where
  metric : Transition → ReasonCode → ℕ → Bool → Event
  metric transition reason_code attempt quarantine_state = emitted (record {
    transition = transition;
    operation = operation;
    idempotency_key = idempotency_key;
    reason_code = reason_code;
    attempt = attempt;
    attempts = policy.max_attempts;
    quarantine_state = quarantine_state;
  })

  -- the `catch` block: `retriable`, and whether this was the last attempt
  settle_failure : Bool → Bool → List Event → ℕ → Failure → E → Run E T → Run E T
  unfolding metric
  settle_failure false _ before attempt failure env rest = record {
    result = err (terminal operation attempt policy.max_attempts failure);
    env = env;
    events = before ++ (metric execution_failed failure.reason_code attempt false ∷ []);
  }
  settle_failure true true before attempt failure env rest = record {
    result = err (exhausted operation policy.max_attempts failure);
    env = env;
    events = before ++ (metric execution_failed retry_exhausted attempt true ∷ []);
  }
  settle_failure true false before attempt failure env rest = record {
    result = rest.result;
    env = rest.env;
    events = before ++ (metric retry_scheduled failure.reason_code attempt false ∷ rest.events);
  }

  -- the `try` block, from what `execute` gave; `rest` is the loop's next round
  settle : Result Thrown T → List Event → ℕ → E → (Failure → Run E T) → Run E T
  unfolding settle_failure
  settle (ok value) before attempt env rest = record {
    result = ok value;
    env = env;
    events = before;
  }
  settle (err error) before attempt env rest =
      let failure = classify error in
      let next = rest failure in
      settle_failure failure.retriable (attempt == policy.max_attempts) before attempt failure env
        next

  -- the rounds that are left, with `attempt` and `lastFailure`
  attempt_from : List ℕ → ℕ → ℕ → Option Failure → E → Run E T
  unfolding settle
  attempt_from schedule zero attempt last_failure env = record {
    result = err (exhausted operation policy.max_attempts (last_or_none last_failure));
    env = env;
    events = [];
  }
  attempt_from schedule (suc rounds) attempt last_failure env =
      let before = pause (get_or schedule (attempt - 1) 0) in
      let (outcome, env') = execute attempt env in
      settle outcome before attempt env'
        (λ failure. attempt_from schedule rounds (attempt + 1) (some failure) env')

unfoldable pub run_with_retry :
    {E T : Type 0}
    → Option RetryPolicy
    → String
    → Option String
    → (Thrown → Failure)
    → (ℕ → E → Result Thrown T × E)
    → E
    → Run E T
unfolding attempt_from
run_with_retry retry_policy operation idempotency_key classify execute env =
    let policy = normalize_retry_policy retry_policy in
    attempt_from policy operation idempotency_key classify execute
      (create_retry_schedule (as_policy policy)) policy.max_attempts 1 none env
