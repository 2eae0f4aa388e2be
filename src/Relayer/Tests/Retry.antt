-- ===== src/Relayer/Tests/Retry.antt =====
-- The retry policy, and the runs of attempts.
use anti_soon.Prelude.{
  zero, suc, ℕ, ◌≤◌, ◌<◌, ◌*◌, String, ◌≡◌, Result, ok, err, none, some, List, [], ◌∷◌, length, All,
}
use anti_soon.Retry.{pos, RetryPolicy, normalize_retry_policy, create_retry_schedule}
use anti_soon.Retry.Schedule.{Grows, create_retry_schedule-Grows}
use anti_soon.Relayer.RetryPolicy.Errors.{Thrown, thrown_object, thrown_string, classify_error}
use anti_soon.Relayer.RetryPolicy.Runner.{run_with_retry}
use anti_soon.Relayer.RetryPolicy.Runner.Laws.{Tries, run_with_retry-Tries}
use anti_soon.Relayer.RetryPolicy.Runner.Events.{
  retries_in, failures_in, slept_in, failed, run_with_retry_events,
}

abbrev steep_policy : RetryPolicy
steep_policy = record {
  max_attempts = pos 5;
  base_delay_ms = pos 100;
  backoff_multiplier = pos 3;
  max_delay_ms = pos 1000;
}

create_retry_schedule-Grows_example :
    let p = normalize_retry_policy (some steep_policy) in
    let schedule = create_retry_schedule steep_policy in
    (length schedule ≡ p.max_attempts) × Grows schedule × All (λ w. w ≤ p.max_delay_ms) schedule
create_retry_schedule-Grows_example = create_retry_schedule-Grows steep_policy

abbrev same_text : String → String
same_text s = s

-- Fails on the first attempt, and then gives a hash.
flaky : ℕ → List ℕ → Result Thrown String × List ℕ
flaky zero seen = (err (thrown_string "no attempt"), seen)
flaky (suc zero) seen = (err (thrown_string "socket hang up"), 1 ∷ seen)
flaky (suc (suc n)) seen = (ok "0xfeed", suc (suc n) ∷ seen)

run_with_retry-Tries_example :
    let r = run_with_retry (some steep_policy) "op" none (classify_error same_text) flaky [] in
    Tries "op"
      (normalize_retry_policy (some steep_policy)).max_attempts
      (classify_error same_text)
      flaky
      1
      []
      r.result
      r.env
run_with_retry-Tries_example =
    run_with_retry-Tries (some steep_policy) "op" none (classify_error same_text) flaky []

run_with_retry_events_example :
    let r = run_with_retry (some steep_policy) "op" none (classify_error same_text) flaky [] in
    let p = normalize_retry_policy (some steep_policy) in
    (failures_in r.events ≡ failed r.result)
    × (retries_in r.events < p.max_attempts)
    × (slept_in r.events ≤ retries_in r.events * p.max_delay_ms)
run_with_retry_events_example =
    run_with_retry_events (some steep_policy) "op" none (classify_error same_text) flaky []

abbrev bad_gateway : Thrown
bad_gateway =
    thrown_object
      (record { name = none; message = some "payload validation failed"; status_code = some 502 })
