-- ===== src/Relayer/RetryPolicy.antt =====
-- workflow/auto-reveal-relayer/retry-policy.ts: which errors are worth another attempt, and the loop
-- of attempts. `String.prototype.toLowerCase` is the parameter `to_lower_case`.
pub mod Errors
pub mod Runner
