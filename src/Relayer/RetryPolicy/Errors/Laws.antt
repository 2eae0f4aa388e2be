-- ===== src/Relayer/RetryPolicy/Errors/Laws.antt =====
-- The verdict and its reason code agree, and a status code decides alone.
use anti_soon.Prelude.{String, Bool, true, false, ◌||◌, none, some, ◌++◌}
use anti_soon.Relayer.RetryPolicy.Errors.{
  ErrorLike, is_timeout_name, message_of, retriable_timeout_tokens, retriable_network_tokens,
  retriable_rpc_tokens, ReasonCode, retryable_timeout, retryable_network, retryable_http_status,
  retryable_rpc_transient, includes_any, is_retriable_status,
}

-- Whether a reason code names an error that is worth another attempt.
abbrev pub is_retryable_code : ReasonCode → Bool
is_retryable_code retryable_timeout = true
is_retryable_code retryable_network = true
is_retryable_code retryable_http_status = true
is_retryable_code retryable_rpc_transient = true
is_retryable_code _ = false

-- What makes a thrown value worth another attempt: its status code if it has one, else its name or a token in its message.
abbrev pub is_transient : (String → String) → ErrorLike → Bool
is_transient to_lower_case e = elim e.status_code [
  | some code ↦ is_retriable_status code
  | none ↦
      is_timeout_name e.name
      || includes_any (to_lower_case (message_of e.message))
          (retriable_timeout_tokens ++ (retriable_network_tokens ++ retriable_rpc_tokens))
]
