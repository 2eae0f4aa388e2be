-- ===== src/Relayer/RetryPolicy/Errors.antt =====
-- The classification of a thrown value.
pub mod Laws
use anti_soon.Prelude.{
  ℕ, String, Bool, true, false, ◌||◌, Option, none, some, List, [], ◌∷◌, ◌==◌, leb, str_eq,
  if◌then◌else◌,
}
use text.Mathlib.Text.{find?}

pub data ReasonCode : Type 0 where
  retryable_timeout retryable_network retryable_http_status retryable_rpc_transient : ReasonCode
  terminal_http_status terminal_invalid_payload terminal_rpc_error : ReasonCode
  retry_exhausted : ReasonCode

-- The fields of a thrown object that the code reads; `none` where the field is missing or, for the
-- message and the status code, of another type.
pub record ErrorLike : Type 0 where
  pub name : Option String
  pub message : Option String
  pub status_code : Option ℕ

-- A thrown value: an object, a string, or any other value.
pub data Thrown : Type 0 where
  thrown_object : ErrorLike → Thrown
  thrown_string : String → Thrown
  thrown_other : Thrown

pub record Failure : Type 0 where
  pub retriable : Bool
  pub reason_code : ReasonCode
  pub message : String
  pub status_code : Option ℕ

abbrev pub retriable_timeout_tokens : List String
retriable_timeout_tokens = "timeout" ∷ "timed out" ∷ "deadline exceeded" ∷ "etimedout" ∷ []

abbrev pub retriable_network_tokens : List String
retriable_network_tokens =
    "econnreset" ∷ "enotfound" ∷ "ehostunreach" ∷ "network" ∷ "socket hang up" ∷ "connection reset"
    ∷ "temporarily unavailable" ∷ []

abbrev pub retriable_rpc_tokens : List String
retriable_rpc_tokens =
    "rate limit" ∷ "too many requests" ∷ "header not found" ∷ "upstream busy"
    ∷ "upstream unavailable" ∷ "try again" ∷ "temporarily unavailable" ∷ []

abbrev pub terminal_payload_tokens : List String
terminal_payload_tokens =
    "payload validation failed" ∷ "invalid project read result" ∷ "invalid eth_call response"
    ∷ "returned empty payload" ∷ "shape is invalid" ∷ []

abbrev pub unknown_error : String
unknown_error = "unknown auto-reveal execution error"

-- `text.includes(token)`
includes : String → String → Bool
includes text token = elim (find? text token) [ none ↦ false | some _ ↦ true ]

unfoldable pub includes_any : String → List String → Bool
unfolding includes
includes_any text [] = false
includes_any text (token ∷ tokens) = includes text token || includes_any text tokens

abbrev pub message_of : Option String → String
message_of none = unknown_error
message_of (some m) = m

unfoldable pub to_error_like : Thrown → ErrorLike
to_error_like (thrown_object e) = e
to_error_like (thrown_string s) = record { name = none; message = some s; status_code = none }
to_error_like thrown_other = record {
  name = none;
  message = some unknown_error;
  status_code = none;
}

-- `details.name === "TimeoutError"`
abbrev pub is_timeout_name : Option String → Bool
is_timeout_name none = false
is_timeout_name (some n) = str_eq n "TimeoutError"

abbrev message_failure : String → Bool → ReasonCode → Failure
message_failure message retriable code = record {
  retriable = retriable;
  reason_code = code;
  message = message;
  status_code = none;
}

-- the branches on the message, `normalized` in lower case
unfoldable pub classify_message : Option String → String → String → Failure
classify_message name message normalized =
    if is_timeout_name name || includes_any normalized retriable_timeout_tokens
    then message_failure message true retryable_timeout
    else if includes_any normalized retriable_network_tokens
    then message_failure message true retryable_network
    else if includes_any normalized retriable_rpc_tokens
    then message_failure message true retryable_rpc_transient
    else if includes_any normalized terminal_payload_tokens
    then message_failure message false terminal_invalid_payload
    else message_failure message false terminal_rpc_error

abbrev pub is_retriable_status : ℕ → Bool
is_retriable_status code = code == 408 || code == 425 || code == 429 || leb 500 code

unfoldable pub classify_error : (String → String) → Thrown → Failure
unfolding to_error_like classify_message
classify_error to_lower_case error =
    let details = to_error_like error in
    let message : String = message_of details.message in
    elim details.status_code [
      | some code ↦
          if is_retriable_status code
          then record {
            retriable = true;
            reason_code = retryable_http_status;
            message = message;
            status_code = some code;
          }
          else record {
            retriable = false;
            reason_code = terminal_http_status;
            message = message;
            status_code = some code;
          }
      | none ↦ classify_message details.name message (to_lower_case message)
    ]
