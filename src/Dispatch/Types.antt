-- ===== src/Dispatch/Types.antt =====
-- packages/runner/src/dispatch/types.ts and errors.ts, and the dispatcher's state: requests,
-- responses, the classification of errors, and the rows that a dispatch leaves.
use soa_harness_impl.Base.{ℕ, String, Bool, true, false, Option, none, List}
use soa_harness_impl.Base.Dict.{Dict}

pub data DispatcherErrorCode : Type 0 where
  provider_rate_limited provider_auth_failed provider_unavailable provider_network_failed
        content_filter_refusal context_length_exceeded dispatcher_request_invalid
        dispatcher_stream_unsupported dispatcher_adapter_error :
      DispatcherErrorCode

-- DISPATCHER_ERROR_SUBCODES: the numbers without their minus signs
unfoldable pub subcode : DispatcherErrorCode → ℕ
subcode provider_rate_limited = 32100
subcode provider_auth_failed = 32101
subcode provider_unavailable = 32102
subcode provider_network_failed = 32103
subcode content_filter_refusal = 32104
subcode context_length_exceeded = 32105
subcode dispatcher_request_invalid = 32110
subcode dispatcher_stream_unsupported = 32111
subcode dispatcher_adapter_error = 32112

-- RETRYABLE_ERRORS
abbrev pub is_retryable : DispatcherErrorCode → Bool
is_retryable provider_rate_limited = true
is_retryable provider_unavailable = true
is_retryable provider_network_failed = true
is_retryable _ = false

abbrev pub max_dispatcher_retries : ℕ
max_dispatcher_retries = 3

pub data StopReason : Type 0 where
  natural_stop max_turns user_interrupt budget_exhausted memory_degraded card_version_drift
        tool_pool_stale self_improve_lock_busy crash dispatcher_error :
      StopReason

pub record DispatchUsage : Type 0 where
  pub input_tokens : ℕ
  pub output_tokens : ℕ
  pub cached_tokens : ℕ

pub record DispatchRequest : Type 0 where
  pub session_id : String
  pub turn_id : String
  pub model : String
  pub budget_ceiling_tokens : ℕ
  pub billing_tag : String
  pub correlation_id : String

pub record DispatchResponse : Type 0 where
  pub session_id : String
  pub turn_id : String
  pub usage : DispatchUsage
  pub stop_reason : StopReason
  pub error_code : Option DispatcherErrorCode
  pub provider_request_id : Option String
  pub provider : String
  pub model_echo : String
  pub billing_tag : String
  pub correlation_id : String

-- What an adapter throws: an `AdapterError`, or anything else.
pub data Thrown : Type 0 where
  adapter_error :
      (code : DispatcherErrorCode) (provider_request_id : Option String) (retry_after_ms : Option ℕ)
      → Thrown
  other : Thrown

-- classifyThrowable
unfoldable pub classify_throwable : Thrown → DispatcherErrorCode
classify_throwable (adapter_error code id after) = code
classify_throwable other = provider_network_failed

unfoldable pub request_id_of : Thrown → Option String
request_id_of (adapter_error code id after) = id
request_id_of other = none

unfoldable pub retry_after_of : Thrown → Option ℕ
retry_after_of (adapter_error code id after) = after
retry_after_of other = none

pub data Answer : Type 0 where
  responds : DispatchResponse → Answer
  throws : Thrown → (aborted : Bool) → Answer

-- One turn of the loop: is the signal aborted at its start, and what does the adapter do? A throw
-- says whether the signal is aborted when it is caught.
pub record Attempt : Type 0 where
  pub aborted : Bool
  pub answer : Answer

pub record DispatchRecentRow : Type 0 where
  pub turn_id : String
  pub provider : String
  pub model_echo : String
  pub stop_reason : StopReason
  pub error_code : Option DispatcherErrorCode
  pub usage : DispatchUsage
  pub billing_tag : String
  pub correlation_id : String
  pub provider_request_id : Option String

pub record AuditRow : Type 0 where
  pub session_id : String
  pub turn_id : String
  pub billing_tag : String
  pub stop_reason : StopReason
  pub error_code : Option DispatcherErrorCode
  pub provider : String
  pub provider_request_id : Option String
  pub usage : DispatchUsage
  pub subcode : Option ℕ

-- `audit` is none where no chain is wired; `sleeps` are the delays, and `calls` the attempt
-- numbers that the adapter was called with.
pub record Dispatcher : Type 0 where
  pub adapter_name : String
  pub recent_ring_size : ℕ
  pub recent : Dict String (List DispatchRecentRow)
  pub audit : Option (List AuditRow)
  pub sleeps : List ℕ
  pub calls : List ℕ
