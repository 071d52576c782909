-- ===== src/Dispatch/Tests.antt =====
-- Inputs at which the theorems of the dispatcher apply.
use soa_harness_impl.Base.{
  ℕ, zero, suc, ◌+◌, ◌≤◌, ◌<◌, ◌⊎◌, refl, true, false, none, some, [], string_key, length, arith,
}
use soa_harness_impl.Base.Dict
use soa_harness_impl.Dispatch.{
  DispatchRequest, DispatchResponse, natural_stop, Dispatcher, Attempt, responds, throws,
  adapter_error, provider_rate_limited, classify_throwable, echoes, dispatch, over_ceiling,
  projection_for,
}
use soa_harness_impl.Dispatch.Retries.{dispatch-calls}
use soa_harness_impl.Dispatch.Recovery.{IsTransient, Succeeds, dispatch-recovers}
use soa_harness_impl.Dispatch.Rows.{IsRecorded, IsInterrupted, dispatch-row}

abbrev request : DispatchRequest
request = record {
  session_id = "ses_1";
  turn_id = "trn_1";
  model = "m";
  budget_ceiling_tokens = 1000;
  billing_tag = "team";
  correlation_id = "c";
}

abbrev response : DispatchResponse
response = record {
  session_id = "ses_1";
  turn_id = "trn_1";
  usage = record { input_tokens = 3; output_tokens = 4; cached_tokens = 0 };
  stop_reason = natural_stop;
  error_code = none;
  provider_request_id = none;
  provider = "p";
  model_echo = "m";
  billing_tag = "team";
  correlation_id = "c";
}

abbrev idle : Dispatcher
idle = record {
  adapter_name = "p";
  recent_ring_size = 500;
  recent = Dict.empty;
  audit = some [];
  sleeps = [];
  calls = [];
}

abbrev no_jitter : ℕ → ℕ → ℕ
no_jitter attempt ceiling = 0

-- Limited in the first turn, then answered.
abbrev limited_once : ℕ → Attempt
limited_once zero = record { aborted = false; answer = responds response }
limited_once (suc zero) = record {
  aborted = false;
  answer = throws (adapter_error provider_rate_limited none (some 50)) false;
}
limited_once (suc (suc n)) = record { aborted = false; answer = responds response }

abbrev aborted_at_once : ℕ → Attempt
aborted_at_once n = record { aborted = true; answer = responds response }

limited_once-IsTransient : (n : ℕ) → 1 ≤ n → n < 2 → IsTransient (limited_once n)
unfolding classify_throwable
limited_once-IsTransient zero p q = absurd (omega arith)
limited_once-IsTransient (suc zero) p q =
    (refl, (adapter_error provider_rate_limited none (some 50), refl, refl))
limited_once-IsTransient (suc (suc n)) p q = absurd (omega arith)

dispatch-recovers_example :
    Succeeds idle response 2 (dispatch no_jitter limited_once none true idle request)
unfolding over_ceiling projection_for echoes
dispatch-recovers_example =
    dispatch-recovers no_jitter limited_once none idle request 1 response refl (omega arith)
      limited_once-IsTransient (refl, refl) refl

dispatch-calls_example :
    length (dispatch no_jitter limited_once none true idle request).0.calls ≤ 0 + 4
dispatch-calls_example = dispatch-calls no_jitter limited_once none true idle request

dispatch-row_example :
    IsRecorded (some []) (dispatch no_jitter limited_once none true idle request)
    ⊎ IsInterrupted limited_once (some []) (dispatch no_jitter limited_once none true idle request)
dispatch-row_example = dispatch-row no_jitter limited_once none idle request
