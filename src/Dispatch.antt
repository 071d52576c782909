-- ===== src/Dispatch.antt =====
-- packages/runner/src/dispatch/dispatcher.ts: one dispatch to a provider, with its
-- retries. What the adapter does and when the signal is aborted is a sequence of attempts. Times,
-- the minted dispatch id and the content blocks are not part of the model's responses; the rows
-- that are appended to the audit chain are kept in order.
mod Types
pub mod Retries
pub mod Recovery
pub mod Rows
mod Tests
unfoldable pub use Types.*
use soa_harness_impl.Base.{
  ℕ, zero, suc, ◌+◌, ◌*◌, ◌^◌, min, max, String, Bool, true, false, not, ◌&&◌, ◌||◌, Option, none,
  some, List, [], ◌∷◌, ◌++◌, length, take, ltb, if◌then◌else◌, ◌==◌, string_key, option_or,
}
use soa_harness_impl.Base.Dict.{Dict, get, set, empty}
use soa_harness_impl.Budget.{BudgetTracker, ProjectionSnapshot, get_projection}

-- The response that the dispatcher makes itself.
pub synthesize :
    Dispatcher
    → DispatchRequest
    → StopReason
    → Option DispatcherErrorCode
    → Option String
    → DispatchResponse
synthesize d request reason code id = record {
  session_id = request.session_id;
  turn_id = request.turn_id;
  usage = record { input_tokens = 0; output_tokens = 0; cached_tokens = 0 };
  stop_reason = reason;
  error_code = code;
  provider_request_id = id;
  provider = d.adapter_name;
  model_echo = request.model;
  billing_tag = request.billing_tag;
  correlation_id = request.correlation_id;
}

row_of : DispatchResponse → DispatchRecentRow
row_of r = record {
  turn_id = r.turn_id;
  provider = r.provider;
  model_echo = r.model_echo;
  stop_reason = r.stop_reason;
  error_code = r.error_code;
  usage = r.usage;
  billing_tag = r.billing_tag;
  correlation_id = r.correlation_id;
  provider_request_id = r.provider_request_id;
}

subcode_of : Option DispatcherErrorCode → Option ℕ
unfolding subcode
subcode_of none = none
subcode_of (some code) = some (subcode code)

pub audit_row_of : DispatchResponse → AuditRow
unfolding subcode_of
audit_row_of r = record {
  session_id = r.session_id;
  turn_id = r.turn_id;
  billing_tag = r.billing_tag;
  stop_reason = r.stop_reason;
  error_code = r.error_code;
  provider = r.provider;
  provider_request_id = r.provider_request_id;
  usage = r.usage;
  subcode = subcode_of r.error_code;
}

pub audited : Option (List AuditRow) → AuditRow → Option (List AuditRow)
audited none row = none
audited (some rows) row = some (rows ++ row ∷ [])

-- The ring is newest first, and is cut at its size.
unshift : ℕ → DispatchRecentRow → List DispatchRecentRow → List DispatchRecentRow
unshift size row rows =
    if ltb size (length (row ∷ rows)) then take size (row ∷ rows) else row ∷ rows

-- recordDispatch
pub record_dispatch : Dispatcher → DispatchResponse → DispatchRequest → Dispatcher
unfolding row_of audit_row_of audited unshift
record_dispatch d response request = record d {
  recent = set d.recent request.session_id (
      unshift d.recent_ring_size (row_of response)
        (option_or (get d.recent request.session_id) []));
  audit = audited d.audit (audit_row_of response);
}

-- recordStreamDispatch: the terminal state of a stream, recorded like any other dispatch.
pub record_stream_dispatch :
    Dispatcher
    → DispatchRequest
    → StopReason
    → Option DispatcherErrorCode
    → DispatchUsage
    → Dispatcher
unfolding record_dispatch synthesize
record_stream_dispatch d request reason code usage =
    let response : DispatchResponse = record (synthesize d request reason code none) {
      usage = usage;
    } in
    record_dispatch d response request

-- recent_response
pub recent_response : Dispatcher → String → ℕ → List DispatchRecentRow
recent_response d session_id limit =
    take (min (max 1 limit) d.recent_ring_size) (option_or (get d.recent session_id) [])

-- `jitter c` is `Math.floor(random() * c)` at the attempt's number.
module _ (jitter : ℕ → ℕ → ℕ) where
  pub jittered_backoff : ℕ → ℕ
  jittered_backoff attempt = jitter attempt (min 5000 (100 * 2 ^ attempt))

  -- An answer that names another session, turn, tag or correlation is a broken contract.
  pub echoes : DispatchResponse → DispatchRequest → Bool
  echoes response request =
      (response.session_id == request.session_id)
      && (response.turn_id == request.turn_id)
      && (response.billing_tag == request.billing_tag)
      && (response.correlation_id == request.correlation_id)

  recorded : Dispatcher → DispatchRequest → DispatchResponse → Dispatcher × DispatchResponse
  unfolding record_dispatch
  recorded d request response = (record_dispatch d response request, response)

  fails :
      Dispatcher
      → DispatchRequest
      → DispatcherErrorCode
      → Option String
      → Dispatcher × DispatchResponse
  unfolding recorded synthesize
  fails d request code id =
      recorded d request (synthesize d request dispatcher_error (some code) id)

  exhausted : Dispatcher → DispatchRequest → Option Thrown → Dispatcher × DispatchResponse
  unfolding fails classify_throwable request_id_of
  exhausted d request none = fails d request provider_network_failed none
  exhausted d request (some e) = fails d request (classify_throwable e) (request_id_of e)

  -- The sleep before the next attempt.
  slept : Dispatcher → ℕ → Thrown → Dispatcher
  unfolding jittered_backoff retry_after_of
  slept d attempt e = record d {
    sleeps = d.sleeps ++ option_or (retry_after_of e) (jittered_backoff attempt) ∷ [];
  }

  -- What the adapter's answer leads to; `next` is the loop's next turn.
  answered :
      DispatchRequest
      → Dispatcher
      → ℕ
      → Answer
      → (next : Dispatcher → Option Thrown → Dispatcher × DispatchResponse)
      → Dispatcher × DispatchResponse
  unfolding recorded fails echoes slept classify_throwable request_id_of synthesize
  answered request d attempt (responds response) next =
      if echoes response request
      then recorded d request response
      else fails d request dispatcher_request_invalid none
  answered request d attempt (throws e aborted) next =
      if aborted
      then recorded d request (synthesize d request user_interrupt none none)
      else if not (is_retryable (classify_throwable e)) || ltb max_dispatcher_retries attempt
      then fails d request (classify_throwable e) (request_id_of e)
      else next (slept d attempt e) (some e)

  -- invokeWithRetry, in the turn `attempt`, with this many turns left. `world n` is what happens
  -- in the turn `n`.
  pub invoke :
      (world : ℕ → Attempt)
      → DispatchRequest
      → Dispatcher
      → (left attempt : ℕ) → Option Thrown
      → Dispatcher × DispatchResponse
  unfolding answered exhausted synthesize
  invoke world request d zero attempt last = exhausted d request last
  invoke world request d (suc left) attempt last =
      if (world attempt).aborted
      then (d, synthesize d request user_interrupt none none)
      else answered request (record d { calls = d.calls ++ attempt ∷ [] }) attempt
          (world attempt).answer (λ d₁ e. invoke world request d₁ left (suc attempt) e)

  -- `projected > budget_ceiling_tokens`, in units of a twenty-thousandth of a token
  pub over_ceiling : Option ProjectionSnapshot → ℕ → Bool
  over_ceiling none ceiling = false
  over_ceiling (some p) ceiling =
      ltb (20000 * ceiling) (20000 * p.cumulative_tokens_consumed + 23 * p.p95_thousandths)

  pub projection_for : Option BudgetTracker → String → Option ProjectionSnapshot
  projection_for none session_id = none
  projection_for (some tracker) session_id = get_projection tracker session_id 0

  -- dispatch; `valid` is what the schema's validator says of the request
  pub dispatch :
      (world : ℕ → Attempt)
      → (budget : Option BudgetTracker) → (valid : Bool) → Dispatcher
      → DispatchRequest
      → Dispatcher × DispatchResponse
  unfolding invoke over_ceiling projection_for recorded synthesize
  dispatch world budget valid d request =
      if not valid
      then (d, synthesize d request dispatcher_error (some dispatcher_request_invalid) none)
      else if over_ceiling (projection_for budget request.session_id) request.budget_ceiling_tokens
      then recorded d request (synthesize d request budget_exhausted none none)
      else invoke world request d (max_dispatcher_retries + 1) 1 none
