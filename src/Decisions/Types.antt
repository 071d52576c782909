-- ===== src/Decisions/Types.antt =====
-- packages/runner/src/permission/decisions-route.ts: what a request brings, what the handler keeps
-- and calls, and its answers. Detail texts of answers are left out.
use soa_harness_impl.Base.{ℕ, String, ◌≡◌, Bool, Option, List}
use soa_harness_impl.Base.Text.{concat}
use soa_harness_impl.Base.Result.{Result, ok}
use soa_harness_impl.Base.Dict.{Dict}
use soa_harness_impl.Registry.{Control, auto_allow, prompt, deny, RiskClass, ToolRegistry}
use soa_harness_impl.Permission.{
  Capability, read_only_mode, workspace_write, danger_full_access, QueryDecision,
  auto_allow_decision, prompt_decision, deny_decision, capability_denied_decision,
  config_precedence_violation,
}
use soa_harness_impl.Permission.SessionStore.{InMemorySessionStore}
use soa_harness_impl.Audit.{Value}
use soa_harness_impl.Audit.Chain.{AuditChain}
use soa_harness_impl.Audit.Sink.{AuditSink}
use soa_harness_impl.Budget.{BudgetTracker}
use soa_harness_impl.Stream.{StreamEventEmitter}
use soa_harness_impl.Hook.{HookOutcome}
use soa_harness_impl.Hook.Reentrancy.{Tracker}
use soa_harness_impl.Session.Resume.{Phase}
use soa_harness_impl.Privacy.Residency.{SubReason}
use soa_harness_impl.Attestation.Pda.{PdaPlatform}
use soa_harness_impl.Attestation.HandlerKey.{HandlerKeyRegistry}
use soa_harness_impl.Attestation.Escalation.{EscalationOutcome}
use soa_harness_impl.Decisions.Limiter.{BearerLimiter}

pub decision_text : QueryDecision → String
decision_text auto_allow_decision = "AutoAllow"
decision_text prompt_decision = "Prompt"
decision_text deny_decision = "Deny"
decision_text capability_denied_decision = "CapabilityDenied"
decision_text config_precedence_violation = "ConfigPrecedenceViolation"

pub capability_text : Capability → String
capability_text read_only_mode = "ReadOnly"
capability_text workspace_write = "WorkspaceWrite"
capability_text danger_full_access = "DangerFullAccess"

pub control_text : Control → String
control_text auto_allow = "AutoAllow"
control_text prompt = "Prompt"
control_text deny = "Deny"

-- CachedDecisionFields, of a committed side effect. `D` are the hashes.
pub record CachedDecisionFields (D : Type 0) : Type 0 where
  pub audit_record_id : String
  pub audit_this_hash : D
  pub decision : QueryDecision
  pub resolved_capability : Capability
  pub resolved_control : Control
  pub reason : String
  pub handler_accepted : Bool
  pub recorded_at : ℕ

-- CachedSideEffect; the result digest is that of the audit row's hash.
pub record CachedSideEffect (D : Type 0) : Type 0 where
  pub tool : String
  pub idempotency_key : String
  pub phase : Phase
  pub args_digest : String
  pub result_digest : Option D
  pub first_attempted_at : ℕ
  pub last_phase_transition_at : ℕ
  pub cached : Option (CachedDecisionFields D)

-- The fields of a session file that the handler reads or makes, but for the constant ones; a
-- workflow without an array of side effects has the empty list.
pub record BracketSession (D : Type 0) : Type 0 where
  pub session_id : String
  pub active_mode : Capability
  pub created_at : ℕ
  pub side_effects : List (CachedSideEffect D)
  pub tool_pool_hash : String
  pub card_version : String

pub data ReadError : Type 0 where
  file_missing unreadable : ReadError

-- The session persister, on a disk of type `F`. A write does not fail, and what is written is read.
pub record BracketFiles (D F : Type 0) : Type 0 where
  pub read_session : F → String → Result ReadError (BracketSession D)
  pub write_session : F → BracketSession D → F
  pub read-write :
      (disk : F) (s : BracketSession D) → read_session (write_session disk s) s.session_id ≡ ok s

pub data InvokeOutcome : Type 0 where
  invoke_committed invoke_compensated : InvokeOutcome

-- The markers of §12.5.3, with the session and the index of the side effect.
pub data Mark : Type 0 where
  pending_write_done committed_write_done tool_invoke_start : String → ℕ → Mark
  tool_invoke_done : String → ℕ → InvokeOutcome → Mark
  dir_fsync_done : String → Mark

-- The persister, the markers and the two snapshots, where all four are wired.
pub record Bracket (F : Type 0) : Type 0 where
  pub disk : F
  pub marks : List Mark
  pub tool_pool_hash : String
  pub card_version : String

-- The parameters of one call of the OTel emitter.
pub record DecisionSpans : Type 0 where
  pub session_id : String
  pub turn_id : String
  pub tool_name : String
  pub tool_risk_class : RiskClass
  pub permission_decision : QueryDecision
  pub permission_decision_event_id : Option String

-- What the handler changes; an optional component is none where it is not wired.
pub record World (D F : Type 0) : Type 0 where
  pub sessions : InMemorySessionStore
  pub limiter : BearerLimiter
  pub chain : AuditChain D
  pub sink : Option (AuditSink D)
  pub budget : Option BudgetTracker
  pub emitter : Option StreamEventEmitter
  pub reentrancy : Option Tracker
  pub bracket : Option (Bracket F)
  pub spans : Option (List DecisionSpans)

pub record ToolResidencyMetadata : Type 0 where
  pub declared_location : Option (List String)
  pub attested_location : Option (List String)
  pub network_signal_regions : Option (List String)

-- The parsed stdout of a hook.
pub record HookBody : Type 0 where
  pub reason : Option String
  pub replace_args : Option Value
  pub replace_result : Option Value

-- The options of the route that it does not change, with the digests that it computes. `K` are
-- verification keys.
pub record Options (K : Type 0) : Type 0 where
  pub registry : ToolRegistry
  pub agent_type : Option String
  pub tool_requirements : Option (Dict String Control)
  pub policy_endpoint : Option String
  pub platform : PdaPlatform K
  pub resolve_pda_verify_key : Option (String → Option K)
  pub is_pda_kid_revoked : Option (String → Bool)
  pub parse_date : String → Option ℕ
  pub handler_key_registry : Option HandlerKeyRegistry
  pub has_escalation_coordinator : Bool
  pub runner_version : String
  pub has_pre_tool_use_command : Bool
  pub has_post_tool_use_command : Bool
  pub budget_per_turn_estimate : Option ℕ
  pub synthetic_cache_hit : Option ℕ
  pub data_residency : Option (List String)
  pub tool_residency : Option (String → Option ToolResidencyMetadata)
  pub sha256 : String → String
  pub jcs_digest : Value → String

-- A body that the schema accepts.
pub record RequestBody : Type 0 where
  pub tool : String
  pub session_id : String
  pub args_digest : String
  pub pda : Option String

-- The calls that read the clock, and those that draw a random id.
pub data Moment : Type 0 where
  at_limit at_residency at_load at_pending at_resolve at_verify at_key at_escalation : Moment
  at_compensation at_record at_append at_sink at_commit at_emit : Moment

pub data Draw : Type 0 where
  reentrancy_event budget_event overrun_event pre_hook_event decision_event outcome_event : Draw
  post_hook_event tool_call idempotency record_suffix escalation_record : Draw

-- What a run of a hook brings: its process id, if it was spawned, and its outcome.
pub record HookRun : Type 0 where
  pub pid : Option ℕ
  pub outcome : HookOutcome HookBody

-- A request, with what the handler learns from outside while it answers: the readiness probe's
-- reason, the hooks, the escalation's outcome, the clock and the random draws. The headers are
-- parsed, and the body is none where the schema refuses it.
pub record Request : Type 0 where
  pub hook_pid : Option ℕ
  pub not_ready : Option String
  pub bearer : Option String
  pub body : Option RequestBody
  pub idempotency_key : Option String
  pub pre_hook : HookRun
  pub post_hook : HookRun
  pub escalation : EscalationOutcome
  pub clock : Moment → ℕ
  pub draw : Draw → String

-- auditRecordId: the prefix, and twelve hex digits drawn for the request.
unfoldable pub record_id : Request → String
unfolding concat
record_id r = concat "aud_" (r.draw record_suffix)

-- The same digits under another prefix.
unfoldable pub prompt_id : Request → String
unfolding concat
prompt_id r = concat "prm_" (r.draw record_suffix)

pub record CreatedBody (D : Type 0) : Type 0 where
  pub decision : QueryDecision
  pub resolved_capability : Capability
  pub resolved_control : Control
  pub reason : String
  pub audit_record_id : String
  pub audit_this_hash : D
  pub handler_accepted : Bool
  pub runner_version : String
  pub recorded_at : ℕ
  pub idempotency_key : Option String
  pub replayed : Bool

-- An answer: an error with its code, its `error` and its `reason`; the two that carry more; or 201.
pub data Response (D : Type 0) : Type 0 where
  refused : (code : ℕ) (error : String) (reason : Option String) → Response D
  rate_limited : (retry_after : ℕ) → Response D
  residency_refused : SubReason → Response D
  created : CreatedBody D → Response D
  thrown : Response D
