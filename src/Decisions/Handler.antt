-- ===== src/Decisions/Handler.antt =====
-- packages/runner/src/permission/decisions-route.ts: the PostToolUse hook, the answer, and the handler
-- as a whole. A request is answered without another in between.
use soa_harness_impl.Base.{
  String, false, Option, none, some, List, [], ◌∷◌, ◌++◌, string_key, if◌then◌else◌,
}
use soa_harness_impl.Base.Result.{Result, ok, err}
use soa_harness_impl.Base.Dict
use soa_harness_impl.Base.Dict.{Dict}
use soa_harness_impl.Registry.{Control}
use soa_harness_impl.Permission.{PermissionsResolveResponse, resolve_permission_for_query}
use soa_harness_impl.Audit.{Value, str, AuditRecord}
use soa_harness_impl.Audit.Chain.{Crypto}
use soa_harness_impl.Base.{Key}
use soa_harness_impl.Hook.{HookOutcome}
use soa_harness_impl.Decisions.Limiter.{BearerLimiter, Admission, consume}
use soa_harness_impl.Decisions.Types.{
  BracketFiles, World, Options, Request, HookBody, Response, refused, rate_limited, created,
  CreatedBody, at_limit, at_resolve, at_record, post_hook_event, reentrancy_event, tool_call,
  record_id,
}
use soa_harness_impl.Decisions.Checks.{
  Checked, object, refusal, denial, emit, end_session, owning_session, check_request,
}
use soa_harness_impl.Decisions.Bracket.{Opened, open_bracket}
use soa_harness_impl.Decisions.Verdict.{Verdict, Case, verdict_of}
use soa_harness_impl.Decisions.Guards.{
  PreHook, check_residency, check_budget, run_pre_hook, tracked, body_reason, hook_reason_text,
}
use soa_harness_impl.Decisions.Recording.{
  record_decision, charge_turn, emit_decision, emit_spans, key_of,
}

unfoldable pub requirement : Option (Dict String Control) → String → Option Control
requirement none tool = none
requirement (some reqs) tool = Dict.get reqs tool

-- Goes on unless the request is answered.
unfoldable pub and_then : {W R A : Type 0} → W × Result R A → (W → A → W × R) → W × R
and_then (w, err response) rest = (w, response)
and_then (w, ok a) rest = rest w a

module _ (crypto : Crypto) ⦃same_hash : Key crypto.Digest⦄ {F K : Type 0}
    (files : BracketFiles crypto.Digest F) (opts : Options K) where
  unfoldable pub replace_result_of : Option HookBody → Option Value
  replace_result_of none = none
  replace_result_of (some b) = b.replace_result

  -- The reason of the post hook's outcome: that of its stdout, or its own.
  unfoldable pub post_reason : HookOutcome HookBody → Option String → List (String × Value)
  post_reason o (some s) = ("reason", str s) ∷ []
  post_reason o none = elim o.reason [
    | none ↦ []
    | some reason ↦ ("reason", str (hook_reason_text reason)) ∷ []
  ]

  unfoldable pub only_body_reason : Option String → List (String × Value)
  only_body_reason none = []
  only_body_reason (some s) = ("reason", str s) ∷ []

  unfoldable pub post_outcome : String → HookOutcome HookBody → Option Value → List (String × Value)
  unfolding post_reason only_body_reason
  post_outcome before o none =
      ("outcome", str "pass") ∷ post_reason o (body_reason o.stdout)
      ++ ("output_digest_before", str before) ∷ []
  post_outcome before o (some result) =
      ("outcome", str "replace_result") ∷ only_body_reason (body_reason o.stdout)
      ++ ("output_digest_before", str before)
        ∷ ("output_digest_after", str (opts.jcs_digest result))
        ∷ []

  module _ (digest_text : crypto.Digest → String) where
    -- The PostToolUse hook, where a command is configured.
    unfoldable pub run_post_hook :
        World crypto.Digest F
        → Request
        → Checked
        → AuditRecord crypto.Digest
        → World crypto.Digest F
    unfolding post_outcome replace_result_of
    run_post_hook w r c row =
        let o = r.post_hook.outcome in
        let told =
          emit (tracked w c.session_id r.post_hook.pid) r post_hook_event c.session_id
            "PostToolUseOutcome"
            (object (
              ("tool_call_id", str (r.draw tool_call))
              ∷ ("tool_name", str c.tool.name)
              ∷ post_outcome (digest_text row.this_hash) o (replace_result_of o.stdout))) in
        if opts.has_post_tool_use_command then told else w

    unfoldable pub created_body :
        Request
        → Case crypto.Digest
        → Verdict
        → AuditRecord crypto.Digest
        → CreatedBody crypto.Digest
    unfolding key_of
    created_body r k v row = record {
      decision = v.decision;
      resolved_capability = k.resolved.resolved_capability;
      resolved_control = k.resolved.resolved_control;
      reason = v.reason;
      audit_record_id = record_id r;
      audit_this_hash = row.this_hash;
      handler_accepted = v.accepted;
      runner_version = opts.runner_version;
      recorded_at = r.clock at_record;
      idempotency_key = key_of crypto files opts k.opened;
      replayed = false;
    }

    -- From the audit row to the answer.
    unfoldable pub conclude :
        World crypto.Digest F
        → Request
        → Case crypto.Digest
        → Option (List (String × Value))
        → Verdict
        → World crypto.Digest F × Response crypto.Digest
    unfolding record_decision charge_turn emit_decision emit_spans run_post_hook created_body
    conclude w r k pending_outcome v =
        let (w₁, row) = record_decision crypto files opts w r k v in
        let w₂ = charge_turn crypto files opts w₁ r k.checked.session_id in
        let w₃ =
          emit_spans crypto files opts (emit_decision crypto files opts w₂ r k v pending_outcome) r
            k v in
        (run_post_hook w₃ r k.checked row, created (created_body r k v row))

    unfoldable pub resolved_for : Request → Checked → PermissionsResolveResponse
    unfolding requirement
    resolved_for r c = resolve_permission_for_query (record {
      tool = c.tool;
      capability = c.session.active_mode;
      tool_requirement = requirement opts.tool_requirements c.tool.name;
      policy_endpoint = opts.policy_endpoint;
      now = r.clock at_resolve;
      runner_version = opts.runner_version;
    })

    unfoldable pub case_of :
        Request → Checked → PreHook → Option (Opened crypto.Digest) → Case crypto.Digest
    unfolding resolved_for
    case_of r c h opened = record {
      checked = c;
      args_digest = h.args_digest;
      resolved = resolved_for r c;
      forced = h.forced;
      opened = opened;
    }

    -- From the signed decision on.
    unfoldable pub after_bracket :
        Request
        → Checked
        → PreHook
        → World crypto.Digest F
        → Option (Opened crypto.Digest)
        → World crypto.Digest F × Response crypto.Digest
    unfolding and_then case_of conclude
    after_bracket r c h w opened =
        let k = case_of r c h opened in
        and_then (verdict_of crypto files opts r k w) (λ w₁ v. conclude w₁ r k h.pending_outcome v)

    -- From the bracket on.
    unfoldable pub decide :
        Request
        → Checked
        → World crypto.Digest F
        → PreHook
        → World crypto.Digest F × Response crypto.Digest
    unfolding and_then after_bracket
    decide r c w h =
        and_then (open_bracket files w opts.runner_version r c h.args_digest) (after_bracket r c h)

    -- From the PreToolUse hook on.
    unfoldable pub after_budget :
        Request
        → Checked
        → World crypto.Digest F
        → Unit {0}
        → World crypto.Digest F × Response crypto.Digest
    unfolding and_then decide
    after_budget r c w u =
        and_then (run_pre_hook w opts.has_pre_tool_use_command opts.jcs_digest r c) (decide r c)

    -- From the budget's check on.
    unfoldable pub after_residency_check :
        Request
        → Checked
        → World crypto.Digest F
        → Unit {0}
        → World crypto.Digest F × Response crypto.Digest
    unfolding and_then after_budget
    after_residency_check r c w u = and_then (check_budget w r c) (after_budget r c)

    -- From the residency guard on.
    unfoldable pub guard :
        Request → World crypto.Digest F → Checked → World crypto.Digest F × Response crypto.Digest
    unfolding and_then after_residency_check
    guard r w c = and_then (check_residency crypto opts w r c) (after_residency_check r c)

    unfoldable pub admitted :
        World crypto.Digest F
        → Request
        → String
        → BearerLimiter × Admission
        → World crypto.Digest F × Response crypto.Digest
    unfolding and_then guard
    admitted w r bearer (limiter, admission) =
        let counted = record w { limiter = limiter } in
        let answer =
          and_then (counted, check_request opts.sha256 opts counted r bearer) (guard r) in
        if admission.allowed then answer else (counted, rate_limited admission.retry_after_seconds)

    unfoldable pub with_bearer :
        World crypto.Digest F
        → Request
        → Option String
        → World crypto.Digest F × Response crypto.Digest
    unfolding admitted
    with_bearer w r none = (w, refusal 401 "missing-or-invalid-bearer")
    with_bearer w r (some bearer) =
        admitted w r bearer (consume w.limiter (opts.sha256 bearer) (r.clock at_limit))

    unfoldable pub when_ready :
        World crypto.Digest F
        → Request
        → Option String
        → World crypto.Digest F × Response crypto.Digest
    unfolding with_bearer
    when_ready w r (some reason) = (w, refused 503 "not-ready" (some reason))
    when_ready w r none = with_bearer w r r.bearer

    unfoldable pub unless_reentrant :
        World crypto.Digest F
        → Request
        → Option String
        → World crypto.Digest F × Response crypto.Digest
    unfolding when_ready
    unless_reentrant w r (some owner) =
        (end_session w r reentrancy_event owner "HookReentrancy", denial "hook-reentrancy")
    unless_reentrant w r none = when_ready w r r.not_ready

    -- POST /permissions/decisions
    unfoldable pub handle :
        World crypto.Digest F → Request → World crypto.Digest F × Response crypto.Digest
    unfolding unless_reentrant
    handle w r = unless_reentrant w r (owning_session w r)
