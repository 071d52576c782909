-- ===== src/Permission/Agreement.antt =====
-- The query behind /permissions/resolve against the resolver that decides an invocation.
use soa_harness_impl.Base.{ℕ, String, ◌≡◌, ◌≢◌, ◌↔◌, Option, some, arith}
use soa_harness_impl.Base.Result.{Result, ok, err}
use soa_harness_impl.Permission.{
  prompted, denied, capability_denied, autonomous_high_risk, auto_allowed, ResolveInput,
  ResolveOutcome, ConfigPrecedenceViolation, resolve_permission, auto_allow_decision,
  prompt_decision, deny_decision, capability_denied_decision, config_precedence_violation,
  PermissionsResolveResponse, ResolveForQueryOptions, resolve_permission_for_query, risk_key,
}

-- The query about the invocation `input`.
abbrev pub as_query : ResolveInput → Option String → ℕ → String → ResolveForQueryOptions
as_query input endpoint now version = record {
  tool = input.tool;
  capability = input.capability;
  tool_requirement = input.tool_requirement;
  policy_endpoint = endpoint;
  now = now;
  runner_version = version;
}

-- What the answer of the query says of the outcome of the resolver.
abbrev pub Agrees :
    PermissionsResolveResponse → Result ConfigPrecedenceViolation ResolveOutcome → Type 0
Agrees q (err v) =
    (q.decision ≡ config_precedence_violation) × (q.resolved_control ≡ v.registry_control)
Agrees q (ok o) =
    (q.resolved_control ≡ o.effective_control)
    × ((q.decision ≡ capability_denied_decision) ↔ (o.deny_reason ≡ some capability_denied))
    × (q.decision ≡ deny_decision → o.decision ≡ denied)
    × (q.decision ≡ auto_allow_decision
        → o.deny_reason ≢ some autonomous_high_risk
        → o.allow_category ≡ some auto_allowed)
    × (o.allow_category ≡ some auto_allowed → q.decision ≡ auto_allow_decision)
    × (o.decision ≡ prompted → q.decision ≡ prompt_decision)
    × (q.decision ≢ config_precedence_violation)

-- The query agrees with the resolver on every invocation: both report the same control; the query
-- answers ConfigPrecedenceViolation exactly when the resolver throws, and CapabilityDenied exactly
-- when the resolver denies for that reason; Deny means a denial; AutoAllow means an automatic
-- approval, unless the Autonomous handler is refused, and every automatic approval comes from it;
-- and an unanswered prompt comes from Prompt.
pub query-Agrees :
    (input : ResolveInput) (endpoint : Option String) (now : ℕ) (version : String)
    → Agrees
        (resolve_permission_for_query (as_query input endpoint now version))
        (resolve_permission input)
unfolding resolve_permission_for_query resolve_permission
query-Agrees input endpoint now version = ground arith
