-- ===== src/Permission.antt =====
-- packages/runner/src/permission/types.ts, resolver.ts and resolve-for-query.ts: the three-axis
-- permission resolver and the side-effect-free query behind /permissions/resolve. The `detail`
-- texts of trace entries and of the error are left out.
pub mod Laws
pub mod Agreement
pub mod SessionStore
mod Tests
use soa_harness_impl.Base.{
  ℕ, String, ◌≡◌, ◌↔◌, Bool, true, false, not, ◌&&◌, Option, none, some, List, [], ◌∷◌, ◌++◌, arith,
  leb, ◌==◌, if◌then◌else◌, Key, includes, string_key,
}
use soa_harness_impl.Base.Result.{Result, ok, err}
use soa_harness_impl.Registry.{
  RiskClass, read_only, mutating, egress, destructive, Control, auto_allow, prompt, deny, ToolEntry,
  is_destructive,
}

pub data Capability : Type 0 where
  read_only_mode workspace_write danger_full_access : Capability

pub data Handler : Type 0 where
  interactive coordinator autonomous : Handler

pub data ResolutionDecision : Type 0 where
  allowed prompted denied : ResolutionDecision

pub data DenyReason : Type 0 where
  capability_denied control_deny prompt_unsatisfied autonomous_high_risk : DenyReason

pub data AllowCategory : Type 0 where
  auto_allowed prompt_satisfied : AllowCategory

pub data PdaDecision : Type 0 where
  pda_allow pda_deny : PdaDecision

pub data PdaScope : Type 0 where
  once session always : PdaScope

-- attestation/types.ts; the two times are instants.
pub record CanonicalDecision : Type 0 where
  pub prompt_id : String
  pub session_id : String
  pub tool_name : String
  pub args_digest : String
  pub decision : PdaDecision
  pub scope : PdaScope
  pub not_before : ℕ
  pub not_after : ℕ
  pub nonce : String
  pub handler_kid : String

pub record ResolveInput : Type 0 where
  pub tool : ToolEntry
  pub capability : Capability
  pub handler : Handler
  pub tool_requirement : Option Control
  pub verified_pda : Option CanonicalDecision

pub record ResolveOutcome : Type 0 where
  pub decision : ResolutionDecision
  pub effective_control : Control
  pub deny_reason : Option DenyReason
  pub allow_category : Option AllowCategory

pub record ConfigPrecedenceViolation : Type 0 where
  pub tool_name : String
  pub registry_control : Control
  pub attempted_control : Control

unfoldable pub same_risk : RiskClass → RiskClass → Bool
same_risk read_only read_only = true
same_risk mutating mutating = true
same_risk egress egress = true
same_risk destructive destructive = true
same_risk _ _ = false

pub same_risk_iff : (a b : RiskClass) → (same_risk a b ≡ true) ↔ (a ≡ b)
unfolding same_risk
same_risk_iff a b = ground arith

instance abbrev pub risk_key : Key RiskClass
unfolding same_risk
risk_key = record { same = same_risk; same_iff = same_risk_iff }

-- CAPABILITY_PERMITS
unfoldable pub capability_permits : Capability → List RiskClass
unfolding same_risk
capability_permits read_only_mode = read_only ∷ []
capability_permits workspace_write = read_only ∷ mutating ∷ egress ∷ []
capability_permits danger_full_access = read_only ∷ mutating ∷ egress ∷ destructive ∷ []

-- CONTROL_RANK
abbrev pub control_rank : Control → ℕ
control_rank auto_allow = 0
control_rank prompt = 1
control_rank deny = 2

unfoldable pub is_control_tightening_or_equal : Control → Control → Bool
is_control_tightening_or_equal base candidate = leb (control_rank base) (control_rank candidate)

abbrev is_autonomous : Handler → Bool
is_autonomous autonomous = true
is_autonomous _ = false

abbrev pub outcome :
    ResolutionDecision → Control → Option DenyReason → Option AllowCategory → ResolveOutcome
outcome d c r a = record {
  decision = d;
  effective_control = c;
  deny_reason = r;
  allow_category = a;
}

-- The verified decision on a prompt, where one is present for this tool.
prompt_outcome : String → Option CanonicalDecision → ResolveOutcome
prompt_outcome name none = outcome prompted prompt none none
prompt_outcome name (some pda) =
    if pda.tool_name == name
    then (elim pda.decision [
      | pda_allow ↦ outcome allowed prompt none (some prompt_satisfied)
      | pda_deny ↦ outcome denied prompt (some prompt_unsatisfied) none
    ])
    else outcome prompted prompt none none

-- Step 5, on the control that the earlier steps converged on.
dispatch_control : ResolveInput → Control → ResolveOutcome
unfolding prompt_outcome
dispatch_control input deny = outcome denied deny (some control_deny) none
dispatch_control input auto_allow = outcome allowed auto_allow none (some auto_allowed)
dispatch_control input prompt = prompt_outcome input.tool.name input.verified_pda

-- The steps after the override.
finish : ResolveInput → Control → ResolveOutcome
unfolding dispatch_control
finish input control =
    if is_autonomous input.handler && is_destructive input.tool.risk_class
    then outcome denied control (some autonomous_high_risk) none
    else dispatch_control input control

resolve_override :
    ResolveInput → Control → Option Control → Result ConfigPrecedenceViolation ResolveOutcome
unfolding finish is_control_tightening_or_equal
resolve_override input control none = ok (finish input control)
resolve_override input control (some requirement) =
    if not (is_control_tightening_or_equal control requirement)
    then err (record {
      tool_name = input.tool.name;
      registry_control = control;
      attempted_control = requirement;
    })
    else ok (finish input requirement)

-- resolvePermission
pub resolve_permission : ResolveInput → Result ConfigPrecedenceViolation ResolveOutcome
unfolding resolve_override capability_permits
resolve_permission input =
    if not (includes (capability_permits input.capability) input.tool.risk_class)
    then ok (outcome denied input.tool.default_control (some capability_denied) none)
    else resolve_override input input.tool.default_control input.tool_requirement

pub data QueryDecision : Type 0 where
  auto_allow_decision prompt_decision deny_decision : QueryDecision
  capability_denied_decision config_precedence_violation : QueryDecision

pub data TraceResult : Type 0 where
  passed tightened rejected skipped : TraceResult

pub record TraceEntry : Type 0 where
  pub step : ℕ
  pub result : TraceResult

pub record PermissionsResolveResponse : Type 0 where
  pub decision : QueryDecision
  pub resolved_control : Control
  pub resolved_capability : Capability
  pub reason : String
  pub trace : List TraceEntry
  pub resolved_at : ℕ
  pub runner_version : String
  pub policy_endpoint_applied : Option Bool

pub record ResolveForQueryOptions : Type 0 where
  pub tool : ToolEntry
  pub capability : Capability
  pub tool_requirement : Option Control
  pub policy_endpoint : Option String
  pub now : ℕ
  pub runner_version : String

same_control : Control → Control → Bool
same_control auto_allow auto_allow = true
same_control prompt prompt = true
same_control deny deny = true
same_control _ _ = false

abbrev traced : ℕ → TraceResult → TraceEntry
traced n r = record { step = n; result = r }

abbrev respond :
    ResolveForQueryOptions
    → QueryDecision
    → Control
    → String
    → List TraceEntry
    → Option Bool
    → PermissionsResolveResponse
respond opts d c reason trace applied = record {
  decision = d;
  resolved_control = c;
  resolved_capability = opts.capability;
  reason = reason;
  trace = trace;
  resolved_at = opts.now;
  runner_version = opts.runner_version;
  policy_endpoint_applied = applied;
}

-- `policy_endpoint_applied` is false where an endpoint is configured, and absent otherwise.
policy_applied : Option String → Option Bool
policy_applied none = none
policy_applied (some endpoint) = some false

-- Step 4 and the terminal decision.
conclude : ResolveForQueryOptions → Control → List TraceEntry → PermissionsResolveResponse
unfolding policy_applied
conclude opts auto_allow trace =
    respond opts auto_allow_decision auto_allow "auto-allow-under-capability"
      (trace ++ traced 4 skipped ∷ []) (policy_applied opts.policy_endpoint)
conclude opts prompt trace =
    respond opts prompt_decision prompt "prompt-required-by-control"
      (trace ++ traced 4 skipped ∷ []) (policy_applied opts.policy_endpoint)
conclude opts deny trace =
    respond opts deny_decision deny "deny-by-control" (trace ++ traced 4 skipped ∷ [])
      (policy_applied opts.policy_endpoint)

-- Step 3.
query_override :
    ResolveForQueryOptions → Control → List TraceEntry → Option Control → PermissionsResolveResponse
unfolding conclude is_control_tightening_or_equal same_control
query_override opts control trace none = conclude opts control (trace ++ traced 3 skipped ∷ [])
query_override opts control trace (some requirement) =
    if not (is_control_tightening_or_equal control requirement)
    then respond opts config_precedence_violation control "toolRequirements-loosens-default"
        (trace ++ traced 3 rejected ∷ []) none
    else if same_control control requirement
    then conclude opts control (trace ++ traced 3 passed ∷ [])
    else conclude opts requirement (trace ++ traced 3 tightened ∷ [])

-- resolvePermissionForQuery
pub resolve_permission_for_query : ResolveForQueryOptions → PermissionsResolveResponse
unfolding query_override capability_permits
resolve_permission_for_query opts =
    if not (includes (capability_permits opts.capability) opts.tool.risk_class)
    then respond opts capability_denied_decision opts.tool.default_control
        "risk-class-not-permitted-under-capability" (traced 1 passed ∷ traced 2 rejected ∷ []) none
    else query_override opts opts.tool.default_control (traced 1 passed ∷ traced 2 passed ∷ [])
        opts.tool_requirement
