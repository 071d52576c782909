-- ===== src/Permission/Tests.antt =====
-- Inputs at which the theorems of the resolver apply.
use soa_harness_impl.Base.{◌≡◌, ◌↔◌, ◌<◌, ◌≤◌, refl, none, some, string_key}
use soa_harness_impl.Base.Result.{err}
use soa_harness_impl.Registry.{ToolEntry, destructive, auto_allow, prompt, deny}
use soa_harness_impl.Permission.{
  ResolveInput, ResolveOutcome, CanonicalDecision, ConfigPrecedenceViolation, pda_allow, once,
  danger_full_access, interactive, autonomous, allowed, prompt_satisfied, outcome, control_rank,
  resolve_permission, resolve_override, finish, dispatch_control, prompt_outcome,
  capability_permits, same_risk, resolve_permission_for_query,
}
use soa_harness_impl.Permission.Laws.{Permits, Throws, resolve-allowed, resolve-Throws}
use soa_harness_impl.Permission.Agreement.{as_query, Agrees, query-Agrees}

abbrev drop_table : ToolEntry
drop_table = record {
  name = "drop_table";
  risk_class = destructive;
  default_control = prompt;
  description = none;
  idempotency_retention_seconds = none;
  registered_at = none;
  registration_source = none;
}

abbrev approval : CanonicalDecision
approval = record {
  prompt_id = "p1";
  session_id = "ses_1";
  tool_name = "drop_table";
  args_digest = "d";
  decision = pda_allow;
  scope = once;
  not_before = 0;
  not_after = 10;
  nonce = "n";
  handler_kid = "k";
}

abbrev approved : ResolveInput
approved = record {
  tool = drop_table;
  capability = danger_full_access;
  handler = interactive;
  tool_requirement = none;
  verified_pda = some approval;
}

abbrev loosened : ResolveInput
loosened = record approved { tool_requirement = some auto_allow }

abbrev satisfied : ResolveOutcome
satisfied = outcome allowed prompt none (some prompt_satisfied)

resolve-allowed_example :
    Permits danger_full_access destructive
    × ¬ ((interactive ≡ autonomous) × (destructive ≡ destructive))
    × (control_rank prompt ≤ control_rank prompt)
    × (control_rank prompt < control_rank deny)
unfolding resolve_permission resolve_override finish dispatch_control prompt_outcome
    capability_permits same_risk
resolve-allowed_example = resolve-allowed approved satisfied refl refl

abbrev refusal : ConfigPrecedenceViolation
refusal = record {
  tool_name = "drop_table";
  registry_control = prompt;
  attempted_control = auto_allow;
}

resolve-Throws_example :
    (resolve_permission loosened ≡ err refusal)
    ↔ (Permits danger_full_access destructive × Throws loosened prompt (some auto_allow) refusal)
resolve-Throws_example = resolve-Throws loosened refusal

query-Agrees_example :
    Agrees
      (resolve_permission_for_query (as_query loosened none 5 "1.0"))
      (resolve_permission loosened)
query-Agrees_example = query-Agrees loosened none 5 "1.0"
