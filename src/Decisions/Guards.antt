-- ===== src/Decisions/Guards.antt =====
-- packages/runner/src/permission/decisions-route.ts: the stages before the bracket that change
-- something: the residency row, the budget's refusal and the PreToolUse hook.
use soa_harness_impl.Base.{
  ℕ, String, Bool, true, false, ◌&&◌, Option, none, some, List, [], ◌∷◌, ◌++◌, ◌==◌, string_key,
  if◌then◌else◌,
}
use soa_harness_impl.Base.Result.{Result, ok, err}
use soa_harness_impl.Base.Text.{concat}
use soa_harness_impl.Base.Dict.{Dict}
use soa_harness_impl.Audit.{Value, Items, nil, cons, Members, end, member, str, time, arr, obj}
use soa_harness_impl.Audit.Chain.{Crypto, append}
use soa_harness_impl.Budget
use soa_harness_impl.Budget.{BudgetTracker, would_exhaust}
use soa_harness_impl.Hook.{
  HookDecision, deny, prompt, HookOutcome, HookReason, hook_timeout, hook_crashed,
  hook_nonzero_exit, hook_stdout_invalid,
}
use soa_harness_impl.Hook.Reentrancy
use soa_harness_impl.Hook.Reentrancy.{Tracker}
use soa_harness_impl.Privacy.Residency.{
  SubReason, unknown_region, tool_declaration_mismatch, attestation_mismatch, ResidencyDecision,
  ResidencyDecisionInput, ResidencyPayload, residency_decision, residency_audit_payload,
}
use soa_harness_impl.Decisions.Types.{
  World, Options, Request, HookBody, Response, residency_refused, ToolResidencyMetadata,
  at_residency, at_append, budget_event, pre_hook_event, tool_call,
}
use soa_harness_impl.Decisions.Checks.{
  Checked, object, denial, emit, terminate_for_budget_exhausted,
}
use soa_harness_impl.Decisions.Verdict.{retention_class}

unfoldable pub sub_reason_text : SubReason → String
sub_reason_text unknown_region = "unknown-region"
sub_reason_text tool_declaration_mismatch = "tool-declaration-mismatch"
sub_reason_text attestation_mismatch = "attestation-mismatch"

unfoldable pub hook_reason_text : HookReason → String
hook_reason_text hook_timeout = "hook-timeout"
hook_reason_text hook_crashed = "hook-crashed"
hook_reason_text hook_nonzero_exit = "hook-nonzero-exit"
hook_reason_text hook_stdout_invalid = "hook-stdout-invalid"

unfoldable pub texts : List String → Items
texts [] = nil
texts (s ∷ ss) = cons (str s) (texts ss)

unfoldable pub with_sub_reason : Option SubReason → Members
unfolding sub_reason_text
with_sub_reason none = end
with_sub_reason (some s) = member "sub_reason" (str (sub_reason_text s)) end

unfoldable pub residency_value : ResidencyPayload → Value
unfolding texts with_sub_reason
residency_value p = obj (
    member "tool" (str p.tool) (
      member "declared_location" (arr (texts p.declared_location)) (
        member "attested_location" (arr (texts p.attested_location)) (
          member "network_signal_regions" (arr (texts p.network_signal_regions)) (
            member "decision" (str (if p.allowed then "allow" else "deny"))
              (with_sub_reason p.sub_reason))))))

unfoldable pub lookup_residency :
    Option (String → Option ToolResidencyMetadata) → String → Option ToolResidencyMetadata
lookup_residency none tool = none
lookup_residency (some f) tool = f tool

unfoldable pub residency_input :
    String → List String → Option ToolResidencyMetadata → ResidencyDecisionInput
residency_input tool pin none = record {
  tool = tool;
  data_residency = pin;
  declared_location = none;
  attested_location = none;
  network_signal_regions = none;
}
residency_input tool pin (some meta) = record {
  tool = tool;
  data_residency = pin;
  declared_location = meta.declared_location;
  attested_location = meta.attested_location;
  network_signal_regions = meta.network_signal_regions;
}

unfoldable pub exhausts : Option BudgetTracker → String → Bool
exhausts none session_id = false
exhausts (some t) session_id = Budget.has t session_id && would_exhaust t session_id 0

unfoldable pub sub_reason_suffix : Option SubReason → String
unfolding concat sub_reason_text
sub_reason_suffix none = ""
sub_reason_suffix (some s) = concat " sub_reason=" (sub_reason_text s)

unfoldable pub residency_reason : ResidencyPayload → String
unfolding sub_reason_suffix concat
residency_reason p =
    concat "residency-layered-defence decision="
      (concat (if p.allowed then "allow" else "deny") (sub_reason_suffix p.sub_reason))

-- The body of the residency row.
unfoldable pub residency_row : Request → Checked → ResidencyPayload → Dict String Value
unfolding residency_value residency_reason
residency_row r c p = object (
    ("session_id", str c.session_id)
    ∷ ("decision", str "ResidencyCheck")
    ∷ ("tool", str c.tool.name)
    ∷ ("subject_id", str c.session.user_sub)
    ∷ ("reason", str (residency_reason p))
    ∷ ("timestamp", time (r.clock at_residency))
    ∷ ("residency", residency_value p)
    ∷ ("retention_class", str (retention_class c.session.active_mode))
    ∷ [])

unfoldable pub after_residency : {D : Type 0} → Option SubReason → Result (Response D) (Unit {0})
after_residency none = ok tt
after_residency (some s) = err (residency_refused s)

-- What the PreToolUse hook leaves: whether it forces a prompt, the digest of the arguments, and the
-- outcome that is emitted later, as its payload without the tool's call.
pub record PreHook : Type 0 where
  pub forced : Bool
  pub args_digest : String
  pub pending_outcome : Option (List (String × Value))

-- A text that is there and not empty.
unfoldable pub reason_member : Option String → List (String × Value) → List (String × Value)
reason_member none otherwise = otherwise
reason_member (some s) otherwise = if s == "" then otherwise else ("reason", str s) ∷ []

unfoldable pub body_reason : Option HookBody → Option String
body_reason none = none
body_reason (some b) = b.reason

unfoldable pub replace_args_of : Option HookBody → Option Value
replace_args_of none = none
replace_args_of (some b) = b.replace_args

unfoldable pub is_prompt_hook : HookDecision → Bool
is_prompt_hook prompt = true
is_prompt_hook _ = false

unfoldable pub forced_reason : HookDecision → List (String × Value)
forced_reason prompt = ("reason", str "hook-forced-prompt") ∷ []
forced_reason _ = []

-- `stdout?.reason ?? reason ?? "hook-deny"`
unfoldable pub deny_reason : Option String → Option HookReason → String
unfolding hook_reason_text
deny_reason (some s) reason = s
deny_reason none (some reason) = hook_reason_text reason
deny_reason none none = "hook-deny"

-- `onSpawn` and `onExit`, where the tracker is wired and the process was spawned
unfoldable pub tracked_in : String → Option ℕ → Option Tracker → Option Tracker
tracked_in session_id pid none = none
tracked_in session_id none (some t) = some t
tracked_in session_id (some pid) (some t) =
    some (Reentrancy.end (Reentrancy.begin t session_id pid) session_id pid)

unfoldable pub allowed_hook :
    (Value → String) → Checked → HookOutcome HookBody → Option Value → PreHook
unfolding reason_member body_reason is_prompt_hook forced_reason
allowed_hook digest c o none = record {
  forced = is_prompt_hook o.decision;
  args_digest = c.args_digest;
  pending_outcome = some (
      ("outcome", str "allow") ∷ reason_member (body_reason o.stdout) (forced_reason o.decision)
      ++ ("args_digest_before", str c.args_digest) ∷ []);
}
allowed_hook digest c o (some args) = record {
  forced = is_prompt_hook o.decision;
  args_digest = digest args;
  pending_outcome = some (
      ("outcome", str "replace_args") ∷ reason_member (body_reason o.stdout) []
      ++ ("args_digest_before", str c.args_digest) ∷ ("args_digest_after", str (digest args)) ∷ []);
}

module _ {D F : Type 0} where
  unfoldable pub tracked : World D F → String → Option ℕ → World D F
  unfolding tracked_in
  tracked w session_id pid = record w { reentrancy = tracked_in session_id pid w.reentrancy }

  -- What the hook's decision makes of the request.
  unfoldable pub hook_decided :
      World D F
      → (Value → String)
      → Request
      → Checked
      → HookOutcome HookBody
      → HookDecision
      → World D F × Result (Response D) PreHook
  unfolding allowed_hook deny_reason body_reason replace_args_of
  hook_decided w digest r c o deny = (
    emit w r pre_hook_event c.session_id "PreToolUseOutcome" (
        object (
          ("tool_call_id", str (r.draw tool_call))
          ∷ ("tool_name", str c.tool.name)
          ∷ ("outcome", str "deny")
          ∷ ("reason", str (deny_reason (body_reason o.stdout) o.reason))
          ∷ ("args_digest_before", str c.args_digest)
          ∷ [])),
    err (denial "hook-deny"),
  )
  hook_decided w digest r c o _ = (w, ok (allowed_hook digest c o (replace_args_of o.stdout)))

  -- The PreToolUse hook, where a command is configured.
  unfoldable pub run_pre_hook :
      World D F
      → Bool
      → (Value → String)
      → Request
      → Checked
      → World D F × Result (Response D) PreHook
  unfolding hook_decided
  run_pre_hook w configured digest r c =
      let ran =
        hook_decided (tracked w c.session_id r.pre_hook.pid) digest r c r.pre_hook.outcome
          r.pre_hook.outcome.decision in
      if configured
      then ran
      else (w, ok (record { forced = false; args_digest = c.args_digest; pending_outcome = none }))

  -- The pre-call check of the budget.
  unfoldable pub check_budget :
      World D F → Request → Checked → World D F × Result (Response D) (Unit {0})
  unfolding exhausts
  check_budget w r c =
      if exhausts w.budget c.session_id
      then (
        terminate_for_budget_exhausted w r budget_event c.session_id,
        err (denial "budget-exhausted"),
      )
      else (w, ok tt)

module _ (crypto : Crypto) {F K : Type 0} (opts : Options K) where
  unfoldable pub residency_checked :
      World crypto.Digest F
      → Request
      → Checked
      → ResidencyDecision
      → World crypto.Digest F × Result (Response crypto.Digest) (Unit {0})
  unfolding residency_row after_residency
  residency_checked w r c decision =
      let p = residency_audit_payload decision in
      (
        record w { chain = (append crypto w.chain (residency_row r c p) (r.clock at_append)).0 },
        after_residency p.sub_reason,
      )

  unfoldable pub residency_pinned :
      World crypto.Digest F
      → Request
      → Checked
      → Option (List String)
      → World crypto.Digest F × Result (Response crypto.Digest) (Unit {0})
  unfolding residency_checked residency_input lookup_residency
  residency_pinned w r c none = (w, ok tt)
  residency_pinned w r c (some []) = (w, ok tt)
  residency_pinned w r c (some (region ∷ pin)) = residency_checked w r c (
      residency_decision (
        residency_input c.tool.name (region ∷ pin)
          (lookup_residency opts.tool_residency c.tool.name)))

  -- The residency guard, where regions are pinned; its decision is a row of the chain.
  unfoldable pub check_residency :
      World crypto.Digest F
      → Request
      → Checked
      → World crypto.Digest F × Result (Response crypto.Digest) (Unit {0})
  unfolding residency_pinned
  check_residency w r c = residency_pinned w r c opts.data_residency
