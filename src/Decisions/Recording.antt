-- ===== src/Decisions/Recording.antt =====
-- packages/runner/src/permission/decisions-route.ts: the audit row and what follows it: the
-- committed side effect, the charge of the turn, the events and the spans.
use soa_harness_impl.Base.{
  String, Bool, true, false, Option, none, some, List, [], ◌∷◌, ◌++◌, leb, string_key,
  if◌then◌else◌, option_or,
}
use soa_harness_impl.Audit.{Value, str, time, AuditRecord}
use soa_harness_impl.Audit.Chain.{Crypto, append}
use soa_harness_impl.Audit.Sink.{AuditSink, record_audit_row}
use soa_harness_impl.Base.{Key}
use soa_harness_impl.Base.Dict.{Dict}
use soa_harness_impl.Permission.{QueryDecision, auto_allow_decision}
use soa_harness_impl.Budget.{BudgetTracker, ProjectionSnapshot, get_projection, record_turn}
use soa_harness_impl.Stream.{StreamEventEmitter}
use soa_harness_impl.Decisions.Types.{
  BracketFiles, World, Options, Request, CachedDecisionFields, DecisionSpans, decision_text,
  capability_text, control_text, at_record, at_append, overrun_event, decision_event, outcome_event,
  tool_call, record_id, prompt_id,
}
use soa_harness_impl.Decisions.Checks.{Checked, object, emit, terminate_for_budget_exhausted}
use soa_harness_impl.Decisions.Bracket.{Opened, commit}
use soa_harness_impl.Decisions.Verdict.{Verdict, Case, retention_class}

unfoldable pub text_or : Option String → String → String
text_or none otherwise = otherwise
text_or (some s) otherwise = s

unfoldable pub billing_member : Option String → List (String × Value)
billing_member none = []
billing_member (some tag) = ("billing_tag", str tag) ∷ []

unfoldable pub is_auto_allow : QueryDecision → Bool
is_auto_allow auto_allow_decision = true
is_auto_allow _ = false

unfoldable pub over : Option ProjectionSnapshot → Bool
over none = false
over (some snapshot) = leb snapshot.max_tokens_per_run snapshot.cumulative_tokens_consumed

module _ (crypto : Crypto) ⦃same_hash : Key crypto.Digest⦄ {F K : Type 0}
    (files : BracketFiles crypto.Digest F) (opts : Options K) where
  unfoldable pub recorded_in :
      Option (AuditSink crypto.Digest)
      → AuditRecord crypto.Digest
      → Option (AuditSink crypto.Digest)
  recorded_in none row = none
  recorded_in (some s) row = some (record_audit_row s row)

  unfoldable pub decision_row : Request → Case crypto.Digest → Verdict → Dict String Value
  unfolding text_or billing_member
  decision_row r k v = object (
      ("id", str (record_id r))
      ∷ ("timestamp", time (r.clock at_record))
      ∷ ("session_id", str k.checked.session_id)
      ∷ ("subject_id", str "none")
      ∷ ("tool", str k.checked.tool.name)
      ∷ ("args_digest", str k.args_digest)
      ∷ ("capability", str (capability_text k.resolved.resolved_capability))
      ∷ ("control", str (control_text k.resolved.resolved_control))
      ∷ ("handler", str "Interactive")
      ∷ ("decision", str (decision_text v.decision))
      ∷ ("reason", str v.reason)
      ∷ ("signer_key_id", str (text_or v.signer ""))
      ∷ ("retention_class", str (retention_class k.checked.session.active_mode))
      ∷ billing_member k.checked.session.billing_tag)

  unfoldable pub cached_fields :
      Request
      → Case crypto.Digest
      → Verdict
      → AuditRecord crypto.Digest
      → CachedDecisionFields crypto.Digest
  cached_fields r k v row = record {
    audit_record_id = record_id r;
    audit_this_hash = row.this_hash;
    decision = v.decision;
    resolved_capability = k.resolved.resolved_capability;
    resolved_control = k.resolved.resolved_control;
    reason = v.reason;
    handler_accepted = v.accepted;
    recorded_at = r.clock at_record;
  }

  -- The audit row, on the chain and at the sink, and the committed side effect.
  unfoldable pub record_decision :
      World crypto.Digest F
      → Request
      → Case crypto.Digest
      → Verdict
      → World crypto.Digest F × AuditRecord crypto.Digest
  unfolding recorded_in decision_row cached_fields
  record_decision w r k v =
      let (chain, row) = append crypto w.chain (decision_row r k v) (r.clock at_append) in
      (
        commit files (record w { chain = chain; sink = recorded_in w.sink row }) r
            (cached_fields r k v row) k.opened,
        row,
      )

  unfoldable pub charge :
      World crypto.Digest F → Request → String → Option BudgetTracker → World crypto.Digest F
  unfolding over
  charge w r session_id none = w
  charge w r session_id (some t) =
      let cached_tokens = option_or opts.synthetic_cache_hit 0 in
      let charged = record_turn t session_id (record {
        actual_total_tokens = option_or opts.budget_per_turn_estimate 512;
        prompt_tokens_cached = some cached_tokens;
        completion_tokens_cached = some cached_tokens;
        recorded_at = none;
      }) in
      let charged_world = record w { budget = some charged } in
      let ended = terminate_for_budget_exhausted charged_world r overrun_event session_id in
      if over (get_projection charged session_id 0) then ended else charged_world

  -- The turn is charged; a session that has used its budget up is ended.
  unfoldable pub charge_turn : World crypto.Digest F → Request → String → World crypto.Digest F
  unfolding charge
  charge_turn w r session_id = charge w r session_id w.budget

  unfoldable pub emit_pending :
      World crypto.Digest F
      → Request
      → Checked
      → Option (List (String × Value))
      → World crypto.Digest F
  emit_pending w r c none = w
  emit_pending w r c (some outcome) =
      emit w r outcome_event c.session_id "PreToolUseOutcome" (
        object
          (("tool_call_id", str (r.draw tool_call)) ∷ ("tool_name", str c.tool.name) ∷ outcome))

  -- PermissionDecision, then the outcome of the PreToolUse hook. The prompt id is the record's, with
  -- another prefix.
  unfoldable pub emit_decision :
      World crypto.Digest F
      → Request
      → Case crypto.Digest
      → Verdict
      → Option (List (String × Value))
      → World crypto.Digest F
  unfolding emit_pending is_auto_allow text_or billing_member
  emit_decision w r k v pending_outcome =
      let told = emit w r decision_event k.checked.session_id "PermissionDecision" (
        object (
          ("prompt_id", str (prompt_id r))
          ∷ ("decision", str (if is_auto_allow v.decision then "allow" else "deny"))
          ∷ ("scope", str "once")
          ∷ ("signer_kid", str (text_or v.signer "runtime-resolver"))
          ∷ ("reason", str v.reason)
          ∷ billing_member k.checked.session.billing_tag)) in
      emit_pending told r k.checked pending_outcome

  unfoldable pub key_of : Option (Opened crypto.Digest) → Option String
  key_of none = none
  key_of (some o) = some o.key

  unfoldable pub event_id_of : Option StreamEventEmitter → Request → Option String
  event_id_of none r = none
  event_id_of (some m) r = some (r.draw decision_event)

  unfoldable pub span_in :
      World crypto.Digest F
      → Request
      → Case crypto.Digest
      → Verdict
      → Option (List DecisionSpans)
      → Option (List DecisionSpans)
  unfolding key_of event_id_of
  span_in w r k v none = none
  span_in w r k v (some spans) = some (
      spans
      ++ record {
        session_id = k.checked.session_id;
        turn_id = option_or (key_of k.opened) (record_id r);
        tool_name = k.checked.tool.name;
        tool_risk_class = k.checked.tool.risk_class;
        permission_decision = v.decision;
        permission_decision_event_id = event_id_of w.emitter r;
      }
        ∷ [])

  unfoldable pub emit_spans :
      World crypto.Digest F → Request → Case crypto.Digest → Verdict → World crypto.Digest F
  unfolding span_in
  emit_spans w r k v = record w { spans = span_in w r k v w.spans }
