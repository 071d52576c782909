-- ===== src/Decisions/Checks.antt =====
-- packages/runner/src/permission/decisions-route.ts: the checks of a request that change nothing,
-- and the two terminations of a session.
use soa_harness_impl.Base.{
  ℕ, String, Bool, true, false, not, ◌&&◌, Option, none, some, List, [], ◌∷◌, ltb, ◌==◌, string_key,
  if◌then◌else◌,
}
use soa_harness_impl.Base.Result.{Result, ok, err, ◌>>=◌, ◌>>◌, ensure, or_throw}
use soa_harness_impl.Base.Dict.{Dict}
use soa_harness_impl.Registry
use soa_harness_impl.Registry.{RiskClass, read_only, mutating, egress, destructive, ToolEntry}
use soa_harness_impl.Permission.SessionStore
use soa_harness_impl.Permission.SessionStore.{SessionRecord, InMemorySessionStore}
use soa_harness_impl.Audit.{Value, str}
use soa_harness_impl.Audit.Sink.{AuditSink, should_refuse_mutating}
use soa_harness_impl.Budget
use soa_harness_impl.Budget.{BudgetTracker}
use soa_harness_impl.Stream
use soa_harness_impl.Stream.{StreamEventEmitter, EmittedEvent, EmitError, EmitParams}
use soa_harness_impl.Hook.Reentrancy.{Tracker, session_for_pid}
use soa_harness_impl.Decisions.Types.{
  World, Options, Request, RequestBody, Response, refused, at_emit, Draw,
}

-- An object literal, its keys distinct.
abbrev pub object : List (String × Value) → Dict String Value
object l = record { entries = l }

-- The types that the handler emits are known ones, so that `emit` does not throw.
unfoldable pub emitted :
    StreamEventEmitter → Result EmitError (StreamEventEmitter × EmittedEvent) → StreamEventEmitter
emitted m (ok (next, e)) = next
emitted m (err x) = m

-- emitter.emit, where an emitter is wired
unfoldable pub emit_with :
    Request → Draw → String → String → Dict String Value → StreamEventEmitter → StreamEventEmitter
unfolding emitted
emit_with r draw session_id type payload m = emitted m (
    Stream.emit m (record {
      session_id = session_id;
      type = type;
      payload = payload;
      workflow_state_id = none;
      now = r.clock at_emit;
      event_id = r.draw draw;
    }))

unfoldable pub emit_opt :
    Request
    → Draw
    → String
    → String
    → Dict String Value
    → Option StreamEventEmitter
    → Option StreamEventEmitter
unfolding emit_with
emit_opt r draw session_id type payload none = none
emit_opt r draw session_id type payload (some m) = some (emit_with r draw session_id type payload m)

unfoldable pub forget_budget : String → Option BudgetTracker → Option BudgetTracker
forget_budget session_id none = none
forget_budget session_id (some t) = some (Budget.remove t session_id)

unfoldable pub owner_in : Option Tracker → ℕ → Option String
owner_in none pid = none
owner_in (some t) pid = session_for_pid t pid

unfoldable pub owner_of : Option Tracker → Option ℕ → Option String
unfolding owner_in
owner_of t none = none
owner_of t (some pid) = let owner = owner_in t pid in if ltb 0 pid then owner else none

module _ {D F : Type 0} where
  unfoldable pub emit : World D F → Request → Draw → String → String → Dict String Value → World D F
  unfolding emit_opt
  emit w r draw session_id type payload = record w {
    emitter = emit_opt r draw session_id type payload w.emitter;
  }

  -- SessionEnd on the stream, and the session's bearer revoked.
  unfoldable pub end_session : World D F → Request → Draw → String → String → World D F
  unfolding emit
  end_session w r draw session_id stop_reason =
      let told =
        emit w r draw session_id "SessionEnd" (object (("stop_reason", str stop_reason) ∷ [])) in
      record told { sessions = SessionStore.revoke told.sessions session_id }

  -- terminateForBudgetExhausted
  unfoldable pub terminate_for_budget_exhausted : World D F → Request → Draw → String → World D F
  unfolding end_session forget_budget
  terminate_for_budget_exhausted w r draw session_id =
      let ended = end_session w r draw session_id "BudgetExhausted" in
      record ended { budget = forget_budget session_id ended.budget }

  -- The session whose hook the request claims to come from, if that hook is in flight.
  unfoldable pub owning_session : World D F → Request → Option String
  unfolding owner_of
  owning_session w r = owner_of w.reentrancy r.hook_pid

unfoldable pub is_read_only : RiskClass → Bool
is_read_only read_only = true
is_read_only _ = false

unfoldable pub is_explore : Option String → Bool
is_explore none = false
is_explore (some type) = type == "explore"

-- What the checks establish.
pub record Checked : Type 0 where
  pub tool : ToolEntry
  pub session : SessionRecord
  pub session_id : String
  pub args_digest : String
  pub pda : Option String

unfoldable pub refusal : {D : Type 0} → ℕ → String → Response D
refusal code error = refused code error none

unfoldable pub denial : {D : Type 0} → String → Response D
denial reason = refused 403 "PermissionDenied" (some reason)

unfoldable pub sink_refuses : {D : Type 0} → Option (AuditSink D) → RiskClass → Bool
sink_refuses none risk = false
sink_refuses (some s) risk = should_refuse_mutating s risk

unfoldable pub can_decide : Option SessionRecord → Option SessionRecord
can_decide none = none
can_decide (some s) = if s.can_decide then some s else none

module _ {D F K : Type 0} (hash : String → String) (opts : Options K) where
  -- The checks of the tool, once the session is known.
  unfoldable pub check_tool : World D F → RequestBody → SessionRecord → Result (Response D) Checked
  unfolding is_read_only is_explore refusal denial sink_refuses
  check_tool w body session =
      or_throw (Registry.lookup opts.registry body.tool) (refusal 404 "unknown-tool") >>= λ tool.
      ensure (not (is_explore opts.agent_type && not (is_read_only tool.risk_class)))
        (denial "agent-type-insufficient")
      >> (ensure (not (sink_refuses w.sink tool.risk_class)) (denial "audit-sink-unreachable")
          >> ok (record {
            tool = tool;
            session = session;
            session_id = body.session_id;
            args_digest = body.args_digest;
            pda = body.pda;
          }))

  -- The checks of the session, then those of the tool.
  unfoldable pub check_session : World D F → RequestBody → String → Result (Response D) Checked
  unfolding refusal can_decide check_tool
  check_session w body bearer =
      ensure (SessionStore.exists w.sessions body.session_id) (refusal 404 "unknown-session")
      >> (ensure (SessionStore.validate hash w.sessions body.session_id bearer)
            (refusal 403 "session-bearer-mismatch")
          >> (or_throw (can_decide (SessionStore.get_record w.sessions body.session_id))
                (refusal 403 "insufficient-scope")
              >>= λ session. check_tool w body session))

  -- The checks after the rate limit.
  unfoldable pub check_request : World D F → Request → String → Result (Response D) Checked
  unfolding refusal check_session
  check_request w r bearer =
      or_throw r.body (refusal 400 "malformed-request") >>= λ body. check_session w body bearer
