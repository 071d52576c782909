-- ===== src/Decisions/Verdict.antt =====
-- packages/runner/src/permission/decisions-route.ts: what a signed decision makes of the resolver's
-- decision, with the roles of its signer and the escalation to a human.
use soa_harness_impl.Base.{
  String, Bool, true, false, not, ◌&&◌, Option, none, some, [], ◌∷◌, ◌==◌, string_key,
  if◌then◌else◌,
}
use soa_harness_impl.Base.Result.{Result, ok, err}
use soa_harness_impl.Base.Dict.{Dict}
use soa_harness_impl.Registry.{RiskClass, mutating, destructive}
use soa_harness_impl.Permission.{
  QueryDecision, auto_allow_decision, prompt_decision, deny_decision, capability_denied_decision,
  config_precedence_violation, Capability, danger_full_access, PermissionsResolveResponse,
}
use soa_harness_impl.Audit.{Value, str, time}
use soa_harness_impl.Audit.Chain.{Crypto, append}
use soa_harness_impl.Attestation.Pda.{
  PdaFailureReason, jws_malformed, header_malformed, payload_malformed, VerifiedPda, Payload,
  VerifyPdaOptions, verify_pda,
}
use soa_harness_impl.Attestation.HandlerKey
use soa_harness_impl.Attestation.HandlerKey.{
  HandlerKeyRegistry, KeyError, handler_key_expired, handler_key_revoked, HandlerRole, interactive,
  coordinator, autonomous, assert_usable,
}
use soa_harness_impl.Attestation.Escalation.{
  EscalationOutcome, approved, denied, timeout, hitl_required, role_of,
}
use soa_harness_impl.Decisions.Types.{
  BracketFiles, World, Options, Request, Response, refused, capability_text, control_text,
  at_verify, at_key, at_escalation, at_append, escalation_record,
}
use soa_harness_impl.Decisions.Checks.{Checked, object, refusal, denial}
use soa_harness_impl.Decisions.Bracket.{Opened, compensate}

-- `handlerAccepted`, `finalDecision`, `finalReason` and `pdaSignerKid`
pub record Verdict : Type 0 where
  pub accepted : Bool
  pub decision : QueryDecision
  pub reason : String
  pub signer : Option String

pub data Expected : Type 0 where
  expect_allow expect_deny either : Expected

-- resolverImpliesPdaDecision
unfoldable pub resolver_implies_pda_decision : QueryDecision → Expected
resolver_implies_pda_decision auto_allow_decision = expect_allow
resolver_implies_pda_decision prompt_decision = either
resolver_implies_pda_decision deny_decision = expect_deny
resolver_implies_pda_decision capability_denied_decision = expect_deny
resolver_implies_pda_decision config_precedence_violation = expect_deny

unfoldable pub is_text : String → Option String → Bool
is_text text none = false
is_text text (some s) = s == text

unfoldable pub mismatches : Expected → Payload → Bool
unfolding is_text
mismatches either p = false
mismatches expect_allow p = not (is_text "allow" p.decision)
mismatches expect_deny p = not (is_text "deny" p.decision)

unfoldable pub is_malformed : PdaFailureReason → Bool
is_malformed jws_malformed = true
is_malformed header_malformed = true
is_malformed payload_malformed = true
is_malformed _ = false

unfoldable pub high_risk : RiskClass → Bool
high_risk mutating = true
high_risk destructive = true
high_risk _ = false

unfoldable pub is_prompt_decision : QueryDecision → Bool
is_prompt_decision prompt_decision = true
is_prompt_decision _ = false

unfoldable pub retention_class : Capability → String
retention_class danger_full_access = "dfa-365d"
retention_class _ = "standard-90d"

-- The decision before any signed decision is looked at.
unfoldable pub unsigned : Bool → PermissionsResolveResponse → Verdict
unsigned forced resolved = record {
  accepted = true;
  decision = if forced then prompt_decision else resolved.decision;
  reason = if forced then "hook-forced-prompt" else resolved.reason;
  signer = none;
}

unfoldable pub key_refusal : {D : Type 0} → KeyError → Response D
key_refusal (handler_key_revoked kid revoked_at reason) =
    refused 403 "HandlerKeyRevoked" (some "kid-revoked")
key_refusal (handler_key_expired kid age_days enrolled_at max_age_days) =
    refused 403 "HandlerKeyExpired" (some "key-age-exceeded")

-- What stays the same in this part of a request.
pub record Case (D : Type 0) : Type 0 where
  pub checked : Checked
  pub args_digest : String
  pub resolved : PermissionsResolveResponse
  pub forced : Bool
  pub opened : Option (Opened D)

module _ (crypto : Crypto) {F K : Type 0} (files : BracketFiles crypto.Digest F) (opts : Options K)
    (r : Request) (k : Case crypto.Digest) where
  -- The row of an escalation that was not approved.
  unfoldable pub escalation_row : String → String → String → Dict String Value
  escalation_row handler reason signer = object (
      ("id", str (r.draw escalation_record))
      ∷ ("timestamp", time (r.clock at_escalation))
      ∷ ("session_id", str k.checked.session_id)
      ∷ ("subject_id", str "none")
      ∷ ("tool", str k.checked.tool.name)
      ∷ ("args_digest", str k.args_digest)
      ∷ ("capability", str (capability_text k.resolved.resolved_capability))
      ∷ ("control", str (control_text k.resolved.resolved_control))
      ∷ ("handler", str handler)
      ∷ ("decision", str "Deny")
      ∷ ("reason", str reason)
      ∷ ("signer_key_id", str signer)
      ∷ ("retention_class", str (retention_class k.checked.session.active_mode))
      ∷ [])

  -- The side effect is compensated, and the request refused.
  unfoldable pub give_up :
      World crypto.Digest F
      → Response crypto.Digest
      → World crypto.Digest F × Result (Response crypto.Digest) Verdict
  give_up w response = (compensate files w r k.opened, err response)

  -- A row on the chain first.
  unfoldable pub deny_escalation :
      World crypto.Digest F
      → String
      → String
      → String
      → World crypto.Digest F × Result (Response crypto.Digest) Verdict
  unfolding give_up escalation_row
  deny_escalation w handler reason signer =
      give_up
        (record w {
          chain =
              (append crypto w.chain (escalation_row handler reason signer) (r.clock at_append)).0;
        })
        (denial reason)

  -- Forgery resistance: the signed decision is the one that the resolver's implies, if it does.
  unfoldable pub match_signed :
      World crypto.Digest F
      → Payload
      → String
      → World crypto.Digest F × Result (Response crypto.Digest) Verdict
  unfolding give_up unsigned resolver_implies_pda_decision mismatches
  match_signed w payload signer =
      if mismatches (resolver_implies_pda_decision k.resolved.decision) payload
      then give_up w (refusal 403 "pda-decision-mismatch")
      else (w, ok (record (unsigned k.forced k.resolved) { signer = some signer }))

  unfoldable pub escalated :
      World crypto.Digest F
      → Payload
      → String
      → EscalationOutcome
      → World crypto.Digest F × Result (Response crypto.Digest) Verdict
  unfolding deny_escalation give_up match_signed
  escalated w payload signer (timeout at) =
      deny_escalation w "Autonomous" "escalation-timeout" signer
  escalated w payload signer (hitl_required kid detail at) = give_up w (denial "hitl-required")
  escalated w payload signer (denied kid at) = deny_escalation w "Interactive" "hitl-denied" kid
  escalated w payload signer (approved kid at) =
      match_signed w payload (if kid == "" then signer else kid)

  -- The signer's role, where the resolver prompts for a tool of high risk.
  unfoldable pub by_role :
      World crypto.Digest F
      → Payload
      → String
      → Option HandlerRole
      → World crypto.Digest F × Result (Response crypto.Digest) Verdict
  unfolding give_up escalated deny_escalation match_signed
  by_role w payload signer (some coordinator) = give_up w (denial "hitl-required")
  by_role w payload signer (some autonomous) =
      if opts.has_escalation_coordinator
      then escalated w payload signer r.escalation
      else deny_escalation w "Autonomous" "escalation-timeout" signer
  by_role w payload signer (some interactive) = match_signed w payload signer
  by_role w payload signer none = match_signed w payload signer

  -- A key that is revoked or too old ends the request; the side effect stays pending.
  unfoldable pub with_usable :
      World crypto.Digest F
      → HandlerKeyRegistry
      → VerifiedPda
      → Result KeyError (Unit {0})
      → World crypto.Digest F × Result (Response crypto.Digest) Verdict
  unfolding key_refusal by_role match_signed high_risk is_prompt_decision
  with_usable w reg v (err e) = (w, err (key_refusal e))
  with_usable w reg v (ok u) =
      if is_prompt_decision k.resolved.decision && high_risk k.checked.tool.risk_class
      then by_role w v.decision v.handler_kid (role_of (HandlerKey.get reg v.handler_kid))
      else match_signed w v.decision v.handler_kid

  unfoldable pub with_registry :
      World crypto.Digest F
      → Option HandlerKeyRegistry
      → VerifiedPda
      → World crypto.Digest F × Result (Response crypto.Digest) Verdict
  unfolding with_usable match_signed
  with_registry w none v = match_signed w v.decision v.handler_kid
  with_registry w (some reg) v =
      with_usable w reg v (assert_usable opts.parse_date reg v.handler_kid (r.clock at_key))

  unfoldable pub verified :
      World crypto.Digest F
      → Result PdaFailureReason VerifiedPda
      → World crypto.Digest F × Result (Response crypto.Digest) Verdict
  unfolding with_registry give_up is_malformed
  verified w (ok v) = with_registry w opts.handler_key_registry v
  verified w (err reason) =
      if is_malformed reason then give_up w (refusal 400 "pda-malformed") else (
        w,
        ok (record {
          accepted = false;
          decision = deny_decision;
          reason = "pda-verify-failed";
          signer = none;
        }),
      )

  unfoldable pub verify_options : String → (String → Option K) → VerifyPdaOptions K
  verify_options jws resolve = record {
    pda_jws = jws;
    resolve_verify_key = resolve;
    is_revoked = opts.is_pda_kid_revoked;
    allowed_algs = none;
    skew_seconds = none;
    max_window_seconds = none;
    skip_payload_schema = true;
    now = r.clock at_verify;
  }

  unfoldable pub signed :
      World crypto.Digest F
      → Option String
      → Option (String → Option K)
      → World crypto.Digest F × Result (Response crypto.Digest) Verdict
  unfolding verified unsigned verify_options
  signed w none resolve = (w, ok (unsigned k.forced k.resolved))
  signed w (some jws) none =
      (w, err (refused 503 "pda-verify-unavailable" (some "pda-verify-unavailable")))
  signed w (some jws) (some resolve) =
      verified w (verify_pda opts.platform (verify_options jws resolve))

  -- The part of the handler from `handlerAccepted` to the audit row.
  unfoldable pub verdict_of :
      World crypto.Digest F → World crypto.Digest F × Result (Response crypto.Digest) Verdict
  unfolding signed
  verdict_of w = signed w k.checked.pda opts.resolve_pda_verify_key
