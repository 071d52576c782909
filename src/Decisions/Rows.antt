-- ===== src/Decisions/Rows.antt =====
-- The handler and the audit chain: which rows a request adds, and that the chain stays linked.
use soa_harness_impl.Base.{
  String, ◌≡◌, sym, subst, ◌∙◌, refl, Bool, true, false, Option, none, some, List, [], ◌∷◌, arith,
  Key, Bool-cases, inl, inr, ◌&&◌, ◌==◌, string_key, if◌then◌else◌,
}
use soa_harness_impl.Base.Result.{Result, ok, err}
use soa_harness_impl.Audit.{Value}
use soa_harness_impl.Audit.{AuditRecord}
use soa_harness_impl.Audit.Chain.{Crypto, append}
use soa_harness_impl.Audit.Chain.Integrity.{Linked, append-Linked}
use soa_harness_impl.Budget.{BudgetTracker}
use soa_harness_impl.Hook.{HookDecision, HookOutcome, allow, deny, prompt}
use soa_harness_impl.Attestation.HandlerKey
use soa_harness_impl.Attestation.HandlerKey.{
  assert_usable, HandlerRole, interactive, coordinator, autonomous, HandlerKeyRegistry, KeyError,
}
use soa_harness_impl.Attestation.Pda.{Payload, PdaFailureReason, VerifiedPda, verify_pda}
use soa_harness_impl.Attestation.Escalation.{
  EscalationOutcome, approved, denied, timeout, hitl_required, role_of,
}
use soa_harness_impl.Decisions.Limiter.{BearerLimiter, Admission, consume}
use soa_harness_impl.Decisions.Types.{
  BracketFiles, Bracket, BracketSession, CachedDecisionFields, at_key, at_append, at_limit, World,
  Options, Request, Response, HookBody,
}
use soa_harness_impl.Decisions.Checks.{
  Checked, emit, end_session, terminate_for_budget_exhausted, owning_session, check_request,
}
use soa_harness_impl.Decisions.Bracket.{
  Opened, open_bracket, open_in, open_loaded, open_unless, open_new, compensate, commit, hit_in,
  load,
}
use soa_harness_impl.Decisions.Verdict.{
  Verdict, Case, verdict_of, signed, verified, with_registry, with_usable, by_role, escalated,
  match_signed, deny_escalation, give_up, mismatches, resolver_implies_pda_decision, is_malformed,
  is_prompt_decision, high_risk, verify_options,
}
use soa_harness_impl.Decisions.Guards.{
  PreHook, check_residency, residency_pinned, residency_checked, check_budget, run_pre_hook,
  hook_decided, tracked,
}
use soa_harness_impl.Decisions.Recording.{
  record_decision, charge_turn, charge, emit_decision, emit_pending, emit_spans, decision_row,
}
use soa_harness_impl.Decisions.Handler.{
  and_then, run_post_hook, conclude, after_bracket, decide, after_budget, after_residency_check,
  guard, admitted, with_bearer, when_ready, unless_reentrant, handle, case_of,
}

pub and_then-keeps {ℓ} :
    {W R A : Type 0} (P : W → Type ℓ) (m : W × Result R A) (rest : W → A → W × R)
    → P m.0
    → ((w : W) (a : A) → P w → P (rest w a).0)
    → P (and_then m rest).0
unfolding and_then
and_then-keeps P (w, ok a) rest p h = h w a p
and_then-keeps P (w, err response) rest p h = p

module _ (crypto : Crypto) {F K : Type 0} (files : BracketFiles crypto.Digest F)
    (opts : Options K) where
  abbrev pub IsLinked : World crypto.Digest F → Type 0
  IsLinked w = Linked crypto crypto.genesis w.chain.records w.chain.tail

  -- A world with the chain of another one.
  same_chain : (w v : World crypto.Digest F) → v.chain ≡ w.chain → IsLinked w → IsLinked v
  same_chain w v e h = subst (λ c. Linked crypto crypto.genesis c.records c.tail) (sym e) h

  -- The guards.
  check_budget-chain :
      (w : World crypto.Digest F) (r : Request) (c : Checked)
      → (check_budget w r c).0.chain ≡ w.chain
  unfolding check_budget terminate_for_budget_exhausted end_session emit
  check_budget-chain w r c = ground arith

  hook_decided-chain :
      (w : World crypto.Digest F) (digest : Value → String) (r : Request) (c : Checked)
      (o : HookOutcome HookBody) (d : HookDecision)
      → (hook_decided w digest r c o d).0.chain ≡ w.chain
  unfolding hook_decided emit
  hook_decided-chain w digest r c o allow = refl
  hook_decided-chain w digest r c o deny = refl
  hook_decided-chain w digest r c o prompt = refl

  run_pre_hook-chain :
      (w : World crypto.Digest F) (b : Bool) (digest : Value → String) (r : Request) (c : Checked)
      → (run_pre_hook w b digest r c).0.chain ≡ w.chain
  unfolding run_pre_hook tracked
  run_pre_hook-chain w false digest r c = refl
  run_pre_hook-chain w true digest r c =
      hook_decided-chain (tracked w c.session_id r.pre_hook.pid) digest r c r.pre_hook.outcome
        r.pre_hook.outcome.decision

  residency_pinned-Linked :
      (w : World crypto.Digest F) (r : Request) (c : Checked) (pin : Option (List String))
      → IsLinked w
      → IsLinked (residency_pinned crypto opts w r c pin).0
  unfolding residency_pinned residency_checked
  residency_pinned-Linked w r c none h = h
  residency_pinned-Linked w r c (some []) h = h
  residency_pinned-Linked w r c (some (region ∷ pin)) h = append-Linked crypto w.chain _ _ h

  -- The bracket.
  open_unless-chain :
      (w : World crypto.Digest F) (b : Bracket F) (v : String) (r : Request) (c : Checked)
      (d : String) (s : BracketSession crypto.Digest)
      (hit : Option (String × CachedDecisionFields crypto.Digest))
      → (open_unless files w b v r c d s hit).0.chain ≡ w.chain
  unfolding open_unless open_new
  open_unless-chain w b v r c d s none = refl
  open_unless-chain w b v r c d s (some (key, hit)) = refl

  open_loaded-chain :
      (w : World crypto.Digest F) (b : Bracket F) (v : String) (r : Request) (c : Checked)
      (d : String) (s : Result (Response crypto.Digest) (BracketSession crypto.Digest))
      → (open_loaded files w b v r c d s).0.chain ≡ w.chain
  unfolding open_loaded
  open_loaded-chain w b v r c d (err response) = refl
  open_loaded-chain w b v r c d (ok s) =
      open_unless-chain w b v r c d s (hit_in r.idempotency_key s)

  open_in-chain :
      (w : World crypto.Digest F) (b : Option (Bracket F)) (v : String) (r : Request) (c : Checked)
      (d : String)
      → (open_in files w b v r c d).0.chain ≡ w.chain
  unfolding open_in
  open_in-chain w none v r c d = refl
  open_in-chain w (some b) v r c d =
      open_loaded-chain w b v r c d (load b r c (files.read_session b.disk c.session_id))

  module _ (r : Request) (k : Case crypto.Digest) where
    -- A signed decision.
    match_signed-Linked :
        (w : World crypto.Digest F) (p : Payload) (signer : String)
        → IsLinked w
        → IsLinked (match_signed crypto files opts r k w p signer).0
    unfolding match_signed give_up compensate
    match_signed-Linked w p signer h =
        elim (Bool-cases (mismatches (resolver_implies_pda_decision k.resolved.decision) p)) [
          | inl e ↦ rw e h
          | inr e ↦ rw e h
        ]

    deny_escalation-Linked :
        (w : World crypto.Digest F) (handler reason signer : String)
        → IsLinked w
        → IsLinked (deny_escalation crypto files opts r k w handler reason signer).0
    unfolding deny_escalation give_up compensate
    deny_escalation-Linked w handler reason signer h = append-Linked crypto w.chain _ _ h

    escalated-Linked :
        (w : World crypto.Digest F) (p : Payload) (signer : String) (o : EscalationOutcome)
        → IsLinked w
        → IsLinked (escalated crypto files opts r k w p signer o).0
    unfolding escalated give_up compensate
    escalated-Linked w p signer (timeout at) h =
        deny_escalation-Linked w "Autonomous" "escalation-timeout" signer h
    escalated-Linked w p signer (hitl_required kid detail at) h = h
    escalated-Linked w p signer (denied kid at) h =
        deny_escalation-Linked w "Interactive" "hitl-denied" kid h
    escalated-Linked w p signer (approved kid at) h =
        match_signed-Linked w p (if kid == "" then signer else kid) h

    by_role-Linked :
        (w : World crypto.Digest F) (p : Payload) (signer : String) (role : Option HandlerRole)
        → IsLinked w
        → IsLinked (by_role crypto files opts r k w p signer role).0
    unfolding by_role give_up compensate
    by_role-Linked w p signer none h = match_signed-Linked w p signer h
    by_role-Linked w p signer (some interactive) h = match_signed-Linked w p signer h
    by_role-Linked w p signer (some coordinator) h = h
    by_role-Linked w p signer (some autonomous) h =
        elim (Bool-cases opts.has_escalation_coordinator) [
          | inl e ↦ rw e (escalated-Linked w p signer r.escalation h)
          | inr e ↦ rw e (deny_escalation-Linked w "Autonomous" "escalation-timeout" signer h)
        ]

    with_usable-Linked :
        (w : World crypto.Digest F) (reg : HandlerKeyRegistry) (v : VerifiedPda)
        (u : Result KeyError (Unit {0}))
        → IsLinked w
        → IsLinked (with_usable crypto files opts r k w reg v u).0
    unfolding with_usable
    with_usable-Linked w reg v (err e) h = h
    with_usable-Linked w reg v (ok u) h =
        elim (Bool-cases
          (is_prompt_decision k.resolved.decision && high_risk k.checked.tool.risk_class)) [
            | inl e ↦ rw e (
                by_role-Linked w v.decision v.handler_kid
                  (role_of (HandlerKey.get reg v.handler_kid)) h)
            | inr e ↦ rw e (match_signed-Linked w v.decision v.handler_kid h)
          ]

    verified-Linked :
        (w : World crypto.Digest F) (v : Result PdaFailureReason VerifiedPda)
        → IsLinked w
        → IsLinked (verified crypto files opts r k w v).0
    unfolding verified with_registry give_up compensate
    verified-Linked w (err reason) h = elim (Bool-cases (is_malformed reason)) [
      | inl e ↦ rw e h
      | inr e ↦ rw e h
    ]
    verified-Linked w (ok v) h = registered opts.handler_key_registry
      where
        registered :
            (reg : Option HandlerKeyRegistry)
            → IsLinked (with_registry crypto files opts r k w reg v).0
        registered none = match_signed-Linked w v.decision v.handler_kid h
        registered (some reg) =
            with_usable-Linked w reg v
              (assert_usable opts.parse_date reg v.handler_kid (r.clock at_key)) h

    signed-Linked :
        (w : World crypto.Digest F) (jws : Option String) (resolve : Option (String → Option K))
        → IsLinked w
        → IsLinked (signed crypto files opts r k w jws resolve).0
    unfolding signed
    signed-Linked w none resolve h = h
    signed-Linked w (some jws) none h = h
    signed-Linked w (some jws) (some resolve) h =
        verified-Linked w
          (verify_pda opts.platform (verify_options crypto files opts r k jws resolve)) h

  module _ ⦃same_hash : Key crypto.Digest⦄ (digest_text : crypto.Digest → String) where
    charge-chain :
        (w : World crypto.Digest F) (r : Request) (id : String) (t : Option BudgetTracker)
        → (charge crypto files opts w r id t).chain ≡ w.chain
    unfolding charge terminate_for_budget_exhausted end_session emit
    charge-chain w r id none = refl
    charge-chain w r id (some t) = ground arith

    emit_pending-chain :
        (w : World crypto.Digest F) (r : Request) (c : Checked) (o : Option (List (String × Value)))
        → (emit_pending crypto files opts w r c o).chain ≡ w.chain
    unfolding emit_pending emit
    emit_pending-chain w r c none = refl
    emit_pending-chain w r c (some o) = refl

    emit_decision-chain :
        (w : World crypto.Digest F) (r : Request) (k : Case crypto.Digest) (v : Verdict)
        (o : Option (List (String × Value)))
        → (emit_decision crypto files opts w r k v o).chain ≡ w.chain
    unfolding emit_decision emit
    emit_decision-chain w r k v o = emit_pending-chain _ r k.checked o

    run_post_hook-chain :
        (w : World crypto.Digest F) (r : Request) (c : Checked) (row : AuditRecord crypto.Digest)
        → (run_post_hook crypto files opts digest_text w r c row).chain ≡ w.chain
    unfolding run_post_hook emit tracked
    run_post_hook-chain w r c row = ground arith

    -- What follows the row leaves the chain alone.
    pub conclude-chain :
        (w : World crypto.Digest F) (r : Request) (k : Case crypto.Digest)
        (o : Option (List (String × Value))) (v : Verdict)
        → (conclude crypto files opts digest_text w r k o v).0.chain
          ≡ (append crypto w.chain (decision_row crypto files opts r k v) (r.clock at_append)).0
    unfolding conclude record_decision emit_spans commit charge_turn
    conclude-chain w r k o v =
        let w₁ = (record_decision crypto files opts w r k v).0 in
        let row = (record_decision crypto files opts w r k v).1 in
        let w₂ = charge_turn crypto files opts w₁ r k.checked.session_id in
        run_post_hook-chain _ r k.checked row
        ∙ emit_decision-chain w₂ r k v o
        ∙ charge-chain w₁ r k.checked.session_id w₁.budget

    conclude-Linked :
        (w : World crypto.Digest F) (r : Request) (k : Case crypto.Digest)
        (o : Option (List (String × Value))) (v : Verdict)
        → IsLinked w
        → IsLinked (conclude crypto files opts digest_text w r k o v).0
    conclude-Linked w r k o v h =
        subst (λ c. Linked crypto crypto.genesis c.records c.tail) (sym (conclude-chain w r k o v))
          (append-Linked crypto w.chain (decision_row crypto files opts r k v) (r.clock at_append)
            h)

    after_bracket-Linked :
        (r : Request) (c : Checked) (h : PreHook) (w : World crypto.Digest F)
        (opened : Option (Opened crypto.Digest))
        → IsLinked w
        → IsLinked (after_bracket crypto files opts digest_text r c h w opened).0
    unfolding after_bracket verdict_of
    after_bracket-Linked r c h w opened i =
        let k = case_of crypto files opts digest_text r c h opened in
        and_then-keeps IsLinked (signed crypto files opts r k w c.pda opts.resolve_pda_verify_key)
          (λ w₁ v. conclude crypto files opts digest_text w₁ r k h.pending_outcome v)
          (signed-Linked r k w c.pda opts.resolve_pda_verify_key i)
          (λ w₁ v i₁. conclude-Linked w₁ r k h.pending_outcome v i₁)

    decide-Linked :
        (r : Request) (c : Checked) (w : World crypto.Digest F) (h : PreHook)
        → IsLinked w
        → IsLinked (decide crypto files opts digest_text r c w h).0
    unfolding decide open_bracket
    decide-Linked r c w h i =
        let opening = open_in files w w.bracket opts.runner_version r c h.args_digest in
        and_then-keeps IsLinked opening (after_bracket crypto files opts digest_text r c h)
          (same_chain w opening.0 (open_in-chain w w.bracket opts.runner_version r c h.args_digest)
            i)
          (after_bracket-Linked r c h)

    after_budget-Linked :
        (r : Request) (c : Checked) (w : World crypto.Digest F) (u : Unit {0})
        → IsLinked w
        → IsLinked (after_budget crypto files opts digest_text r c w u).0
    unfolding after_budget
    after_budget-Linked r c w u i =
        let hooked = run_pre_hook w opts.has_pre_tool_use_command opts.jcs_digest r c in
        and_then-keeps IsLinked hooked (decide crypto files opts digest_text r c)
          (same_chain w hooked.0
            (run_pre_hook-chain w opts.has_pre_tool_use_command opts.jcs_digest r c) i)
          (decide-Linked r c)

    after_residency_check-Linked :
        (r : Request) (c : Checked) (w : World crypto.Digest F) (u : Unit {0})
        → IsLinked w
        → IsLinked (after_residency_check crypto files opts digest_text r c w u).0
    unfolding after_residency_check
    after_residency_check-Linked r c w u i =
        and_then-keeps IsLinked (check_budget w r c)
          (after_budget crypto files opts digest_text r c)
          (same_chain w (check_budget w r c).0 (check_budget-chain w r c) i)
          (after_budget-Linked r c)

    guard-Linked :
        (r : Request) (w : World crypto.Digest F) (c : Checked)
        → IsLinked w
        → IsLinked (guard crypto files opts digest_text r w c).0
    unfolding guard check_residency
    guard-Linked r w c i =
        and_then-keeps IsLinked (residency_pinned crypto opts w r c opts.data_residency)
          (after_residency_check crypto files opts digest_text r c)
          (residency_pinned-Linked w r c opts.data_residency i) (after_residency_check-Linked r c)

    admitted-Linked :
        (w : World crypto.Digest F) (r : Request) (bearer : String) (a : BearerLimiter × Admission)
        → IsLinked w
        → IsLinked (admitted crypto files opts digest_text w r bearer a).0
    unfolding admitted
    admitted-Linked w r bearer (limiter, admission) i =
        let counted = record w { limiter = limiter } in
        elim (Bool-cases admission.allowed) [
          | inl e ↦ rw e (
              and_then-keeps IsLinked (counted, check_request opts.sha256 opts counted r bearer)
                (guard crypto files opts digest_text r) i (guard-Linked r))
          | inr e ↦ rw e i
        ]

    -- The audit chain is linked by its hashes after a request, whatever the answer, if it was before.
    pub handle-Linked :
        (w : World crypto.Digest F) (r : Request)
        → IsLinked w
        → IsLinked (handle crypto files opts digest_text w r).0
    unfolding handle unless_reentrant when_ready with_bearer end_session emit
    handle-Linked w r i = owned (owning_session w r)
      where
        bearing : (b : Option String) → IsLinked (with_bearer crypto files opts digest_text w r b).0
        bearing none = i
        bearing (some bearer) =
            admitted-Linked w r bearer (consume w.limiter (opts.sha256 bearer) (r.clock at_limit)) i

        ready : (n : Option String) → IsLinked (when_ready crypto files opts digest_text w r n).0
        ready (some reason) = i
        ready none = bearing r.bearer

        owned :
            (o : Option String) → IsLinked (unless_reentrant crypto files opts digest_text w r o).0
        owned (some owner) = i
        owned none = ready r.not_ready
