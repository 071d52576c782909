-- ===== src/Decisions/Stages.antt =====
-- How each stage of the handler ends: with an answer that is no new decision, or with what the
-- stage has established.
use soa_harness_impl.Base.{
  String, ◌≡◌, ap, sym, ◌∙◌, refl, Bool, true, false, not, ◌&&◌, Option, none, some, List, [], ◌∷◌,
  arith, Bool-cases, Option-cases, inl, inr, ◌==◌, string_key, if◌then◌else◌, some-injective,
}
use soa_harness_impl.Base.Result.{Result, ok, err}
use soa_harness_impl.Registry
use soa_harness_impl.Permission.SessionStore
use soa_harness_impl.Permission.SessionStore.{SessionRecord}
use soa_harness_impl.Audit.{Value}
use soa_harness_impl.Audit.Chain.{Crypto}
use soa_harness_impl.Hook.{HookDecision, HookOutcome, allow, deny, prompt}
use soa_harness_impl.Attestation.HandlerKey
use soa_harness_impl.Attestation.HandlerKey.{
  HandlerRole, interactive, coordinator, autonomous, HandlerKeyRegistry, KeyError,
  handler_key_expired, handler_key_revoked, assert_usable,
}
use soa_harness_impl.Attestation.Pda.{Payload, PdaFailureReason, VerifiedPda, verify_pda}
use soa_harness_impl.Attestation.Escalation.{
  EscalationOutcome, approved, denied, timeout, hitl_required, role_of,
}
use soa_harness_impl.Privacy.Residency.{SubReason}
use soa_harness_impl.Decisions.Types.{
  BracketFiles, Bracket, BracketSession, CachedDecisionFields, World, Options, Request, RequestBody,
  Response, refused, rate_limited, residency_refused, created, thrown, HookBody, ReadError,
  file_missing, unreadable, at_key,
}
use soa_harness_impl.Decisions.Checks.{
  Checked, check_request, check_session, check_tool, can_decide, sink_refuses, is_explore,
  is_read_only, refusal, denial,
}
use soa_harness_impl.Decisions.Bracket.{
  open_in, open_loaded, open_unless, hit_in, load, replay_of, synthesized,
}
use soa_harness_impl.Decisions.Verdict.{
  Verdict, Case, signed, verified, with_registry, with_usable, by_role, escalated, match_signed,
  deny_escalation, give_up, mismatches, resolver_implies_pda_decision, is_malformed,
  is_prompt_decision, high_risk, verify_options, key_refusal, unsigned,
}
use soa_harness_impl.Decisions.Recording.{is_auto_allow}
use soa_harness_impl.Decisions.Guards.{
  residency_pinned, residency_checked, after_residency, check_budget, run_pre_hook, hook_decided,
  tracked, exhausts,
}

-- No answer to a new decision: an error, or the answer of an earlier one.
abbrev pub IsPlain : {D : Type 0} → Response D → Type 0
IsPlain (refused code error reason) = Unit
IsPlain (rate_limited retry_after) = Unit
IsPlain (residency_refused s) = Unit
IsPlain (created b) = b.replayed ≡ true
IsPlain thrown = Unit

-- A stage's end.
abbrev pub Ends : {D A : Type 0} → (A → Type 0) → Result (Response D) A → Type 0
Ends Q (ok a) = Q a
Ends Q (err response) = IsPlain response

if_some :
    {A : Type 0} (b : Bool) (a c : A) → (if b then some a else none) ≡ some c → (b ≡ true) × (a ≡ c)
if_some true a c h = (refl, some-injective h)
if_some false a c h = absurd (ground (arith, h))

can_decide-eq :
    (o : Option SessionRecord) (s : SessionRecord)
    → can_decide o ≡ some s
    → (o ≡ some s) × (s.can_decide ≡ true)
unfolding can_decide
can_decide-eq none s h = absurd (ground (arith, h))
can_decide-eq (some t) s h =
    let (e, same) = if_some t.can_decide t s h in
    (ap some same, ap (λ x. x.can_decide) (sym same) ∙ e)

module _ {D F K : Type 0} (hash : String → String) (opts : Options K) (w : World D F) (r : Request)
    (bearer : String) where
  -- What the checks establish of a request: its body names the session and the tool.
  pub record IsAuthorized (c : Checked) : Type 0 where
    pub bearer_valid : SessionStore.validate hash w.sessions c.session_id bearer ≡ true
    pub session_found : SessionStore.get_record w.sessions c.session_id ≡ some c.session
    pub may_decide : c.session.can_decide ≡ true
    pub body : RequestBody
    pub requested : r.body ≡ some body
    pub session_asked : c.session_id ≡ body.session_id
    pub tool_found : Registry.lookup opts.registry body.tool ≡ some c.tool
    pub digest_kept : c.args_digest ≡ body.args_digest
    pub pda_kept : c.pda ≡ body.pda
    pub sink_accepts : sink_refuses w.sink c.tool.risk_class ≡ false
    pub agent_may : (is_explore opts.agent_type && not (is_read_only c.tool.risk_class)) ≡ false

  pub check_request-Ends : Ends IsAuthorized (check_request hash opts w r bearer)
  unfolding check_request check_session check_tool refusal denial
  check_request-Ends = elim (Option-cases r.body) [
    | inl n ↦ rw n tt
    | inr (body, b) ↦ elim (Bool-cases (SessionStore.exists w.sessions body.session_id)) [
      | inr n ↦ rw (b, n) tt
      | inl x ↦ elim (Bool-cases (SessionStore.validate hash w.sessions body.session_id bearer)) [
        | inr n ↦ rw (b, x, n) tt
        | inl v ↦
            elim (Option-cases (can_decide (SessionStore.get_record w.sessions body.session_id))) [
              | inl n ↦ rw (b, x, v, n) tt
              | inr (s, d) ↦ elim (Option-cases (Registry.lookup opts.registry body.tool)) [
                | inl n ↦ rw (b, x, v, d, n) tt
                | inr (tool, t) ↦
                    elim (Bool-cases
                      (is_explore opts.agent_type && not (is_read_only tool.risk_class))) [
                        | inl e ↦ rw (b, x, v, d, t, e) tt
                        | inr e ↦ elim (Bool-cases (sink_refuses w.sink tool.risk_class)) [
                          | inl k ↦ rw (b, x, v, d, t, e, k) tt
                          | inr k ↦
                              rw (b, x, v, d, t, e, k)
                                (record {
                                  bearer_valid = v;
                                  session_found =
                                      (can_decide-eq
                                        (SessionStore.get_record w.sessions body.session_id) s d).0;
                                  may_decide =
                                      (can_decide-eq
                                        (SessionStore.get_record w.sessions body.session_id) s d).1;
                                  body = body;
                                  requested = refl;
                                  session_asked = refl;
                                  tool_found = t;
                                  digest_kept = refl;
                                  pda_kept = refl;
                                  sink_accepts = k;
                                  agent_may = e;
                                })
                        ]
                      ]
              ]
            ]
      ]
    ]
  ]

after_residency-Ends :
    (D : Type 0) (s : Option SubReason) → Ends (λ _. Unit) (after_residency {D = D} s)
unfolding after_residency
after_residency-Ends D none = tt
after_residency-Ends D (some s) = tt

module _ {F : Type 0} {D : Type 0} where
  pub check_budget-Ends :
      (w : World D F) (r : Request) (c : Checked) → Ends (λ _. Unit) (check_budget w r c).1
  unfolding check_budget denial
  check_budget-Ends w r c = elim (Bool-cases (exhausts w.budget c.session_id)) [
    | inl e ↦ rw e tt
    | inr e ↦ rw e tt
  ]

  hook_decided-Ends :
      (w : World D F) (digest : Value → String) (r : Request) (c : Checked)
      (o : HookOutcome HookBody) (d : HookDecision)
      → Ends (λ _. Unit) (hook_decided w digest r c o d).1
  unfolding hook_decided denial
  hook_decided-Ends w digest r c o allow = tt
  hook_decided-Ends w digest r c o deny = tt
  hook_decided-Ends w digest r c o prompt = tt

  pub run_pre_hook-Ends :
      (w : World D F) (b : Bool) (digest : Value → String) (r : Request) (c : Checked)
      → Ends (λ _. Unit) (run_pre_hook w b digest r c).1
  unfolding run_pre_hook
  run_pre_hook-Ends w false digest r c = tt
  run_pre_hook-Ends w true digest r c =
      hook_decided-Ends (tracked w c.session_id r.pre_hook.pid) digest r c r.pre_hook.outcome
        r.pre_hook.outcome.decision

  module _ (files : BracketFiles D F) where
    open_unless-Ends :
        (w : World D F) (b : Bracket F) (v : String) (r : Request) (c : Checked) (d : String)
        (s : BracketSession D) (hit : Option (String × CachedDecisionFields D))
        → Ends (λ _. Unit) (open_unless files w b v r c d s hit).1
    unfolding open_unless replay_of
    open_unless-Ends w b v r c d s none = tt
    open_unless-Ends w b v r c d s (some (key, hit)) = refl

    open_loaded-Ends :
        (w : World D F) (b : Bracket F) (v : String) (r : Request) (c : Checked) (d : String)
        (e : Result ReadError (BracketSession D))
        → Ends (λ _. Unit) (open_loaded files w b v r c d (load b r c e)).1
    unfolding open_loaded load
    open_loaded-Ends w b v r c d (ok s) =
        open_unless-Ends w b v r c d s (hit_in r.idempotency_key s)
    open_loaded-Ends w b v r c d (err file_missing) =
        open_unless-Ends w b v r c d (synthesized b r c)
          (hit_in r.idempotency_key (synthesized {D = D} b r c))
    open_loaded-Ends w b v r c d (err unreadable) = tt

    pub open_in-Ends :
        (w : World D F) (b : Option (Bracket F)) (v : String) (r : Request) (c : Checked)
        (d : String)
        → Ends (λ _. Unit) (open_in files w b v r c d).1
    unfolding open_in
    open_in-Ends w none v r c d = tt
    open_in-Ends w (some b) v r c d =
        open_loaded-Ends w b v r c d (files.read_session b.disk c.session_id)

if-Ends :
    {D A W : Type 0} (Q : A → Type 0) (b : Bool) (x y : W × Result (Response D) A)
    → Ends Q x.1
    → Ends Q y.1
    → Ends Q (if b then x else y).1
if-Ends Q true x y h i = h
if-Ends Q false x y h i = i

module _ {D : Type 0} (k : Case D) where
  -- A verdict of AutoAllow is the resolver's own, without a hook that forces a prompt.
  pub record IsFounded (v : Verdict) : Type 0 where
    pub resolver_allows :
        (is_auto_allow v.decision && not (is_auto_allow k.resolved.decision)) ≡ false
    pub not_forced : (is_auto_allow v.decision && k.forced) ≡ false

  unsigned-IsFounded :
      (s : Option String) → IsFounded (record (unsigned k.forced k.resolved) { signer = s })
  unfolding unsigned is_auto_allow
  unsigned-IsFounded s = record { resolver_allows = ground arith; not_forced = ground arith }

module _ (crypto : Crypto) {F K : Type 0} (opts : Options K) where
  pub residency_pinned-Ends :
      (w : World crypto.Digest F) (r : Request) (c : Checked) (pin : Option (List String))
      → Ends (λ _. Unit) (residency_pinned crypto opts w r c pin).1
  unfolding residency_pinned residency_checked
  residency_pinned-Ends w r c none = tt
  residency_pinned-Ends w r c (some []) = tt
  residency_pinned-Ends w r c (some (region ∷ pin)) = after_residency-Ends crypto.Digest _

  module _ (files : BracketFiles crypto.Digest F) (r : Request) (k : Case crypto.Digest) where
    match_signed-Ends :
        (w : World crypto.Digest F) (p : Payload) (signer : String)
        → Ends (IsFounded k) (match_signed crypto files opts r k w p signer).1
    unfolding match_signed give_up refusal
    match_signed-Ends w p signer =
        elim (Bool-cases (mismatches (resolver_implies_pda_decision k.resolved.decision) p)) [
          | inl e ↦ rw e tt
          | inr e ↦ rw e (unsigned-IsFounded k (some signer))
        ]

    escalated-Ends :
        (w : World crypto.Digest F) (p : Payload) (signer : String) (o : EscalationOutcome)
        → Ends (IsFounded k) (escalated crypto files opts r k w p signer o).1
    unfolding escalated give_up deny_escalation denial
    escalated-Ends w p signer (timeout at) = tt
    escalated-Ends w p signer (hitl_required kid detail at) = tt
    escalated-Ends w p signer (denied kid at) = tt
    escalated-Ends w p signer (approved kid at) =
        match_signed-Ends w p (if kid == "" then signer else kid)

    by_role-Ends :
        (w : World crypto.Digest F) (p : Payload) (signer : String) (role : Option HandlerRole)
        → Ends (IsFounded k) (by_role crypto files opts r k w p signer role).1
    unfolding by_role give_up deny_escalation denial
    by_role-Ends w p signer none = match_signed-Ends w p signer
    by_role-Ends w p signer (some interactive) = match_signed-Ends w p signer
    by_role-Ends w p signer (some coordinator) = tt
    by_role-Ends w p signer (some autonomous) =
        if-Ends (IsFounded k) opts.has_escalation_coordinator
          (escalated crypto files opts r k w p signer r.escalation) _
          (escalated-Ends w p signer r.escalation) tt

    with_usable-Ends :
        (w : World crypto.Digest F) (reg : HandlerKeyRegistry) (v : VerifiedPda)
        (u : Result KeyError (Unit {0}))
        → Ends (IsFounded k) (with_usable crypto files opts r k w reg v u).1
    unfolding with_usable key_refusal
    with_usable-Ends w reg v (err (handler_key_revoked kid at reason)) = tt
    with_usable-Ends w reg v (err (handler_key_expired kid age at bound)) = tt
    with_usable-Ends w reg v (ok u) =
        elim (Bool-cases
          (is_prompt_decision k.resolved.decision && high_risk k.checked.tool.risk_class)) [
            | inl e ↦ rw e (
                by_role-Ends w v.decision v.handler_kid
                  (role_of (HandlerKey.get reg v.handler_kid)))
            | inr e ↦ rw e (match_signed-Ends w v.decision v.handler_kid)
          ]

    with_registry-Ends :
        (w : World crypto.Digest F) (reg : Option HandlerKeyRegistry) (v : VerifiedPda)
        → Ends (IsFounded k) (with_registry crypto files opts r k w reg v).1
    unfolding with_registry
    with_registry-Ends w none v = match_signed-Ends w v.decision v.handler_kid
    with_registry-Ends w (some reg) v =
        with_usable-Ends w reg v (assert_usable opts.parse_date reg v.handler_kid (r.clock at_key))

    verified-Ends :
        (w : World crypto.Digest F) (v : Result PdaFailureReason VerifiedPda)
        → Ends (IsFounded k) (verified crypto files opts r k w v).1
    unfolding verified give_up refusal is_auto_allow
    verified-Ends w (ok v) = with_registry-Ends w opts.handler_key_registry v
    verified-Ends w (err reason) = elim (Bool-cases (is_malformed reason)) [
      | inl e ↦ rw e tt
      | inr e ↦ rw e (record { resolver_allows = refl; not_forced = refl })
    ]

    pub signed-Ends :
        (w : World crypto.Digest F) (jws : Option String) (resolve : Option (String → Option K))
        → Ends (IsFounded k) (signed crypto files opts r k w jws resolve).1
    unfolding signed unsigned
    signed-Ends w none resolve = unsigned-IsFounded k none
    signed-Ends w (some jws) none = tt
    signed-Ends w (some jws) (some resolve) =
        verified-Ends w
          (verify_pda opts.platform (verify_options crypto files opts r k jws resolve))
