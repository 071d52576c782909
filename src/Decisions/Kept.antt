-- ===== src/Decisions/Kept.antt =====
-- What a signed decision and what follows the row leave unchanged: the world, and the bracket.
use soa_harness_impl.Base.{
  String, ◌≡◌, ap, ◌∙◌, refl, Bool, true, false, Option, none, some, List, [], ◌∷◌, ◌++◌, length,
  arith, Key, string_key, ◌==◌, ◌&&◌, if◌then◌else◌,
}
use soa_harness_impl.Base.Result.{Result, ok, err}
use soa_harness_impl.Audit.{Value, AuditRecord}
use soa_harness_impl.Audit.Chain.{Crypto}
use soa_harness_impl.Budget.{BudgetTracker}
use soa_harness_impl.Attestation.HandlerKey
use soa_harness_impl.Attestation.HandlerKey.{
  HandlerRole, interactive, coordinator, autonomous, HandlerKeyRegistry, KeyError, assert_usable,
}
use soa_harness_impl.Attestation.Pda.{Payload, PdaFailureReason, VerifiedPda, verify_pda}
use soa_harness_impl.Attestation.Escalation.{
  EscalationOutcome, approved, denied, timeout, hitl_required, role_of,
}
use soa_harness_impl.Decisions.Types.{
  BracketFiles, CachedSideEffect, World, Options, Request, at_key,
}
use soa_harness_impl.Decisions.Checks.{Checked, emit, end_session, terminate_for_budget_exhausted}
use soa_harness_impl.Decisions.Bracket.{find_hit, or_else, update_at, commit, commit_in}
use soa_harness_impl.Decisions.Verdict.{
  Verdict, Case, signed, verified, with_registry, with_usable, by_role, escalated, match_signed,
  deny_escalation, give_up, mismatches, resolver_implies_pda_decision, is_malformed,
  is_prompt_decision, high_risk, verify_options,
}
use soa_harness_impl.Decisions.Guards.{tracked}
use soa_harness_impl.Decisions.Recording.{
  record_decision, cached_fields, charge_turn, charge, emit_decision, emit_pending, emit_spans,
}
use soa_harness_impl.Decisions.Handler.{run_post_hook, conclude}

pub update_at-last :
    {A : Type 0} (f : A → A) (xs : List A) (y : A)
    → update_at (length xs) f (xs ++ y ∷ []) ≡ xs ++ f y ∷ []
unfolding update_at
update_at-last f [] y = refl
update_at-last f (x ∷ xs) y = ap (λ l. x ∷ l) (update_at-last f xs y)

-- A hit of a list that has none before its last element is that of the element.
pub find_hit-last :
    {D : Type 0} (key : String) (xs : List (CachedSideEffect D)) (y : CachedSideEffect D)
    → find_hit key xs ≡ none
    → find_hit key (xs ++ y ∷ []) ≡ find_hit key (y ∷ [])
unfolding find_hit or_else
find_hit-last key [] y h = refl
find_hit-last key (x ∷ xs) y h = ground (arith, h, find_hit-last key xs y)

-- An `if` between two results that keep the world.
abbrev pub Keeps : {W A R : Type 0} → W → W × Result R A → Type 0
Keeps w (next, ok a) = next ≡ w
Keeps w (next, err e) = Unit

if-Keeps :
    {W A R : Type 0} (w : W) (b : Bool) (x y : W × Result R A)
    → Keeps w x
    → Keeps w y
    → Keeps w (if b then x else y)
if-Keeps w true x y h i = h
if-Keeps w false x y h i = i

module _ (crypto : Crypto) {F K : Type 0} (files : BracketFiles crypto.Digest F) (opts : Options K)
    (r : Request) (k : Case crypto.Digest) (w : World crypto.Digest F) where
  match_signed-Keeps :
      (p : Payload) (signer : String) → Keeps w (match_signed crypto files opts r k w p signer)
  unfolding match_signed give_up
  match_signed-Keeps p signer =
      if-Keeps w (mismatches (resolver_implies_pda_decision k.resolved.decision) p) _ _ tt refl

  escalated-Keeps :
      (p : Payload) (signer : String) (o : EscalationOutcome)
      → Keeps w (escalated crypto files opts r k w p signer o)
  unfolding escalated give_up deny_escalation
  escalated-Keeps p signer (timeout at) = tt
  escalated-Keeps p signer (hitl_required kid detail at) = tt
  escalated-Keeps p signer (denied kid at) = tt
  escalated-Keeps p signer (approved kid at) =
      match_signed-Keeps p (if kid == "" then signer else kid)

  by_role-Keeps :
      (p : Payload) (signer : String) (role : Option HandlerRole)
      → Keeps w (by_role crypto files opts r k w p signer role)
  unfolding by_role give_up deny_escalation
  by_role-Keeps p signer none = match_signed-Keeps p signer
  by_role-Keeps p signer (some interactive) = match_signed-Keeps p signer
  by_role-Keeps p signer (some coordinator) = tt
  by_role-Keeps p signer (some autonomous) =
      if-Keeps w opts.has_escalation_coordinator
        (escalated crypto files opts r k w p signer r.escalation) _
        (escalated-Keeps p signer r.escalation) tt

  with_usable-Keeps :
      (reg : HandlerKeyRegistry) (v : VerifiedPda) (u : Result KeyError (Unit {0}))
      → Keeps w (with_usable crypto files opts r k w reg v u)
  unfolding with_usable
  with_usable-Keeps reg v (err e) = tt
  with_usable-Keeps reg v (ok u) =
      if-Keeps w (is_prompt_decision k.resolved.decision && high_risk k.checked.tool.risk_class)
        (by_role crypto files opts r k w v.decision v.handler_kid
          (role_of (HandlerKey.get reg v.handler_kid)))
        (match_signed crypto files opts r k w v.decision v.handler_kid)
        (by_role-Keeps v.decision v.handler_kid (role_of (HandlerKey.get reg v.handler_kid)))
        (match_signed-Keeps v.decision v.handler_kid)

  with_registry-Keeps :
      (reg : Option HandlerKeyRegistry) (v : VerifiedPda)
      → Keeps w (with_registry crypto files opts r k w reg v)
  unfolding with_registry
  with_registry-Keeps none v = match_signed-Keeps v.decision v.handler_kid
  with_registry-Keeps (some reg) v =
      with_usable-Keeps reg v (assert_usable opts.parse_date reg v.handler_kid (r.clock at_key))

  verified-Keeps :
      (v : Result PdaFailureReason VerifiedPda) → Keeps w (verified crypto files opts r k w v)
  unfolding verified give_up
  verified-Keeps (ok v) = with_registry-Keeps opts.handler_key_registry v
  verified-Keeps (err reason) = if-Keeps w (is_malformed reason) _ _ tt refl

  -- A request that is not refused by its signed decision leaves that stage with nothing changed.
  pub signed-Keeps :
      (jws : Option String) (resolve : Option (String → Option K))
      → Keeps w (signed crypto files opts r k w jws resolve)
  unfolding signed
  signed-Keeps none resolve = refl
  signed-Keeps (some jws) none = tt
  signed-Keeps (some jws) (some resolve) =
      verified-Keeps (verify_pda opts.platform (verify_options crypto files opts r k jws resolve))

module _ (crypto : Crypto) ⦃same_hash : Key crypto.Digest⦄ {F K : Type 0}
    (files : BracketFiles crypto.Digest F) (opts : Options K)
    (digest_text : crypto.Digest → String) where
  charge-bracket :
      (w : World crypto.Digest F) (r : Request) (id : String) (t : Option BudgetTracker)
      → (charge crypto files opts w r id t).bracket ≡ w.bracket
  unfolding charge terminate_for_budget_exhausted end_session emit
  charge-bracket w r id none = refl
  charge-bracket w r id (some t) = ground arith

  emit_pending-bracket :
      (w : World crypto.Digest F) (r : Request) (c : Checked) (o : Option (List (String × Value)))
      → (emit_pending crypto files opts w r c o).bracket ≡ w.bracket
  unfolding emit_pending emit
  emit_pending-bracket w r c none = refl
  emit_pending-bracket w r c (some o) = refl

  emit_decision-bracket :
      (w : World crypto.Digest F) (r : Request) (k : Case crypto.Digest) (v : Verdict)
      (o : Option (List (String × Value)))
      → (emit_decision crypto files opts w r k v o).bracket ≡ w.bracket
  unfolding emit_decision emit
  emit_decision-bracket w r k v o = emit_pending-bracket _ r k.checked o

  run_post_hook-bracket :
      (w : World crypto.Digest F) (r : Request) (c : Checked) (row : AuditRecord crypto.Digest)
      → (run_post_hook crypto files opts digest_text w r c row).bracket ≡ w.bracket
  unfolding run_post_hook emit tracked
  run_post_hook-bracket w r c row = ground arith

  -- What follows the row leaves the bracket as it was committed.
  pub conclude-bracket :
      (w : World crypto.Digest F) (r : Request) (k : Case crypto.Digest)
      (o : Option (List (String × Value))) (v : Verdict)
      → (conclude crypto files opts digest_text w r k o v).0.bracket
        ≡ commit_in files r
            (cached_fields crypto files opts r k v (record_decision crypto files opts w r k v).1)
            w.bracket
            k.opened
  unfolding conclude record_decision emit_spans commit charge_turn
  conclude-bracket w r k o v =
      let w₁ = (record_decision crypto files opts w r k v).0 in
      let row = (record_decision crypto files opts w r k v).1 in
      let w₂ = charge_turn crypto files opts w₁ r k.checked.session_id in
      run_post_hook-bracket _ r k.checked row
      ∙ emit_decision-bracket w₂ r k v o
      ∙ charge-bracket w₁ r k.checked.session_id w₁.budget
