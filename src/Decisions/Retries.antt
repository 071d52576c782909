-- ===== src/Decisions/Retries.antt =====
-- A request and a later one with its idempotency key, through the whole handler.
use soa_harness_impl.Base.{
  String, ◌≡◌, sym, subst, ◌∙◌, refl, Bool, true, false, Option, none, some, List, [], ◌∷◌, Key,
  string_key, Bool-cases, Option-cases, inl, inr, not, ◌&&◌,
}
use soa_harness_impl.Base.Result.{Result, ok, err, OkThen}
use soa_harness_impl.Registry
use soa_harness_impl.Permission.SessionStore
use soa_harness_impl.Audit.{Value}
use soa_harness_impl.Audit.Chain.{Crypto}
use soa_harness_impl.Hook.{HookDecision, HookOutcome, allow, deny, prompt}
use soa_harness_impl.Privacy.Residency.{SubReason}
use soa_harness_impl.Decisions.Limiter.{BearerLimiter, Admission, consume}
use soa_harness_impl.Decisions.Types.{
  BracketFiles, Bracket, World, Options, Request, RequestBody, Response, refused, rate_limited,
  residency_refused, created, thrown, CreatedBody, HookBody, at_limit,
}
use soa_harness_impl.Decisions.Checks.{
  Checked, check_request, check_session, check_tool, can_decide, sink_refuses, is_explore,
  is_read_only, refusal, denial, owning_session,
}
use soa_harness_impl.Decisions.Guards.{
  PreHook, check_residency, residency_pinned, residency_checked, after_residency, check_budget,
  exhausts, run_pre_hook, hook_decided, tracked,
}
use soa_harness_impl.Decisions.Handler.{
  and_then, decide, after_budget, after_residency_check, guard, admitted, with_bearer, when_ready,
  unless_reentrant, handle,
}
use soa_harness_impl.Decisions.Replay.{IsReplayable, Replayable, retry, decide-Replayable}

-- An answer that is no decision.
abbrev IsRefusal : {D : Type 0} → Response D → Type 0
IsRefusal (created b) = ⊥
IsRefusal (refused code error reason) = Unit
IsRefusal (rate_limited retry_after) = Unit
IsRefusal (residency_refused s) = Unit
IsRefusal thrown = Unit

-- A guard refuses, or goes on with the session's file and the budget as they were.
abbrev Passes :
    {D F A : Type 0} → (A → Type 0) → World D F → World D F × Result (Response D) A → Type 0
Passes Q w (next, ok a) = (next.bracket ≡ w.bracket) × (next.budget ≡ w.budget) × Q a
Passes Q w (next, err e) = IsRefusal e

and_then-Passes :
    {D F A : Type 0} (Q : A → Type 0) (w : World D F) (P : World D F × Response D → Type 0)
    (m : World D F × Result (Response D) A) (rest : World D F → A → World D F × Response D)
    → ((next : World D F) (e : Response D) → IsRefusal e → P (next, e))
    → Passes Q w m
    → ((next : World D F) (a : A)
        → next.bracket ≡ w.bracket
        → next.budget ≡ w.budget
        → Q a
        → P (rest next a))
    → P (and_then m rest)
unfolding and_then
and_then-Passes Q w P (next, ok a) rest refuse h go = go next a h.0 h.1 h.2
and_then-Passes Q w P (next, err e) rest refuse h go = refuse next e h

after_residency-Passes :
    {D F : Type 0} (w next : World D F) (s : Option SubReason)
    → next.bracket ≡ w.bracket
    → next.budget ≡ w.budget
    → Passes (λ _. Unit) w (next, after_residency s)
unfolding after_residency
after_residency-Passes w next none b t = (b, t, tt)
after_residency-Passes w next (some s) b t = tt

module _ {D F : Type 0} (w : World D F) (r : Request) (c : Checked) where
  check_budget-Passes : Passes (λ _. Unit) w (check_budget w r c)
  unfolding check_budget denial
  check_budget-Passes = elim (Bool-cases (exhausts w.budget c.session_id)) [
    | inl e ↦ rw e tt
    | inr e ↦ rw e (refl, refl, tt)
  ]

  hook_decided-Passes :
      (next : World D F) (digest : Value → String) (o : HookOutcome HookBody) (d : HookDecision)
      → next.bracket ≡ w.bracket
      → next.budget ≡ w.budget
      → Passes (λ _. Unit) w (hook_decided next digest r c o d)
  unfolding hook_decided denial
  hook_decided-Passes next digest o allow b t = (b, t, tt)
  hook_decided-Passes next digest o deny b t = tt
  hook_decided-Passes next digest o prompt b t = (b, t, tt)

  run_pre_hook-Passes :
      (configured : Bool) (digest : Value → String)
      → Passes (λ _. Unit) w (run_pre_hook w configured digest r c)
  unfolding run_pre_hook tracked
  run_pre_hook-Passes false digest = (refl, refl, tt)
  run_pre_hook-Passes true digest =
      hook_decided-Passes (tracked w c.session_id r.pre_hook.pid) digest r.pre_hook.outcome
        r.pre_hook.outcome.decision refl refl

residency_pinned-Passes :
    (crypto : Crypto) {F K : Type 0} (opts : Options K) (w : World crypto.Digest F) (r : Request)
    (c : Checked) (pin : Option (List String))
    → Passes (λ _. Unit) w (residency_pinned crypto opts w r c pin)
unfolding residency_pinned residency_checked
residency_pinned-Passes crypto opts w r c none = (refl, refl, tt)
residency_pinned-Passes crypto opts w r c (some []) = (refl, refl, tt)
residency_pinned-Passes crypto opts w r c (some (region ∷ pin)) =
    after_residency-Passes w (residency_pinned crypto opts w r c (some (region ∷ pin))).0 _ refl
      refl

check_request-Passes :
    {D F K : Type 0} (hash : String → String) (opts : Options K) (w : World D F) (r : Request)
    (bearer : String) (body : RequestBody)
    → r.body ≡ some body
    → Passes (λ c. c.session_id ≡ body.session_id) w (w, check_request hash opts w r bearer)
unfolding check_request check_session check_tool refusal denial
check_request-Passes hash opts w r bearer body b =
    elim (Bool-cases (SessionStore.exists w.sessions body.session_id)) [
      | inr n ↦ rw (b, n) tt
      | inl x ↦ elim (Bool-cases (SessionStore.validate hash w.sessions body.session_id bearer)) [
        | inr n ↦ rw (b, x, n) tt
        | inl v ↦
            elim (Option-cases (can_decide (SessionStore.get_record w.sessions body.session_id))) [
              | inl n ↦ rw (b, x, v, n) tt
              | inr (s, d) ↦ elim (Option-cases (Registry.lookup opts.registry body.tool)) [
                | inl n ↦ rw (b, x, v, d, n) tt
                | inr (tool, t) ↦
                    elim (Bool-cases
                      (is_explore opts.agent_type && not (is_read_only tool.risk_class))) [
                        | inl e ↦ rw (b, x, v, d, t, e) tt
                        | inr e ↦ elim (Bool-cases (sink_refuses w.sink tool.risk_class)) [
                          | inl k ↦ rw (b, x, v, d, t, e, k) tt
                          | inr k ↦ rw (b, x, v, d, t, e, k) (refl, refl, refl)
                        ]
                      ]
              ]
            ]
      ]
    ]

module _ (crypto : Crypto) ⦃same_hash : Key crypto.Digest⦄ {F K : Type 0}
    (files : BracketFiles crypto.Digest F) (opts : Options K)
    (digest_text : crypto.Digest → String) where
  -- What holds of every refusal, and of what `decide` answers for a session where the guards have
  -- passed, holds of what the handler answers.
  module _ (w : World crypto.Digest F) (r : Request) (body : RequestBody)
      (P : World crypto.Digest F × Response crypto.Digest → Type 0)
      (refuse : (next : World crypto.Digest F) (e : Response crypto.Digest)
        → IsRefusal e
        → P (next, e))
      (go : (next : World crypto.Digest F) (c : Checked) (h : PreHook)
        → next.bracket ≡ w.bracket
        → next.budget ≡ w.budget
        → c.session_id ≡ body.session_id
        → P (decide crypto files opts digest_text r c next h)) where
    after_budget-answers :
        (next : World crypto.Digest F) (c : Checked) (u : Unit {0})
        → next.bracket ≡ w.bracket
        → next.budget ≡ w.budget
        → c.session_id ≡ body.session_id
        → P (after_budget crypto files opts digest_text r c next u)
    unfolding after_budget
    after_budget-answers next c u b t s =
        and_then-Passes (λ _. Unit) next P _ _ refuse
          (run_pre_hook-Passes next r c opts.has_pre_tool_use_command opts.jcs_digest)
          (λ n h b' t' u'. go n c h (b' ∙ b) (t' ∙ t) s)

    guard-answers :
        (next : World crypto.Digest F) (c : Checked)
        → next.bracket ≡ w.bracket
        → next.budget ≡ w.budget
        → c.session_id ≡ body.session_id
        → P (guard crypto files opts digest_text r next c)
    unfolding guard check_residency after_residency_check
    guard-answers next c b t s =
        and_then-Passes (λ _. Unit) next P _ _ refuse
          (residency_pinned-Passes crypto opts next r c opts.data_residency)
          (λ n₁ u b₁ t₁ u₁.
            and_then-Passes (λ _. Unit) n₁ P _ _ refuse (check_budget-Passes n₁ r c)
              (λ n₂ v b₂ t₂ u₂. after_budget-answers n₂ c v (b₂ ∙ b₁ ∙ b) (t₂ ∙ t₁ ∙ t) s))

    admitted-answers :
        r.body ≡ some body
        → (bearer : String) (a : BearerLimiter × Admission)
        → P (admitted crypto files opts digest_text w r bearer a)
    unfolding admitted
    admitted-answers asked bearer (limiter, admission) =
        let counted = record w { limiter = limiter } in
        elim (Bool-cases admission.allowed) [
          | inr e ↦ rw e (refuse counted (rate_limited admission.retry_after_seconds) tt)
          | inl e ↦ rw e (
              and_then-Passes (λ c. c.session_id ≡ body.session_id) counted P
                (counted, check_request opts.sha256 opts counted r bearer)
                (guard crypto files opts digest_text r) refuse
                (check_request-Passes opts.sha256 opts counted r bearer body asked)
                (λ next c b t s. guard-answers next c b t s))
        ]

    with_bearer-answers :
        r.body ≡ some body
        → (b : Option String) → P (with_bearer crypto files opts digest_text w r b)
    unfolding with_bearer refusal
    with_bearer-answers asked none = refuse w _ tt
    with_bearer-answers asked (some bearer) =
        admitted-answers asked bearer (consume w.limiter (opts.sha256 bearer) (r.clock at_limit))

    when_ready-answers :
        r.body ≡ some body
        → (n : Option String) → P (when_ready crypto files opts digest_text w r n)
    unfolding when_ready
    when_ready-answers asked (some reason) = refuse w _ tt
    when_ready-answers asked none = with_bearer-answers asked r.bearer

    unless_reentrant-answers :
        r.body ≡ some body
        → (o : Option String) → P (unless_reentrant crypto files opts digest_text w r o)
    unfolding unless_reentrant denial
    unless_reentrant-answers asked (some owner) = refuse _ _ tt
    unless_reentrant-answers asked none = when_ready-answers asked r.not_ready

    handle-answers : r.body ≡ some body → P (handle crypto files opts digest_text w r)
    unfolding handle
    handle-answers asked = unless_reentrant-answers asked (owning_session w r)

  refusal-Replayable :
      (session_id key : String) (w : World crypto.Digest F) (e : Response crypto.Digest)
      → IsRefusal e
      → Replayable crypto files opts digest_text session_id key (w, e)
  refusal-Replayable session_id key w (created b) h = absurd h
  refusal-Replayable session_id key w (refused code error reason) h = tt
  refusal-Replayable session_id key w (rate_limited n) h = tt
  refusal-Replayable session_id key w (residency_refused s) h = tt
  refusal-Replayable session_id key w thrown h = tt

  -- Refused, or answered as before, with the session's file and the budget as they were.
  abbrev pub IsReplay :
      CreatedBody crypto.Digest
      → World crypto.Digest F
      → World crypto.Digest F × Response crypto.Digest
      → Type 0
  IsReplay b w (next, created again) =
      (again ≡ record b { replayed = true }) × (next.bracket ≡ w.bracket) × (next.budget ≡ w.budget)
  IsReplay b w (next, refused code error reason) = Unit
  IsReplay b w (next, rate_limited n) = Unit
  IsReplay b w (next, residency_refused s) = Unit
  IsReplay b w (next, thrown) = Unit

  refusal-IsReplay :
      (b : CreatedBody crypto.Digest) (w next : World crypto.Digest F) (e : Response crypto.Digest)
      → IsRefusal e
      → IsReplay b w (next, e)
  refusal-IsReplay b w next (created again) h = absurd h
  refusal-IsReplay b w next (refused code error reason) h = tt
  refusal-IsReplay b w next (rate_limited n) h = tt
  refusal-IsReplay b w next (residency_refused s) h = tt
  refusal-IsReplay b w next thrown h = tt

  -- Where the persister is wired, and the session's file, if it can be read, has the id that it is
  -- named by: once a request with an idempotency key is answered with a new decision, a later request
  -- of its session with that key, in any world with the session's files as they were left, is either
  -- refused or given the same answer, marked as a replay, with the files and the budget unchanged.
  pub handle-replays :
      (w next later : World crypto.Digest F) (r again : Request) (body body₂ : RequestBody)
      (bracket : Bracket F) (key : String) (b : CreatedBody crypto.Digest)
      → w.bracket ≡ some bracket
      → OkThen
          (λ s. s.session_id ≡ body.session_id)
          (files.read_session bracket.disk body.session_id)
      → r.body ≡ some body
      → r.idempotency_key ≡ some key
      → handle crypto files opts digest_text w r ≡ (next, created b)
      → b.replayed ≡ false
      → later.bracket ≡ next.bracket
      → again.body ≡ some body₂
      → body₂.session_id ≡ body.session_id
      → again.idempotency_key ≡ some key
      → IsReplay b later (handle crypto files opts digest_text later again)
  handle-replays w next later r again body body₂ bracket key b wired named asked same_key first
        fresh same_files asked_again same_session again_key =
      let kept : IsReplayable crypto files opts digest_text body.session_id key next b =
        subst (Replayable crypto files opts digest_text body.session_id key) first
          (handle-answers w r body (Replayable crypto files opts digest_text body.session_id key)
            (refusal-Replayable body.session_id key)
            (λ n c h p t s.
              subst
                (λ id.
                  Replayable crypto files opts digest_text id key
                    (decide crypto files opts digest_text r c n h))
                s
                (decide-Replayable crypto files opts digest_text r c h n bracket key (p ∙ wired)
                  (subst
                    (λ id. OkThen (λ x. x.session_id ≡ id) (files.read_session bracket.disk id))
                    (sym s) named)
                  same_key))
            asked)
          fresh in
      handle-answers later again body₂ (IsReplay b later) (refusal-IsReplay b later)
        (λ n c h p t s.
          subst (IsReplay b later)
            (sym (
              retry crypto files opts digest_text body.session_id key n b
                (record {
                  bracket = kept.bracket;
                  wired = p ∙ same_files ∙ kept.wired;
                  session = kept.session;
                  on_disk = kept.on_disk;
                  hit = kept.hit;
                  cached = kept.cached;
                  answer = kept.answer;
                })
                again c h again_key (s ∙ same_session)))
            (refl, p, t))
        asked_again
