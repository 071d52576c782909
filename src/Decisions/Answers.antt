-- ===== src/Decisions/Answers.antt =====
-- What holds when the handler answers with a new decision.
use soa_harness_impl.Base.{
  String, ◌≡◌, ◌≢◌, ap, sym, subst, ◌∙◌, refl, false, Option, none, some, List, [], ◌∷◌, ◌++◌,
  arith, Key, Bool-cases, inl, inr, eq_iff, string_key, ◌==◌, ◌||◌, ◌&&◌, not, false≢true,
}
use soa_harness_impl.Base.Result.{Result, ok, err}
use soa_harness_impl.Base.Dict
use soa_harness_impl.Base.Dict.{Dict}
use soa_harness_impl.Audit.{str, AuditRecord}
use soa_harness_impl.Audit.Chain.{Crypto, append}
use soa_harness_impl.Audit.Chain.Integrity.{IsExtra, append_lem}
use soa_harness_impl.Decisions.Limiter.{BearerLimiter, Admission, consume}
use soa_harness_impl.Decisions.Types.{
  BracketFiles, World, Options, Request, Response, refused, rate_limited, residency_refused,
  created, thrown, CreatedBody, decision_text, record_id, at_append, at_limit,
}
use soa_harness_impl.Decisions.Checks.{Checked, check_request, owning_session, refusal, denial}
use soa_harness_impl.Decisions.Bracket.{Opened, open_bracket, open_in}
use soa_harness_impl.Decisions.Verdict.{Verdict, Case, verdict_of, signed}
use soa_harness_impl.Decisions.Guards.{
  PreHook, check_residency, residency_pinned, check_budget, run_pre_hook,
}
use soa_harness_impl.Decisions.Recording.{record_decision, decision_row, is_auto_allow}
use soa_harness_impl.Decisions.Handler.{
  and_then, conclude, created_body, resolved_for, case_of, after_bracket, decide, after_budget,
  after_residency_check, guard, admitted, with_bearer, when_ready, unless_reentrant, handle,
}
use soa_harness_impl.Decisions.Rows.{conclude-chain}
use soa_harness_impl.Decisions.Stages.{
  IsPlain, Ends, IsAuthorized, IsFounded, check_request-Ends, residency_pinned-Ends,
  check_budget-Ends, run_pre_hook-Ends, open_in-Ends, signed-Ends,
}

and_then-Ends :
    {W D A : Type 0} (Q : A → Type 0) (P : W × Response D → Type 0) (m : W × Result (Response D) A)
    (rest : W → A → W × Response D)
    → ((w : W) (e : Response D) → IsPlain e → P (w, e))
    → Ends Q m.1
    → ((w : W) (a : A) → Q a → P (rest w a))
    → P (and_then m rest)
unfolding and_then
and_then-Ends Q P (w, ok a) rest plain q h = h w a q
and_then-Ends Q P (w, err e) rest plain q h = plain w e q

-- A key that the chain does not set itself.
key-IsExtra :
    (crypto : Crypto) (k : String)
    → (k == "timestamp" || k == "prev_hash" || k == "this_hash" || k == "sink_timestamp") ≡ false
    → IsExtra crypto k × (k ≢ "sink_timestamp")
key-IsExtra crypto k h = (
  (
    ground (arith, h, eq_iff k "timestamp"),
    ground (arith, h, eq_iff k "prev_hash"),
    ground (arith, h, eq_iff k "this_hash"),
  ),
  ground (arith, h, eq_iff k "sink_timestamp"),
)

module _ (crypto : Crypto) ⦃same_hash : Key crypto.Digest⦄ {F K : Type 0}
    (files : BracketFiles crypto.Digest F) (opts : Options K)
    (digest_text : crypto.Digest → String) where
  -- A new decision: its row is the chain's last one, and it allows only what the resolver does.
  pub record IsDecided (r : Request) (c : Checked) (w : World crypto.Digest F)
      (b : CreatedBody crypto.Digest) : Type 0 where
    pub row : AuditRecord crypto.Digest
    pub rows : List (AuditRecord crypto.Digest)
    pub last : w.chain.records ≡ rows ++ row ∷ []
    pub row_hash : row.this_hash ≡ b.audit_this_hash
    pub row_id : Dict.get row.extra "id" ≡ some (str b.audit_record_id)
    pub row_decision : Dict.get row.extra "decision" ≡ some (str (decision_text b.decision))
    pub row_session : Dict.get row.extra "session_id" ≡ some (str c.session_id)
    pub resolver_allows :
        (is_auto_allow b.decision
          && not (is_auto_allow (resolved_for crypto files opts digest_text r c).decision))
        ≡ false

  abbrev Fresh : Request → Checked → World crypto.Digest F × Response crypto.Digest → Type 0
  Fresh r c (w, created b) = b.replayed ≡ false → IsDecided r c w b
  Fresh r c (w, refused code error reason) = Unit
  Fresh r c (w, rate_limited n) = Unit
  Fresh r c (w, residency_refused s) = Unit
  Fresh r c (w, thrown) = Unit

  plain-Fresh :
      (r : Request) (c : Checked) (w : World crypto.Digest F) (e : Response crypto.Digest)
      → IsPlain e
      → Fresh r c (w, e)
  plain-Fresh r c w (created b) h = λ f. absurd (false≢true (sym f ∙ h))
  plain-Fresh r c w (refused code error reason) h = tt
  plain-Fresh r c w (rate_limited n) h = tt
  plain-Fresh r c w (residency_refused s) h = tt
  plain-Fresh r c w thrown h = tt

  -- The row keeps the fields of its body.
  row_field :
      (w : World crypto.Digest F) (r : Request) (k : Case crypto.Digest) (v : Verdict)
      (field : String)
      → IsExtra crypto field
      → field ≢ "sink_timestamp"
      → Dict.get
          (append crypto w.chain (decision_row crypto files opts r k v) (r.clock at_append)).1.extra
          field
        ≡ Dict.get (decision_row crypto files opts r k v) field
  row_field w r k v field e n =
      (append_lem crypto w.chain (decision_row crypto files opts r k v) (r.clock at_append) field e
        n).3

  id-field :
      (w : World crypto.Digest F) (r : Request) (k : Case crypto.Digest) (v : Verdict)
      → Dict.get
          (append crypto w.chain (decision_row crypto files opts r k v) (r.clock at_append)).1.extra
          "id"
        ≡ some (str (record_id r))
  unfolding decision_row Dict.get
  id-field w r k v =
      row_field w r k v "id" (key-IsExtra crypto "id" refl).0 (key-IsExtra crypto "id" refl).1

  decision-field :
      (w : World crypto.Digest F) (r : Request) (k : Case crypto.Digest) (v : Verdict)
      → Dict.get
          (append crypto w.chain (decision_row crypto files opts r k v) (r.clock at_append)).1.extra
          "decision"
        ≡ some (str (decision_text v.decision))
  unfolding decision_row Dict.get
  decision-field w r k v =
      row_field w r k v "decision" (key-IsExtra crypto "decision" refl).0
        (key-IsExtra crypto "decision" refl).1

  session-field :
      (w : World crypto.Digest F) (r : Request) (k : Case crypto.Digest) (v : Verdict)
      → Dict.get
          (append crypto w.chain (decision_row crypto files opts r k v) (r.clock at_append)).1.extra
          "session_id"
        ≡ some (str k.checked.session_id)
  unfolding decision_row Dict.get
  session-field w r k v =
      row_field w r k v "session_id" (key-IsExtra crypto "session_id" refl).0
        (key-IsExtra crypto "session_id" refl).1

  conclude-Fresh :
      (r : Request) (c : Checked) (h : PreHook) (opened : Option (Opened crypto.Digest))
      (w : World crypto.Digest F) (v : Verdict)
      → IsFounded (case_of crypto files opts digest_text r c h opened) v
      → Fresh r c (
          conclude crypto files opts digest_text w r
            (case_of crypto files opts digest_text r c h opened)
            h.pending_outcome
            v)
  unfolding conclude created_body record_decision case_of
  conclude-Fresh r c h opened w v f =
      let k = case_of crypto files opts digest_text r c h opened in
      let body = decision_row crypto files opts r k v in
      let now = r.clock at_append in
      λ fresh. record {
        row = (append crypto w.chain body now).1;
        rows = w.chain.records;
        last =
            ap (λ chain. chain.records)
              (conclude-chain crypto files opts digest_text w r k h.pending_outcome v)
            ∙ (append_lem crypto w.chain body now "id" (key-IsExtra crypto "id" refl).0
                (key-IsExtra crypto "id" refl).1).0;
        row_hash = refl;
        row_id = id-field w r k v;
        row_decision = decision-field w r k v;
        row_session = session-field w r k v;
        resolver_allows = f.resolver_allows;
      }

  after_bracket-Fresh :
      (r : Request) (c : Checked) (h : PreHook) (w : World crypto.Digest F)
      (opened : Option (Opened crypto.Digest))
      → Fresh r c (after_bracket crypto files opts digest_text r c h w opened)
  unfolding after_bracket verdict_of
  after_bracket-Fresh r c h w opened =
      let k = case_of crypto files opts digest_text r c h opened in
      and_then-Ends (IsFounded k) (Fresh r c)
        (signed crypto files opts r k w c.pda opts.resolve_pda_verify_key)
        (λ w₁ v. conclude crypto files opts digest_text w₁ r k h.pending_outcome v)
        (plain-Fresh r c) (signed-Ends crypto opts files r k w c.pda opts.resolve_pda_verify_key)
        (λ w₁ v f. conclude-Fresh r c h opened w₁ v f)

  decide-Fresh :
      (r : Request) (c : Checked) (w : World crypto.Digest F) (h : PreHook)
      → Fresh r c (decide crypto files opts digest_text r c w h)
  unfolding decide open_bracket
  decide-Fresh r c w h =
      and_then-Ends (λ _. Unit) (Fresh r c)
        (open_in files w w.bracket opts.runner_version r c h.args_digest)
        (after_bracket crypto files opts digest_text r c h) (plain-Fresh r c)
        (open_in-Ends files w w.bracket opts.runner_version r c h.args_digest)
        (λ w₁ o u. after_bracket-Fresh r c h w₁ o)

  after_budget-Fresh :
      (r : Request) (c : Checked) (w : World crypto.Digest F) (u : Unit {0})
      → Fresh r c (after_budget crypto files opts digest_text r c w u)
  unfolding after_budget
  after_budget-Fresh r c w u =
      and_then-Ends (λ _. Unit) (Fresh r c)
        (run_pre_hook w opts.has_pre_tool_use_command opts.jcs_digest r c)
        (decide crypto files opts digest_text r c) (plain-Fresh r c)
        (run_pre_hook-Ends w opts.has_pre_tool_use_command opts.jcs_digest r c)
        (λ w₁ h u₁. decide-Fresh r c w₁ h)

  after_residency_check-Fresh :
      (r : Request) (c : Checked) (w : World crypto.Digest F) (u : Unit {0})
      → Fresh r c (after_residency_check crypto files opts digest_text r c w u)
  unfolding after_residency_check
  after_residency_check-Fresh r c w u =
      and_then-Ends (λ _. Unit) (Fresh r c) (check_budget w r c)
        (after_budget crypto files opts digest_text r c) (plain-Fresh r c) (check_budget-Ends w r c)
        (λ w₁ u₁ u₂. after_budget-Fresh r c w₁ u₁)

  guard-Fresh :
      (r : Request) (w : World crypto.Digest F) (c : Checked)
      → Fresh r c (guard crypto files opts digest_text r w c)
  unfolding guard check_residency
  guard-Fresh r w c =
      and_then-Ends (λ _. Unit) (Fresh r c) (residency_pinned crypto opts w r c opts.data_residency)
        (after_residency_check crypto files opts digest_text r c) (plain-Fresh r c)
        (residency_pinned-Ends crypto opts w r c opts.data_residency)
        (λ w₁ u u₁. after_residency_check-Fresh r c w₁ u)

  -- The answer to a request that is a new decision.
  abbrev NewDecision :
      Request → World crypto.Digest F → World crypto.Digest F × Response crypto.Digest → Type 0
  NewDecision r w (next, created b) =
      b.replayed ≡ false
      → (bearer : String) × (c : Checked) × (r.bearer ≡ some bearer)
        × IsAuthorized opts.sha256 opts w r bearer c
        × IsDecided r c next b
  NewDecision r w (next, refused code error reason) = Unit
  NewDecision r w (next, rate_limited n) = Unit
  NewDecision r w (next, residency_refused s) = Unit
  NewDecision r w (next, thrown) = Unit

  plain-NewDecision :
      (r : Request) (w next : World crypto.Digest F) (e : Response crypto.Digest)
      → IsPlain e
      → NewDecision r w (next, e)
  plain-NewDecision r w next (created b) h = λ f. absurd (false≢true (sym f ∙ h))
  plain-NewDecision r w next (refused code error reason) h = tt
  plain-NewDecision r w next (rate_limited n) h = tt
  plain-NewDecision r w next (residency_refused s) h = tt
  plain-NewDecision r w next thrown h = tt

  Fresh-NewDecision :
      (r : Request) (w : World crypto.Digest F) (bearer : String) (c : Checked)
      → r.bearer ≡ some bearer
      → IsAuthorized opts.sha256 opts w r bearer c
      → (x : World crypto.Digest F × Response crypto.Digest) → Fresh r c x
      → NewDecision r w x
  Fresh-NewDecision r w bearer c p a (next, created b) h = λ f. (bearer, c, p, a, h f)
  Fresh-NewDecision r w bearer c p a (next, refused code error reason) h = tt
  Fresh-NewDecision r w bearer c p a (next, rate_limited n) h = tt
  Fresh-NewDecision r w bearer c p a (next, residency_refused s) h = tt
  Fresh-NewDecision r w bearer c p a (next, thrown) h = tt

  -- The limiter plays no part in the checks.
  uncounted :
      (w : World crypto.Digest F) (limiter : BearerLimiter) (r : Request) (bearer : String)
      (c : Checked)
      → IsAuthorized opts.sha256 opts (record w { limiter = limiter }) r bearer c
      → IsAuthorized opts.sha256 opts w r bearer c
  uncounted w limiter r bearer c a = record {
    bearer_valid = a.bearer_valid;
    session_found = a.session_found;
    may_decide = a.may_decide;
    body = a.body;
    requested = a.requested;
    session_asked = a.session_asked;
    tool_found = a.tool_found;
    digest_kept = a.digest_kept;
    pda_kept = a.pda_kept;
    sink_accepts = a.sink_accepts;
    agent_may = a.agent_may;
  }

  admitted-NewDecision :
      (w : World crypto.Digest F) (r : Request) (bearer : String) (a : BearerLimiter × Admission)
      → r.bearer ≡ some bearer
      → NewDecision r w (admitted crypto files opts digest_text w r bearer a)
  unfolding admitted
  admitted-NewDecision w r bearer (limiter, admission) p =
      let counted = record w { limiter = limiter } in
      elim (Bool-cases admission.allowed) [
        | inr e ↦ rw e tt
        | inl e ↦ rw e (
            and_then-Ends (IsAuthorized opts.sha256 opts counted r bearer) (NewDecision r w)
              (counted, check_request opts.sha256 opts counted r bearer)
              (guard crypto files opts digest_text r) (plain-NewDecision r w)
              (check_request-Ends opts.sha256 opts counted r bearer)
              (λ w₁ c z.
                Fresh-NewDecision r w bearer c p (uncounted w limiter r bearer c z)
                  (guard crypto files opts digest_text r w₁ c) (guard-Fresh r w₁ c)))
      ]

  with_bearer-NewDecision :
      (w : World crypto.Digest F) (r : Request) (b : Option String)
      → r.bearer ≡ b
      → NewDecision r w (with_bearer crypto files opts digest_text w r b)
  unfolding with_bearer refusal
  with_bearer-NewDecision w r none p = tt
  with_bearer-NewDecision w r (some bearer) p =
      admitted-NewDecision w r bearer (consume w.limiter (opts.sha256 bearer) (r.clock at_limit)) p

  when_ready-NewDecision :
      (w : World crypto.Digest F) (r : Request) (n : Option String)
      → NewDecision r w (when_ready crypto files opts digest_text w r n)
  unfolding when_ready
  when_ready-NewDecision w r (some reason) = tt
  when_ready-NewDecision w r none = with_bearer-NewDecision w r r.bearer refl

  unless_reentrant-NewDecision :
      (w : World crypto.Digest F) (r : Request) (o : Option String)
      → NewDecision r w (unless_reentrant crypto files opts digest_text w r o)
  unfolding unless_reentrant denial
  unless_reentrant-NewDecision w r (some owner) = tt
  unless_reentrant-NewDecision w r none = when_ready-NewDecision w r r.not_ready

  -- If a request is answered with a new decision, its bearer is valid for the session that its body
  -- names, which may decide, the tool that its body names is registered, and neither the sink nor the
  -- agent's type forbids it; the last
  -- row of the audit chain has the answer's hash, id and decision and the session's id; and an
  -- AutoAllow is the resolver's own decision.
  pub handle-IsDecided :
      (w next : World crypto.Digest F) (r : Request) (b : CreatedBody crypto.Digest)
      → handle crypto files opts digest_text w r ≡ (next, created b)
      → b.replayed ≡ false
      → (bearer : String) × (c : Checked) × (r.bearer ≡ some bearer)
        × IsAuthorized opts.sha256 opts w r bearer c
        × IsDecided r c next b
  unfolding handle
  handle-IsDecided w next r b h =
      subst (NewDecision r w) h (unless_reentrant-NewDecision w r (owning_session w r))
