-- ===== src/Decisions/Replay.antt =====
-- From the bracket on: what a decision leaves on disk for a retry, and what a retry is answered.
use soa_harness_impl.Base.{
  String, ◌≡◌, ap, sym, subst, ◌∙◌, refl, true, false, Option, none, some, [], ◌∷◌, ◌++◌, length,
  arith, Key, false≢true, same_self, string_key, option_or,
}
use soa_harness_impl.Base.Result.{Result, ok, err, OkThen}
use soa_harness_impl.Audit.Chain.{Crypto}
use soa_harness_impl.Decisions.Types.{
  BracketFiles, Bracket, BracketSession, CachedDecisionFields, World, Options, Request, Response,
  refused, rate_limited, residency_refused, created, thrown, CreatedBody, ReadError, file_missing,
  unreadable, idempotency,
}
use soa_harness_impl.Decisions.Checks.{Checked}
use soa_harness_impl.Decisions.Bracket.{
  Opened, find_hit, or_else, is_committed, update_at, replay_of, synthesized, load, hit_in,
  open_bracket, open_in, open_loaded, open_unless, open_new, pending_effect, commit_in,
  commit_bracket, commit_effect, save,
}
use soa_harness_impl.Decisions.Verdict.{Verdict, verdict_of, signed}
use soa_harness_impl.Decisions.Guards.{PreHook}
use soa_harness_impl.Decisions.Recording.{record_decision, cached_fields, key_of}
use soa_harness_impl.Decisions.Handler.{
  and_then, created_body, conclude, case_of, after_bracket, decide,
}
use soa_harness_impl.Decisions.Stages.{IsPlain, Ends, IsFounded, signed-Ends}
use soa_harness_impl.Decisions.Kept.{
  Keeps, signed-Keeps, conclude-bracket, update_at-last, find_hit-last,
}

module _ (crypto : Crypto) ⦃same_hash : Key crypto.Digest⦄ {F K : Type 0}
    (files : BracketFiles crypto.Digest F) (opts : Options K)
    (digest_text : crypto.Digest → String) where
  -- The answer is on disk, under its key, for a retry.
  pub record IsReplayable (session_id key : String) (w : World crypto.Digest F)
      (b : CreatedBody crypto.Digest) : Type 0 where
    pub bracket : Bracket F
    pub wired : w.bracket ≡ some bracket
    pub session : BracketSession crypto.Digest
    pub on_disk : files.read_session bracket.disk session_id ≡ ok session
    pub hit : CachedDecisionFields crypto.Digest
    pub cached : find_hit key session.side_effects ≡ some hit
    pub answer : replay_of opts.runner_version key hit ≡ created (record b { replayed = true })

  pub retry :
      (session_id key : String) (w : World crypto.Digest F) (b : CreatedBody crypto.Digest)
      → IsReplayable session_id key w b
      → (r : Request) (c : Checked) (h : PreHook) → r.idempotency_key ≡ some key
      → c.session_id ≡ session_id
      → decide crypto files opts digest_text r c w h ≡ (w, created (record b { replayed = true }))
  unfolding decide open_bracket open_in open_loaded load open_unless hit_in and_then
  retry session_id key w b i r c h same_key same_session =
      let v = opts.runner_version in
      let rest = after_bracket crypto files opts digest_text r c h in
      let found : hit_in r.idempotency_key i.session ≡ some (key, i.hit) =
        ap (λ k. hit_in k i.session) same_key
        ∙ ap (λ o. elim o [ none ↦ none | some x ↦ some (key, x) ]) i.cached in
      ap (λ o. and_then (open_in files w o v r c h.args_digest) rest) i.wired
      ∙ ap
          (λ e.
            and_then (open_loaded files w i.bracket v r c h.args_digest (load i.bracket r c e))
              rest)
          (ap (files.read_session i.bracket.disk) same_session ∙ i.on_disk)
      ∙ ap (λ o. and_then (open_unless files w i.bracket v r c h.args_digest i.session o) rest)
          found
      ∙ ap (λ answer. (w, answer)) i.answer

  abbrev pub Replayable : String → String → World crypto.Digest F × Response crypto.Digest → Type 0
  Replayable session_id key (w, created b) = b.replayed ≡ false → IsReplayable session_id key w b
  Replayable session_id key (w, refused code error reason) = Unit
  Replayable session_id key (w, rate_limited n) = Unit
  Replayable session_id key (w, residency_refused s) = Unit
  Replayable session_id key (w, thrown) = Unit

  -- What `commit` makes of the pending side effect is a hit.
  find_hit-committed :
      (r : Request) (c : Checked) (digest key : String)
      (fields : CachedDecisionFields crypto.Digest)
      → find_hit key (commit_effect files r fields (pending_effect r c digest key) ∷ [])
        ≡ some fields
  unfolding find_hit or_else is_committed pending_effect commit_effect
  find_hit-committed r c digest key fields = ground (arith, same_self key)

  conclude-Replayable :
      (r : Request) (c : Checked) (h : PreHook) (w : World crypto.Digest F) (b : Bracket F)
      (s : BracketSession crypto.Digest) (key : String)
      → s.session_id ≡ c.session_id
      → find_hit key s.side_effects ≡ none
      → w.bracket ≡ some b
      → (v : Verdict)
      → let opened : Opened crypto.Digest = record {
        session_id = c.session_id;
        session = record s {
          side_effects = s.side_effects ++ pending_effect r c h.args_digest key ∷ [];
        };
        index = length s.side_effects;
        key = key;
      } in
        let k = case_of crypto files opts digest_text r c h (some opened) in
        Replayable c.session_id key
          (conclude crypto files opts digest_text w r k h.pending_outcome v)
  unfolding conclude created_body cached_fields key_of replay_of record_decision case_of commit_in
      commit_bracket save
  conclude-Replayable r c h w b s key same none_yet wired v =
      let effect = pending_effect r c h.args_digest key in
      let opened : Opened crypto.Digest = record {
        session_id = c.session_id;
        session = record s { side_effects = s.side_effects ++ effect ∷ [] };
        index = length s.side_effects;
        key = key;
      } in
      let k = case_of crypto files opts digest_text r c h (some opened) in
      let fields =
        cached_fields crypto files opts r k v (record_decision crypto files opts w r k v).1 in
      let session = record s {
        side_effects =
            update_at (length s.side_effects) (commit_effect files r fields)
              (s.side_effects ++ effect ∷ []);
      } in
      λ fresh. record {
        bracket = commit_bracket files r fields b opened;
        wired =
            conclude-bracket crypto files opts digest_text w r k h.pending_outcome v
            ∙ ap (λ o. commit_in files r fields o (some opened)) wired;
        session = session;
        on_disk =
            subst
              (λ id.
                files.read_session (commit_bracket files r fields b opened).disk id ≡ ok session)
              same (files.read-write b.disk session);
        hit = fields;
        cached =
            ap (find_hit key) (update_at-last (commit_effect files r fields) s.side_effects effect)
            ∙ find_hit-last key s.side_effects (commit_effect files r fields effect) none_yet
            ∙ find_hit-committed r c h.args_digest key fields;
        answer = refl;
      }

  plain-Replayable :
      (session_id key : String) (w : World crypto.Digest F) (e : Response crypto.Digest)
      → IsPlain e
      → Replayable session_id key (w, e)
  plain-Replayable session_id key w (created b) h = λ f. absurd (false≢true (sym f ∙ h))
  plain-Replayable session_id key w (refused code error reason) h = tt
  plain-Replayable session_id key w (rate_limited n) h = tt
  plain-Replayable session_id key w (residency_refused s) h = tt
  plain-Replayable session_id key w thrown h = tt

  verdict-Replayable :
      (session_id key : String) (Q : Verdict → Type 0)
      (rest : World crypto.Digest F → Verdict → World crypto.Digest F × Response crypto.Digest)
      (w : World crypto.Digest F)
      (m : World crypto.Digest F × Result (Response crypto.Digest) Verdict)
      → Keeps w m
      → Ends Q m.1
      → ((v : Verdict) → Replayable session_id key (rest w v))
      → Replayable session_id key (and_then m rest)
  unfolding and_then
  verdict-Replayable session_id key Q rest w (next, ok v) k e h =
      subst (λ x. Replayable session_id key (rest x v)) (sym k) (h v)
  verdict-Replayable session_id key Q rest w (next, err a) k e h =
      plain-Replayable session_id key next a e

  -- The bracket that is opened without a hit.
  opened-Replayable :
      (r : Request) (c : Checked) (h : PreHook) (w : World crypto.Digest F) (b : Bracket F)
      (s : BracketSession crypto.Digest)
      → s.session_id ≡ c.session_id
      → find_hit (option_or r.idempotency_key (r.draw idempotency)) s.side_effects ≡ none
      → let (w₁, opened) = open_new files w b r c h.args_digest s in
        Replayable c.session_id
          (option_or r.idempotency_key (r.draw idempotency))
          (after_bracket crypto files opts digest_text r c h w₁ (some opened))
  unfolding open_new after_bracket verdict_of
  opened-Replayable r c h w b s same none_yet =
      let w₁ = (open_new files w b r c h.args_digest s).0 in
      let opened = (open_new files w b r c h.args_digest s).1 in
      let key = option_or r.idempotency_key (r.draw idempotency) in
      let k = case_of crypto files opts digest_text r c h (some opened) in
      verdict-Replayable c.session_id key (IsFounded k)
        (λ w₂ v. conclude crypto files opts digest_text w₂ r k h.pending_outcome v) w₁
        (signed crypto files opts r k w₁ c.pda opts.resolve_pda_verify_key)
        (signed-Keeps crypto files opts r k w₁ c.pda opts.resolve_pda_verify_key)
        (signed-Ends crypto opts files r k w₁ c.pda opts.resolve_pda_verify_key)
        (λ v. conclude-Replayable r c h w₁ _ s key same none_yet refl v)

  -- With the session loaded, and an idempotency key.
  unless-Replayable :
      (r : Request) (c : Checked) (h : PreHook) (w : World crypto.Digest F) (b : Bracket F)
      (s : BracketSession crypto.Digest) (key : String)
      → r.idempotency_key ≡ some key
      → s.session_id ≡ c.session_id
      → (hit : Option (CachedDecisionFields crypto.Digest)) → find_hit key s.side_effects ≡ hit
      → Replayable c.session_id key (
          and_then
            (open_unless files w b opts.runner_version r c h.args_digest s
              (elim hit [ none ↦ none | some x ↦ some (key, x) ]))
            (after_bracket crypto files opts digest_text r c h))
  unfolding and_then open_unless
  unless-Replayable r c h w b s key same_key same (some x) e =
      plain-Replayable c.session_id key w (replay_of opts.runner_version key x)
        (unfold replay_of in refl)
  unless-Replayable r c h w b s key same_key same none e =
      let actual : option_or r.idempotency_key (r.draw idempotency) ≡ key =
        ap (λ o. option_or o (r.draw idempotency)) same_key in
      let (w₁, opened) = open_new files w b r c h.args_digest s in
      subst
        (λ x.
          Replayable c.session_id x
            (after_bracket crypto files opts digest_text r c h w₁ (some opened)))
        actual
        (opened-Replayable r c h w b s same
          (subst (λ x. find_hit x s.side_effects ≡ none) (sym actual) e))

  loaded-Replayable :
      (r : Request) (c : Checked) (h : PreHook) (w : World crypto.Digest F) (b : Bracket F)
      (key : String) (read : Result ReadError (BracketSession crypto.Digest))
      → r.idempotency_key ≡ some key
      → OkThen (λ s. s.session_id ≡ c.session_id) read
      → Replayable c.session_id key (
          and_then
            (open_loaded files w b opts.runner_version r c h.args_digest (load b r c read))
            (after_bracket crypto files opts digest_text r c h))
  unfolding and_then open_loaded load hit_in synthesized
  loaded-Replayable r c h w b key (err unreadable) same_key named = tt
  loaded-Replayable r c h w b key (err file_missing) same_key named =
      let s = synthesized b r c in
      subst
        (λ o. Replayable c.session_id key (
          and_then (open_unless files w b opts.runner_version r c h.args_digest s (hit_in o s))
            (after_bracket crypto files opts digest_text r c h)))
        (sym same_key)
        (unless-Replayable r c h w b s key same_key refl (find_hit key s.side_effects) refl)
  loaded-Replayable r c h w b key (ok s) same_key named =
      subst
        (λ o. Replayable c.session_id key (
          and_then (open_unless files w b opts.runner_version r c h.args_digest s (hit_in o s))
            (after_bracket crypto files opts digest_text r c h)))
        (sym same_key)
        (unless-Replayable r c h w b s key same_key named (find_hit key s.side_effects) refl)

  pub decide-Replayable :
      (r : Request) (c : Checked) (h : PreHook) (w : World crypto.Digest F) (b : Bracket F)
      (key : String)
      → w.bracket ≡ some b
      → OkThen (λ s. s.session_id ≡ c.session_id) (files.read_session b.disk c.session_id)
      → r.idempotency_key ≡ some key
      → Replayable c.session_id key (decide crypto files opts digest_text r c w h)
  unfolding decide open_bracket open_in
  decide-Replayable r c h w b key wired named same_key =
      subst
        (λ o. Replayable c.session_id key (
          and_then (open_in files w o opts.runner_version r c h.args_digest)
            (after_bracket crypto files opts digest_text r c h)))
        (sym wired)
        (loaded-Replayable r c h w b key (files.read_session b.disk c.session_id) same_key named)
