-- ===== src/Decisions/Bracket.antt =====
-- packages/runner/src/permission/decisions-route.ts: the side effect that brackets a decision in the
-- session's file: opened as pending, then committed with the answer that a retry is given, or
-- compensated.
use soa_harness_impl.Base.{
  ℕ, zero, suc, String, Bool, true, false, ◌&&◌, Option, none, some, List, [], ◌∷◌, ◌++◌, length,
  ◌==◌, string_key, if◌then◌else◌, option_or,
}
use soa_harness_impl.Base.Result.{Result, ok, err}
use soa_harness_impl.Session.Resume.{Phase, pending, committed, compensated}
use soa_harness_impl.Decisions.Types.{
  CachedDecisionFields, CachedSideEffect, BracketSession, ReadError, file_missing, unreadable,
  BracketFiles, Mark, pending_write_done, committed_write_done, tool_invoke_start, tool_invoke_done,
  dir_fsync_done, invoke_committed, invoke_compensated, Bracket, World, Request, Response, created,
  thrown, at_load, at_pending, at_commit, at_compensation, idempotency,
}
use soa_harness_impl.Decisions.Checks.{Checked}

-- `sessionId`, `bracketSession`, `sideEffectIndex` and `bracketIdempotencyKey`
pub record Opened (D : Type 0) : Type 0 where
  pub session_id : String
  pub session : BracketSession D
  pub index : ℕ
  pub key : String

unfoldable pub is_committed : Phase → Bool
is_committed committed = true
is_committed _ = false

unfoldable pub or_else : {A : Type 0} → Option A → Option A → Option A
or_else none rest = rest
or_else (some a) rest = some a

-- The first side effect of this key that is committed with its answer.
unfoldable pub find_hit :
    {D : Type 0} → String → List (CachedSideEffect D) → Option (CachedDecisionFields D)
unfolding is_committed or_else
find_hit key [] = none
find_hit key (se ∷ ses) =
    let rest = find_hit key ses in
    if se.idempotency_key == key && is_committed se.phase then or_else se.cached rest else rest

-- `list[index]` changed in place, where it is there
unfoldable pub update_at : {A : Type 0} → ℕ → (A → A) → List A → List A
update_at i f [] = []
update_at zero f (x ∷ xs) = f x ∷ xs
update_at (suc i) f (x ∷ xs) = x ∷ update_at i f xs

unfoldable pub replay_of : {D : Type 0} → String → String → CachedDecisionFields D → Response D
replay_of runner_version key hit = created (record {
  decision = hit.decision;
  resolved_capability = hit.resolved_capability;
  resolved_control = hit.resolved_control;
  reason = hit.reason;
  audit_record_id = hit.audit_record_id;
  audit_this_hash = hit.audit_this_hash;
  handler_accepted = hit.handler_accepted;
  runner_version = runner_version;
  recorded_at = hit.recorded_at;
  idempotency_key = some key;
  replayed = true;
})

unfoldable pub synthesized : {D F : Type 0} → Bracket F → Request → Checked → BracketSession D
synthesized b r c = record {
  session_id = c.session_id;
  active_mode = c.session.active_mode;
  created_at = r.clock at_load;
  side_effects = [];
  tool_pool_hash = b.tool_pool_hash;
  card_version = b.card_version;
}

-- loadOrSynthesizeSession
unfoldable pub load :
    {D F : Type 0}
    → Bracket F
    → Request
    → Checked
    → Result ReadError (BracketSession D)
    → Result (Response D) (BracketSession D)
unfolding synthesized
load b r c (ok s) = ok s
load b r c (err file_missing) = ok (synthesized b r c)
load b r c (err unreadable) = err thrown

-- The side effect that is pushed.
unfoldable pub pending_effect :
    {D : Type 0} → Request → Checked → String → String → CachedSideEffect D
pending_effect r c args_digest key = record {
  tool = c.tool.name;
  idempotency_key = key;
  phase = pending;
  args_digest = args_digest;
  result_digest = none;
  first_attempted_at = r.clock at_pending;
  last_phase_transition_at = r.clock at_pending;
  cached = none;
}

unfoldable pub hit_in :
    {D : Type 0} → Option String → BracketSession D → Option (String × CachedDecisionFields D)
unfolding find_hit
hit_in none s = none
hit_in (some key) s = elim (find_hit key s.side_effects) [
  | none ↦ none
  | some hit ↦ some (key, hit)
]

module _ {D F : Type 0} (files : BracketFiles D F) where
  -- writeSession, with the marks before its last one.
  unfoldable pub save : Bracket F → BracketSession D → List Mark → Bracket F
  save b s marks = record b {
    disk = files.write_session b.disk s;
    marks = b.marks ++ marks ++ dir_fsync_done s.session_id ∷ [];
  }

  -- The pending side effect on disk, before the tool is decided.
  unfoldable pub open_new :
      World D F → Bracket F → Request → Checked → String → BracketSession D → World D F × Opened D
  unfolding save pending_effect
  open_new w b r c args_digest s =
      let key = option_or r.idempotency_key (r.draw idempotency) in
      let index = length s.side_effects in
      let opened = record s {
        side_effects = s.side_effects ++ pending_effect r c args_digest key ∷ [];
      } in
      let saved = save b opened (pending_write_done s.session_id index ∷ []) in
      (
        record w {
          bracket =
              some
                (record saved { marks = saved.marks ++ tool_invoke_start c.session_id index ∷ [] });
        },
        record { session_id = c.session_id; session = opened; index = index; key = key },
      )

  -- With the session loaded: a committed side effect of the client's key answers for itself.
  unfoldable pub open_unless :
      World D F
      → Bracket F
      → String
      → Request
      → Checked
      → String
      → BracketSession D
      → Option (String × CachedDecisionFields D)
      → World D F × Result (Response D) (Option (Opened D))
  unfolding open_new
  open_unless w b runner_version r c args_digest s (some (key, hit)) =
      (w, err (replay_of runner_version key hit))
  open_unless w b runner_version r c args_digest s none =
      let (next, opened) = open_new w b r c args_digest s in (next, ok (some opened))

  unfoldable pub open_loaded :
      World D F
      → Bracket F
      → String
      → Request
      → Checked
      → String
      → Result (Response D) (BracketSession D)
      → World D F × Result (Response D) (Option (Opened D))
  unfolding open_unless hit_in
  open_loaded w b runner_version r c args_digest (err response) = (w, err response)
  open_loaded w b runner_version r c args_digest (ok s) =
      open_unless w b runner_version r c args_digest s (hit_in r.idempotency_key s)

  unfoldable pub open_in :
      World D F
      → Option (Bracket F)
      → String
      → Request
      → Checked
      → String
      → World D F × Result (Response D) (Option (Opened D))
  unfolding open_loaded load
  open_in w none runner_version r c args_digest = (w, ok none)
  open_in w (some b) runner_version r c args_digest =
      open_loaded w b runner_version r c args_digest
        (load b r c (files.read_session b.disk c.session_id))

  -- The bracket of a decision; an answer that is cached, or an unreadable file, ends the request.
  unfoldable pub open_bracket :
      World D F
      → String
      → Request
      → Checked
      → String
      → World D F × Result (Response D) (Option (Opened D))
  unfolding open_in
  open_bracket w runner_version r c args_digest = open_in w w.bracket runner_version r c args_digest

  unfoldable pub compensate_in :
      Request → Option (Bracket F) → Option (Opened D) → Option (Bracket F)
  unfolding save update_at
  compensate_in r none opened = none
  compensate_in r (some b) none = some b
  compensate_in r (some b) (some o) =
      let compensated_session = record o.session {
        side_effects =
            update_at o.index
              (λ se. record se {
                phase = compensated;
                last_phase_transition_at = r.clock at_compensation;
              })
              o.session.side_effects;
      } in
      let saved = save b compensated_session [] in
      some (record saved {
        marks = saved.marks ++ tool_invoke_done o.session_id o.index invoke_compensated ∷ [];
      })

  -- compensatePendingSideEffect.
  unfoldable pub compensate : World D F → Request → Option (Opened D) → World D F
  unfolding compensate_in
  compensate w r opened = record w { bracket = compensate_in r w.bracket opened }

  unfoldable pub commit_effect :
      Request → CachedDecisionFields D → CachedSideEffect D → CachedSideEffect D
  commit_effect r fields se = record se {
    phase = committed;
    last_phase_transition_at = r.clock at_commit;
    result_digest = some fields.audit_this_hash;
    cached = some fields;
  }

  unfoldable pub commit_bracket :
      Request → CachedDecisionFields D → Bracket F → Opened D → Bracket F
  unfolding save update_at commit_effect
  commit_bracket r fields b o =
      let done = record b {
        marks = b.marks ++ tool_invoke_done o.session_id o.index invoke_committed ∷ [];
      } in
      save done
        (record o.session {
          side_effects = update_at o.index (commit_effect r fields) o.session.side_effects;
        })
        (committed_write_done o.session.session_id o.index ∷ [])

  unfoldable pub commit_in :
      Request → CachedDecisionFields D → Option (Bracket F) → Option (Opened D) → Option (Bracket F)
  unfolding commit_bracket
  commit_in r fields none opened = none
  commit_in r fields (some b) none = some b
  commit_in r fields (some b) (some o) = some (commit_bracket r fields b o)

  -- The side effect is committed with the fields that a retry is answered with.
  unfoldable pub commit :
      World D F → Request → CachedDecisionFields D → Option (Opened D) → World D F
  unfolding commit_in
  commit w r fields opened = record w { bracket = commit_in r fields w.bracket opened }
