-- ===== src/Session/Resume.antt =====
-- packages/runner/src/session/resume.ts and migrate.ts: the resumption of a persisted session. The
-- tools' state is `W`; a tool's replay or compensation may change it and may throw `X`. The
-- session files are an interface, since their bytes go through the platform.
pub mod Effects
pub mod Idempotence
mod Tests
use soa_harness_impl.Base.{
  ◌≡◌, ℕ, zero, suc, String, Bool, true, false, not, Option, none, some, List, [], ◌∷◌,
  if◌then◌else◌, ◌==◌, string_key,
}
use soa_harness_impl.Base.Result.{Result, ok, err}
use soa_harness_impl.Permission.{Capability}

pub data Phase : Type 0 where
  pending inflight committed compensated : Phase

pub record PersistedSideEffect : Type 0 where
  pub tool : String
  pub idempotency_key : String
  pub phase : Phase
  pub args_digest : Option String
  pub result_digest : Option String
  pub first_attempted_at : Option String
  pub last_phase_transition_at : Option String
  pub compensation_gap : Bool

-- `card_version` and `tool_pool_hash` are none where the file has no string there; a workflow
-- without an array of side effects has the empty list.
pub record PersistedSession : Type 0 where
  pub session_id : String
  pub active_mode : Option Capability
  pub tool_pool_hash : Option String
  pub card_version : Option String
  pub side_effects : List PersistedSideEffect
  pub migrated_from_pre1 : Bool

with_mode : PersistedSession → Capability → Option Capability → PersistedSession
with_mode file card_mode none = record file {
  active_mode = some card_mode;
  migrated_from_pre1 = true;
}
with_mode file card_mode (some mode) = file

-- migratePre1SessionFile
pub migrate : PersistedSession → Capability → PersistedSession
unfolding with_mode
migrate file card_mode = with_mode file card_mode file.active_mode

pub data Action : Type 0 where
  replayed skipped compensated_now compensation_gap : Action

pub record ResumedSideEffect : Type 0 where
  pub index : ℕ
  pub tool : String
  pub idempotency_key : String
  pub action : Action

pub data ResumeOutcomeKind : Type 0 where
  resumed migrated : ResumeOutcomeKind

pub record ResumeOutcome : Type 0 where
  pub kind : ResumeOutcomeKind
  pub session : PersistedSession
  pub side_effects : List ResumedSideEffect

pub data ResumeError (X : Type 0) : Type 0 where
  session_id_mismatch schema_violation : ResumeError X
  card_version_drift : (expected actual : String) → ResumeError X
  tool_pool_stale : ResumeError X
  thrown : X → ResumeError X

-- What the algorithm is given: the served card and tools, and the calls that it makes. `now` is
-- what the clock says, as an ISO string, for the side effect at an index.
pub record ResumeContext (W X : Type 0) : Type 0 where
  pub current_card_version : String
  pub current_tool_pool_hash : String
  pub can_compensate : String → Option Bool
  pub replay_pending : W → PersistedSideEffect → W × Result X (Option String)
  pub compensate : W → PersistedSideEffect → W × Result X (Unit {0})
  pub card_active_mode : Capability
  pub now : ℕ → String

-- The session files: `D` is the disk. What is written is what is read.
pub record SessionFiles (D X : Type 0) : Type 0 where
  pub read_for_resume : D → String → Result X PersistedSession
  pub write_session : D → PersistedSession → D
  pub read-write :
      (d : D) (s : PersistedSession) → read_for_resume (write_session d s) s.session_id ≡ ok s

keep_digest : Option String → Option String → Option String
keep_digest before none = before
keep_digest before (some digest) = some digest

is_true : Option Bool → Bool
is_true none = false
is_true (some b) = b

pub kind_of : PersistedSession → ResumeOutcomeKind
kind_of s = if s.migrated_from_pre1 then migrated else resumed

pub text_of : Option String → String
text_of none = ""
text_of (some s) = s

row : ℕ → PersistedSideEffect → Action → ResumedSideEffect
row idx se action = record {
  index = idx;
  tool = se.tool;
  idempotency_key = se.idempotency_key;
  action = action;
}

module _ {W X : Type 0} (ctx : ResumeContext W X) where
  -- What a replay's result makes of the side effect.
  after_replay :
      ℕ
      → PersistedSideEffect
      → W × Result X (Option String)
      → W × Result X (PersistedSideEffect × ResumedSideEffect)
  unfolding keep_digest row
  after_replay idx se (w, err x) = (w, err x)
  after_replay idx se (w, ok digest) = (
    w,
    ok (
      record se {
        phase = committed;
        result_digest = keep_digest se.result_digest digest;
        last_phase_transition_at = some (ctx.now idx);
      },
      row idx se replayed,
    ),
  )

  after_compensate :
      ℕ
      → PersistedSideEffect
      → W × Result X (Unit {0})
      → W × Result X (PersistedSideEffect × ResumedSideEffect)
  unfolding row
  after_compensate idx se (w, err x) = (w, err x)
  after_compensate idx se (w, ok done) = (
    w,
    ok (
      record se { phase = compensated; last_phase_transition_at = some (ctx.now idx) },
      row idx se compensated_now,
    ),
  )

  resume_phase :
      W → ℕ → PersistedSideEffect → Phase → W × Result X (PersistedSideEffect × ResumedSideEffect)
  unfolding after_replay after_compensate is_true row
  resume_phase w idx se pending = after_replay idx se (ctx.replay_pending w se)
  resume_phase w idx se committed = (w, ok (se, row idx se skipped))
  resume_phase w idx se inflight =
      if is_true (ctx.can_compensate se.tool)
      then after_compensate idx se (ctx.compensate w se)
      else (
        w,
        ok (
          record se {
            phase = compensated;
            compensation_gap = true;
            last_phase_transition_at = some (ctx.now idx);
          },
          row idx se compensation_gap,
        ),
      )
  resume_phase w idx se compensated = (w, ok (se, row idx se skipped))

  -- One side effect, by its phase.
  pub resume_one :
      W → ℕ → PersistedSideEffect → W × Result X (PersistedSideEffect × ResumedSideEffect)
  unfolding resume_phase
  resume_one w idx se = resume_phase w idx se se.phase

  also :
      PersistedSideEffect × ResumedSideEffect
      → W × Result X (List PersistedSideEffect × List ResumedSideEffect)
      → W × Result X (List PersistedSideEffect × List ResumedSideEffect)
  also (se, r) (w, ok (ses, rs)) = (w, ok (se ∷ ses, r ∷ rs))
  also (se, r) (w, err x) = (w, err x)

  -- Goes on after a side effect unless it threw.
  and_then :
      W × Result X (PersistedSideEffect × ResumedSideEffect)
      → (W → W × Result X (List PersistedSideEffect × List ResumedSideEffect))
      → W × Result X (List PersistedSideEffect × List ResumedSideEffect)
  unfolding also
  and_then (w, err x) rest = (w, err x)
  and_then (w, ok done) rest = also done (rest w)

  -- The loop over the side effects, from this index. An error ends it, with the tools' state as it
  -- is then.
  pub resume_all :
      W
      → ℕ
      → List PersistedSideEffect
      → W × Result X (List PersistedSideEffect × List ResumedSideEffect)
  unfolding resume_one and_then
  resume_all w idx [] = (w, ok ([], []))
  resume_all w idx (se ∷ ses) = and_then (resume_one w idx se) (λ w₁. resume_all w₁ (suc idx) ses)

  module _ {D : Type 0} (files : SessionFiles D X) (valid : PersistedSession → Bool) where
    -- writeSession and the result, after the loop
    finish :
        D
        → PersistedSession
        → W × Result X (List PersistedSideEffect × List ResumedSideEffect)
        → (D × W) × Result (ResumeError X) ResumeOutcome
    unfolding kind_of
    finish d s (w, err x) = ((d, w), err (thrown x))
    finish d s (w, ok (ses, actions)) =
        let final = record s { side_effects = ses } in
        (
          (files.write_session d final, w),
          ok (record { kind = kind_of s; session = final; side_effects = actions }),
        )

    -- The checks of the migrated session and the loop.
    resume_checked : D → W → PersistedSession → (D × W) × Result (ResumeError X) ResumeOutcome
    unfolding resume_all finish text_of
    resume_checked d w s =
        let done = finish d s (resume_all w 0 s.side_effects) in
        if not (valid s)
        then ((d, w), err schema_violation)
        else if not (text_of s.card_version == ctx.current_card_version)
        then ((d, w), err (card_version_drift ctx.current_card_version (text_of s.card_version)))
        else if not (text_of s.tool_pool_hash == ctx.current_tool_pool_hash)
        then ((d, w), err tool_pool_stale)
        else done

    resume_read :
        D → W → String → Result X PersistedSession → (D × W) × Result (ResumeError X) ResumeOutcome
    unfolding resume_checked migrate
    resume_read d w session_id (err x) = ((d, w), err (thrown x))
    resume_read d w session_id (ok raw) =
        if not (raw.session_id == session_id)
        then ((d, w), err session_id_mismatch)
        else resume_checked d w (migrate raw ctx.card_active_mode)

    -- resumeSession
    pub resume_session : D → W → String → (D × W) × Result (ResumeError X) ResumeOutcome
    unfolding resume_read
    resume_session d w session_id = resume_read d w session_id (files.read_for_resume d session_id)
