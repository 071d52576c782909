-- ===== src/Session/Resume/Tests.antt =====
-- Inputs at which the theorems of the resume algorithm apply.
use soa_harness_impl.Base.{
  ℕ, suc, ◌≡◌, refl, String, Bool, true, false, none, some, List, [], ◌∷◌, string_key, All,
}
use soa_harness_impl.Base.Dict
use soa_harness_impl.Base.Dict.{Dict, get-set_self}
use soa_harness_impl.Base.Result.{ok, or_throw}
use soa_harness_impl.Permission.{read_only_mode}
use soa_harness_impl.Session.Resume.{
  PersistedSideEffect, PersistedSession, Phase, pending, inflight, committed, compensated,
  ResumeContext, SessionFiles, ResumeOutcome, ResumedSideEffect, ResumeError, card_version_drift,
  replayed, compensation_gap, row, keep_digest, is_true, text_of, kind_of, migrate, with_mode,
  after_replay, after_compensate, resume_phase, resume_one, also, and_then, resume_all, finish,
  resume_checked, resume_read, resume_session,
}
use soa_harness_impl.Session.Resume.Effects.{IsSettled, skips, resume_all-ok-settles}
use soa_harness_impl.Session.Resume.Idempotence.{resume_session-idempotent}

abbrev effect : Phase → PersistedSideEffect
effect phase = record {
  tool = "send_mail";
  idempotency_key = "k";
  phase = phase;
  args_digest = none;
  result_digest = none;
  first_attempted_at = none;
  last_phase_transition_at = none;
  compensation_gap = false;
}

-- The tools' state counts the replays.
abbrev context : ResumeContext ℕ String
context = record {
  current_card_version = "2";
  current_tool_pool_hash = "h";
  can_compensate = λ tool. none;
  replay_pending = λ w se. (suc w, ok (some "digest"));
  compensate = λ w se. (w, ok tt);
  card_active_mode = read_only_mode;
  now = λ idx. "now";
}

abbrev disk_files : SessionFiles (Dict String PersistedSession) String
disk_files = record {
  read_for_resume = λ d id. or_throw (Dict.get d id) "file-missing";
  write_session = λ d s. Dict.set d s.session_id s;
  read-write = λ d s. rw (get-set_self d s.session_id s) refl;
}

abbrev schema : PersistedSession → Bool
schema s = true

abbrev crashed : PersistedSession
crashed = record {
  session_id = "ses_1";
  active_mode = none;
  tool_pool_hash = some "h";
  card_version = some "2";
  side_effects = effect committed ∷ effect pending ∷ effect inflight ∷ [];
  migrated_from_pre1 = false;
}

abbrev replayed_effect : PersistedSideEffect
replayed_effect = record (effect committed) {
  result_digest = some "digest";
  last_phase_transition_at = some "now";
}

abbrev gap_effect : PersistedSideEffect
gap_effect = record (effect compensated) {
  compensation_gap = true;
  last_phase_transition_at = some "now";
}

abbrev settled_effects : List PersistedSideEffect
settled_effects = effect committed ∷ replayed_effect ∷ gap_effect ∷ []

abbrev settled_session : PersistedSession
settled_session = record crashed {
  active_mode = some read_only_mode;
  side_effects = settled_effects;
  migrated_from_pre1 = true;
}

abbrev actions : List ResumedSideEffect
actions =
    row 0 (effect committed) soa_harness_impl.Session.Resume.skipped
    ∷ row 1 (effect pending) replayed
    ∷ row 2 (effect inflight) compensation_gap
    ∷ []

abbrev first_outcome : ResumeOutcome
first_outcome = record {
  kind = soa_harness_impl.Session.Resume.migrated;
  session = settled_session;
  side_effects = actions;
}

abbrev before : Dict String PersistedSession
before = record { entries = ("ses_1", crashed) ∷ [] }

abbrev after : Dict String PersistedSession
after = record { entries = ("ses_1", settled_session) ∷ [] }

resume_session-idempotent_example : resume_session context disk_files schema after 5 "ses_1" ≡ (
  (after, 5),
  ok (record {
    kind = kind_of settled_session;
    session = settled_session;
    side_effects = skips 0 settled_effects;
  }),
)
unfolding resume_session resume_read resume_checked finish resume_all and_then also resume_one
    resume_phase after_replay after_compensate keep_digest is_true row migrate with_mode text_of
    kind_of Dict.get Dict.set
resume_session-idempotent_example =
    resume_session-idempotent context disk_files schema before after 0 1 5 "ses_1" first_outcome
      refl refl

resume_all-ok-settles_example : All IsSettled settled_effects
unfolding resume_all and_then also resume_one resume_phase after_replay after_compensate keep_digest
    is_true row
resume_all-ok-settles_example =
    resume_all-ok-settles context 0 1 0 (effect committed ∷ effect pending ∷ effect inflight ∷ [])
      settled_effects actions refl
