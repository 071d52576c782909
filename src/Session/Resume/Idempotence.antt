-- ===== src/Session/Resume/Idempotence.antt =====
-- A session that was resumed is resumed again without any tool being called.
use soa_harness_impl.Base.{
  ◌≡◌, ◌∙◌, ap, subst, refl, String, Bool, true, Option, none, some, List, ◌==◌, string_key, All,
  Bool-cases, inl, inr, eq_iff,
}
use soa_harness_impl.Base.Result.{Result, ok, err}
use soa_harness_impl.Permission.{Capability}
use soa_harness_impl.Session.Resume.{
  PersistedSideEffect, PersistedSession, ResumedSideEffect, ResumeContext, ResumeOutcome,
  ResumeError, SessionFiles, with_mode, migrate, kind_of, finish, text_of, resume_all,
  resume_checked, resume_read, resume_session,
}
use soa_harness_impl.Session.Resume.Effects.{
  IsSettled, AllSettle, skips, resume_all-settles, resume_all-skips,
}

module _ {D W X : Type 0} (ctx : ResumeContext W X) (files : SessionFiles D X)
    (valid : PersistedSession → Bool) where
  -- The session passes every check that resuming makes of it, but the schema's.
  abbrev pub IsCurrent : String → PersistedSession → Type 0
  IsCurrent session_id s =
      (s.session_id ≡ session_id)
      × ((mode : Capability) × (s.active_mode ≡ some mode))
      × (text_of s.card_version ≡ ctx.current_card_version)
      × (text_of s.tool_pool_hash ≡ ctx.current_tool_pool_hash)

  -- What holds after a resume: the session that was written is the outcome's, current and settled;
  -- an error leaves the disk as it was.
  abbrev pub Resumed : D → String → (D × W) × Result (ResumeError X) ResumeOutcome → Type 0
  Resumed d session_id ((d₁, w₁), err e) = d₁ ≡ d
  Resumed d session_id ((d₁, w₁), ok o) =
      (d₁ ≡ files.write_session d o.session)
      × IsCurrent session_id o.session
      × All IsSettled o.session.side_effects

  finish-Resumed :
      (d : D) (session_id : String) (s : PersistedSession)
      (m : W × Result X (List PersistedSideEffect × List ResumedSideEffect))
      → IsCurrent session_id s
      → AllSettle ctx m
      → Resumed d session_id (finish ctx files valid d s m)
  unfolding finish
  finish-Resumed d session_id s (w, err x) c h = refl
  finish-Resumed d session_id s (w, ok (ses, rs)) c h = (refl, c, h)

  checked-Resumed :
      (d : D) (w : W) (session_id : String) (s : PersistedSession)
      → s.session_id ≡ session_id
      → ((mode : Capability) × (s.active_mode ≡ some mode))
      → Resumed d session_id (resume_checked ctx files valid d w s)
  unfolding resume_checked
  checked-Resumed d w session_id s i m = elim (Bool-cases (valid s)) [
    | inr v ↦ rw v refl
    | inl v ↦ elim (Bool-cases (text_of s.card_version == ctx.current_card_version)) [
      | inr c ↦ rw (v, c) refl
      | inl c ↦ elim (Bool-cases (text_of s.tool_pool_hash == ctx.current_tool_pool_hash)) [
        | inr t ↦ rw (v, c, t) refl
        | inl t ↦
            rw (v, c, t)
              (finish-Resumed d session_id s (resume_all ctx w 0 s.side_effects)
                (i, m, (eq_iff _ _).0 c, (eq_iff _ _).0 t)
                (resume_all-settles ctx w 0 s.side_effects))
      ]
    ]
  ]

  with_mode-id :
      (s : PersistedSession) (mode : Capability) (o : Option Capability)
      → (with_mode s mode o).session_id ≡ s.session_id
  unfolding with_mode
  with_mode-id s mode none = refl
  with_mode-id s mode (some m) = refl

  with_mode-mode :
      (s : PersistedSession) (mode : Capability) (o : Option Capability)
      → s.active_mode ≡ o
      → (m : Capability) × ((with_mode s mode o).active_mode ≡ some m)
  unfolding with_mode
  with_mode-mode s mode none e = (mode, refl)
  with_mode-mode s mode (some m) e = (m, e)

  migrate-some :
      (s : PersistedSession) (mode m : Capability) → s.active_mode ≡ some m → migrate s mode ≡ s
  unfolding migrate with_mode
  migrate-some s mode m h = ap (with_mode s mode) h

  read-Resumed :
      (d : D) (w : W) (session_id : String) (r : Result X PersistedSession)
      → Resumed d session_id (resume_read ctx files valid d w session_id r)
  unfolding resume_read migrate
  read-Resumed d w session_id (err x) = refl
  read-Resumed d w session_id (ok raw) = elim (Bool-cases (raw.session_id == session_id)) [
    | inr i ↦ rw i refl
    | inl i ↦ rw i (
        checked-Resumed d w session_id (migrate raw ctx.card_active_mode)
          (with_mode-id raw ctx.card_active_mode raw.active_mode
            ∙ (eq_iff raw.session_id session_id).0 i)
          (with_mode-mode raw ctx.card_active_mode raw.active_mode refl))
  ]

  session-Resumed :
      (d : D) (w : W) (session_id : String)
      → Resumed d session_id (resume_session ctx files valid d w session_id)
  unfolding resume_session
  session-Resumed d w session_id = read-Resumed d w session_id (files.read_for_resume d session_id)

  -- A resume that throws leaves the session files as they were.
  pub resume_session-throws :
      (d d₁ : D) (w w₁ : W) (session_id : String) (e : ResumeError X)
      → resume_session ctx files valid d w session_id ≡ ((d₁, w₁), err e)
      → d₁ ≡ d
  resume_session-throws d d₁ w w₁ session_id e h =
      subst (Resumed d session_id) h (session-Resumed d w session_id)

  checked-skips :
      (d : D) (w : W) (session_id : String) (s : PersistedSession)
      → IsCurrent session_id s
      → All IsSettled s.side_effects
      → valid s ≡ true
      → resume_checked ctx files valid d w s ≡ (
        (files.write_session d s, w),
        ok (record { kind = kind_of s; session = s; side_effects = skips 0 s.side_effects }),
      )
  unfolding resume_checked finish
  checked-skips d w session_id s (i, m, c, t) h v =
      rw (v, (eq_iff _ _).1 c, (eq_iff _ _).1 t)
        (ap (finish ctx files valid d s) (resume_all-skips ctx w 0 s.side_effects h))

  -- After a resume that succeeds, and if the schema accepts the session that it returned, another
  -- resume calls no tool: the tools' state is the same, every side effect is skipped, and the
  -- session that is read, returned and written is the first one's.
  pub resume_session-idempotent :
      (d d₁ : D) (w w₁ v : W) (session_id : String) (o : ResumeOutcome)
      → resume_session ctx files valid d w session_id ≡ ((d₁, w₁), ok o)
      → valid o.session ≡ true
      → resume_session ctx files valid d₁ v session_id ≡ (
        (files.write_session d₁ o.session, v),
        ok (record {
          kind = kind_of o.session;
          session = o.session;
          side_effects = skips 0 o.session.side_effects;
        }),
      )
  unfolding resume_session resume_read
  resume_session-idempotent d d₁ w w₁ v session_id o h still =
      let (e, (i, (m, a), c, t), s) =
        subst (Resumed d session_id) h (session-Resumed d w session_id) in
      let again : files.read_for_resume d₁ session_id ≡ ok o.session =
        ap (λ disk. files.read_for_resume disk session_id) e
        ∙ subst (λ id. files.read_for_resume (files.write_session d o.session) id ≡ ok o.session) i
            (files.read-write d o.session) in
      ap (resume_read ctx files valid d₁ v session_id) again
      ∙ rw ((eq_iff o.session.session_id session_id).1 i) (
          ap (resume_checked ctx files valid d₁ v) (migrate-some o.session ctx.card_active_mode m a)
          ∙ checked-skips d₁ v session_id o.session (i, (m, a), c, t) s still)
