-- ===== src/Session/Resume/Effects.antt =====
-- What resuming does to the side effects: it settles all of them, and does nothing to settled ones.
use soa_harness_impl.Base.{
  ◌≡◌, ◌⊎◌, ◌∙◌, ap, subst, refl, ℕ, suc, String, Option, List, [], ◌∷◌, string_key, All,
  Bool-cases, inl, inr,
}
use soa_harness_impl.Base.Result.{Result, ok, err}
use soa_harness_impl.Session.Resume.{
  Phase, pending, inflight, committed, compensated, PersistedSideEffect, ResumedSideEffect, skipped,
  ResumeContext, row, after_replay, after_compensate, is_true, resume_phase, resume_one, also,
  and_then, resume_all,
}

abbrev pub IsSettled : PersistedSideEffect → Type 0
IsSettled se = (se.phase ≡ committed) ⊎ (se.phase ≡ compensated)

-- One skip for each side effect, from this index.
pub skips : ℕ → List PersistedSideEffect → List ResumedSideEffect
unfolding row
skips idx [] = []
skips idx (se ∷ ses) = row idx se skipped ∷ skips (suc idx) ses

module _ {W X : Type 0} (ctx : ResumeContext W X) where
  abbrev OneSettles : W × Result X (PersistedSideEffect × ResumedSideEffect) → Type 0
  OneSettles (w, err x) = Unit
  OneSettles (w, ok (se, r)) = IsSettled se

  abbrev pub AllSettle : W × Result X (List PersistedSideEffect × List ResumedSideEffect) → Type 0
  AllSettle (w, err x) = Unit
  AllSettle (w, ok (ses, rs)) = All IsSettled ses

  after_replay-settles :
      (idx : ℕ) (se : PersistedSideEffect) (m : W × Result X (Option String))
      → OneSettles (after_replay ctx idx se m)
  unfolding after_replay
  after_replay-settles idx se (w, err x) = tt
  after_replay-settles idx se (w, ok digest) = inl refl

  after_compensate-settles :
      (idx : ℕ) (se : PersistedSideEffect) (m : W × Result X (Unit {0}))
      → OneSettles (after_compensate ctx idx se m)
  unfolding after_compensate
  after_compensate-settles idx se (w, err x) = tt
  after_compensate-settles idx se (w, ok done) = inr refl

  resume_phase-settles :
      (w : W) (idx : ℕ) (se : PersistedSideEffect) (p : Phase)
      → se.phase ≡ p
      → OneSettles (resume_phase ctx w idx se p)
  unfolding resume_phase
  resume_phase-settles w idx se pending e = after_replay-settles idx se (ctx.replay_pending w se)
  resume_phase-settles w idx se committed e = inl e
  resume_phase-settles w idx se inflight e =
      elim (Bool-cases (is_true (ctx.can_compensate se.tool))) [
        | inl c ↦ rw c (after_compensate-settles idx se (ctx.compensate w se))
        | inr c ↦ rw c (inr refl)
      ]
  resume_phase-settles w idx se compensated e = inr e

  resume_one-settles :
      (w : W) (idx : ℕ) (se : PersistedSideEffect) → OneSettles (resume_one ctx w idx se)
  unfolding resume_one
  resume_one-settles w idx se = resume_phase-settles w idx se se.phase refl

  resume_one-skips :
      (w : W) (idx : ℕ) (se : PersistedSideEffect)
      → IsSettled se
      → resume_one ctx w idx se ≡ (w, ok (se, row idx se skipped))
  unfolding resume_one resume_phase
  resume_one-skips w idx se (inl h) = ap (resume_phase ctx w idx se) h
  resume_one-skips w idx se (inr h) = ap (resume_phase ctx w idx se) h

  also-settles :
      (se : PersistedSideEffect) (r : ResumedSideEffect) (rest : _)
      → IsSettled se
      → AllSettle rest
      → AllSettle (also ctx (se, r) rest)
  unfolding also
  also-settles se r (w, err x) h hs = tt
  also-settles se r (w, ok (ses, rs)) h hs = (h, hs)

  and_then-settles :
      (one : W × Result X (PersistedSideEffect × ResumedSideEffect))
      (rest : W → W × Result X (List PersistedSideEffect × List ResumedSideEffect))
      → OneSettles one
      → ((w : W) → AllSettle (rest w))
      → AllSettle (and_then ctx one rest)
  unfolding and_then
  and_then-settles (w, err x) rest h hs = tt
  and_then-settles (w, ok (se, r)) rest h hs = also-settles se r (rest w) h (hs w)

  pub resume_all-settles :
      (w : W) (idx : ℕ) (ses : List PersistedSideEffect) → AllSettle (resume_all ctx w idx ses)
  unfolding resume_all
  resume_all-settles w idx [] = tt
  resume_all-settles w idx (se ∷ ses) =
      and_then-settles (resume_one ctx w idx se) (λ w₁. resume_all ctx w₁ (suc idx) ses)
        (resume_one-settles w idx se) (λ w₁. resume_all-settles w₁ (suc idx) ses)

  -- Committed and compensated side effects are skipped: no tool is called, and nothing changes.
  pub resume_all-skips :
      (w : W) (idx : ℕ) (ses : List PersistedSideEffect)
      → All IsSettled ses
      → resume_all ctx w idx ses ≡ (w, ok (ses, skips idx ses))
  unfolding resume_all skips and_then also
  resume_all-skips w idx [] h = refl
  resume_all-skips w idx (se ∷ ses) (h, hs) =
      ap (λ m. and_then ctx m (λ w₁. resume_all ctx w₁ (suc idx) ses)) (resume_one-skips w idx se h)
      ∙ ap (also ctx (se, row idx se skipped)) (resume_all-skips w (suc idx) ses hs)

  -- After a resume that does not throw, every side effect is committed or compensated.
  pub resume_all-ok-settles :
      (w v : W) (idx : ℕ) (ses final : List PersistedSideEffect) (rs : List ResumedSideEffect)
      → resume_all ctx w idx ses ≡ (v, ok (final, rs))
      → All IsSettled final
  resume_all-ok-settles w v idx ses final rs e = subst AllSettle e (resume_all-settles w idx ses)
