-- ===== src/Hook/Outcomes.antt =====
-- Which exits of a hook's process let its tool go ahead.
use soa_harness_impl.Base.{
  ℕ, ◌≡◌, ◌≢◌, ◌∙◌, ap, sym, subst, ◌⊎◌, inl, inr, refl, Bool, true, false, ◌||◌, Option, none,
  some, List, [], ◌∷◌, arith, Bool-cases, some-injective,
}
use soa_harness_impl.Hook.{
  HookKind, pre_tool_use, post_tool_use, allow, HookOutcome, decision_for, ChildEvent, stdout_chunk,
  stderr_chunk, timer_fires, child_error, exited, Run, started, fire_exit, resolve, crash_outcome,
  closed_outcome, step, run, run_hook,
}
use soa_harness_impl.Hook.Completion.{run-keeps}

-- The exit codes that let a hook's tool go ahead.
abbrev pub AllowsWith : HookKind → Option ℕ → Type 0
AllowsWith pre_tool_use code = code ≡ some 0
AllowsWith post_tool_use code = (code ≡ some 0) ⊎ (code ≡ some 2)

decision_for-AllowsWith :
    (kind : HookKind) (code : Option ℕ) → (decision_for kind code).0 ≡ allow → AllowsWith kind code
unfolding decision_for
decision_for-AllowsWith pre_tool_use code h = ground arith
decision_for-AllowsWith post_tool_use code h = ground arith

-- What a process exits with, where its exit is the first of its events but for its output: not its
-- timer's, and no error.
pub timely_exit : List ChildEvent → Option (Option ℕ)
timely_exit [] = none
timely_exit (stdout_chunk chunk ∷ es) = timely_exit es
timely_exit (stderr_chunk chunk ∷ es) = timely_exit es
timely_exit (timer_fires ∷ es) = none
timely_exit (child_error message ∷ es) = none
timely_exit (exited code by_signal ∷ es) = some code

module _ {B : Type 0} (parse : List ℕ → Option B) where
  closed-allow :
      (r : Run B) (code : Option ℕ) (by_signal : Bool)
      → (closed_outcome parse r code by_signal).decision ≡ allow
      → (r.timed_out ≡ false)
        × (code ≡ (closed_outcome parse r code by_signal).exit_code)
        × AllowsWith r.kind code
  unfolding closed_outcome
  closed-allow r code by_signal h = ground (arith, decision_for-AllowsWith r.kind code)

  settle-resolves :
      (r : Run B) (o : HookOutcome B)
      → r.resolved ≡ none
      → (resolve (fire_exit r) o).resolved ≡ some o
  unfolding resolve fire_exit
  settle-resolves r o n = ground arith

  -- The outcome is what the first event to complete the process is resolved with.
  settled :
      (r : Run B) (p o : HookOutcome B) (es : List ChildEvent)
      → r.resolved ≡ none
      → (run parse (resolve (fire_exit r) p) es).resolved ≡ some o
      → p ≡ o
  settled r p o es n e =
      some-injective
        (sym (run-keeps parse (resolve (fire_exit r) p) p es (settle-resolves r p n)) ∙ e)

  crashed-denies :
      (kind : HookKind) (text : List ℕ) → (crash_outcome {B = B} kind text none).decision ≢ allow
  unfolding crash_outcome
  crashed-denies kind text h = ground arith

  -- An outcome that allows, of a run that waits for its process.
  run-allow :
      (r : Run B) (es : List ChildEvent) (o : HookOutcome B)
      → r.resolved ≡ none
      → (r.timer_armed || r.timed_out) ≡ true
      → (run parse r es).resolved ≡ some o
      → o.decision ≡ allow
      → (r.timed_out ≡ false) × (timely_exit es ≡ some o.exit_code) × AllowsWith r.kind o.exit_code
  unfolding run step timely_exit
  run-allow r [] o n a e h = absurd (ground (arith, n, e))
  run-allow r (stdout_chunk chunk ∷ es) o n a e h =
      run-allow (step parse r (stdout_chunk chunk)) es o n a e h
  run-allow r (stderr_chunk chunk ∷ es) o n a e h =
      run-allow (step parse r (stderr_chunk chunk)) es o n a e h
  run-allow r (timer_fires ∷ es) o n a e h = elim (Bool-cases r.timer_armed) [
    | inl armed ↦ absurd (ground (arith, armed, run-allow (step parse r timer_fires) es o))
    | inr idle ↦ absurd (ground (arith, idle, run-allow (step parse r timer_fires) es o))
  ]
  run-allow r (child_error message ∷ es) o n a e h = absurd (
      crashed-denies r.kind message
        (ap (λ p. p.decision) (settled r (crash_outcome r.kind message none) o es n e) ∙ h))
  run-allow r (exited code by_signal ∷ es) o n a e h =
      let same = settled r (closed_outcome parse r code by_signal) o es n e in
      let (t, c, w) = closed-allow r code by_signal (ap (λ p. p.decision) same ∙ h) in
      let code_of : code ≡ o.exit_code = c ∙ ap (λ p. p.exit_code) same in
      (t, ap some code_of, subst (AllowsWith r.kind) code_of w)

  -- A hook lets its tool go ahead only where its process exits before its timer fires and without an
  -- error, with an exit code that means so: 0, or 2 after the tool's use.
  pub run_hook-allow :
      (kind : HookKind) (has_command : Bool) (events : List ChildEvent) (o : HookOutcome B)
      → run_hook parse kind has_command events ≡ some o
      → o.decision ≡ allow
      → (timely_exit events ≡ some o.exit_code) × AllowsWith kind o.exit_code
  unfolding run_hook started crash_outcome
  run_hook-allow kind true events o e h =
      let allowed = run-allow (started kind) events o refl refl e h in (allowed.1, allowed.2)
  run_hook-allow kind false events o e h = absurd (ground arith)
