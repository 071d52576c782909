-- ===== src/Hook/Completion.antt =====
-- When a hook's promise resolves, how often `onExit` fires, and what the timer decides.
use soa_harness_impl.Base.{
  ℕ, ◌+◌, ◌≤◌, ◌≡◌, ◌∙◌, ap, refl, Bool, true, false, not, ◌||◌, Option, none, some, List, [], ◌∷◌,
  ◌++◌, arith, length, length-take-le, if◌then◌else◌, is_none,
}
use soa_harness_impl.Hook.{
  HookKind, HookOutcome, ChildEvent, stdout_chunk, stderr_chunk, timer_fires, child_error, exited,
  Run, started, sample, fire_exit, resolve, timeout_outcome, closed_outcome, step, run,
  stderr_sample_bytes,
}

-- The events that complete a child process.
abbrev pub completes : ChildEvent → Bool
completes (child_error message) = true
completes (exited code by_signal) = true
completes _ = false

unfoldable pub any_completes : List ChildEvent → Bool
any_completes [] = false
any_completes (e ∷ es) = completes e || any_completes es

-- One call at most is still to come.
remaining : Bool → Bool → ℕ
remaining fired completed = if fired then 0 else if completed then 1 else 0

unfoldable pub times_out : List ChildEvent → Bool
times_out [] = false
times_out (timer_fires ∷ es) = true
times_out (_ ∷ es) = times_out es

module _ {B : Type 0} (parse : List ℕ → Option B) where
  run-exits :
      (r : Run B) (es : List ChildEvent)
      → (run parse r es).on_exit_calls ≡ r.on_exit_calls + remaining r.exit_fired (any_completes es)
  unfolding run step any_completes fire_exit resolve remaining
  run-exits r [] = ground arith
  run-exits r (stdout_chunk chunk ∷ es) = run-exits (step parse r (stdout_chunk chunk)) es
  run-exits r (stderr_chunk chunk ∷ es) = run-exits (step parse r (stderr_chunk chunk)) es
  run-exits r (timer_fires ∷ es) = ground (arith, run-exits (step parse r timer_fires) es)
  run-exits r (child_error message ∷ es) =
      ground (arith, run-exits (step parse r (child_error message)) es)
  run-exits r (exited code by_signal ∷ es) =
      ground (arith, run-exits (step parse r (exited code by_signal)) es)

  -- `onExit` fires once when the process completes, and not otherwise.
  pub on_exit-once :
      (kind : HookKind) (es : List ChildEvent)
      → (run parse (started kind) es).on_exit_calls ≡ (if any_completes es then 1 else 0)
  unfolding started remaining
  on_exit-once kind es = omega (arith, run-exits (started kind) es)

  run-resolves :
      (r : Run B) (es : List ChildEvent)
      → is_none (run parse r es).resolved
        ≡ (if is_none r.resolved then not (any_completes es) else false)
  unfolding run step any_completes fire_exit resolve
  run-resolves r [] = ground arith
  run-resolves r (stdout_chunk chunk ∷ es) = run-resolves (step parse r (stdout_chunk chunk)) es
  run-resolves r (stderr_chunk chunk ∷ es) = run-resolves (step parse r (stderr_chunk chunk)) es
  run-resolves r (timer_fires ∷ es) = ground (arith, run-resolves (step parse r timer_fires) es)
  run-resolves r (child_error message ∷ es) =
      ground (arith, run-resolves (step parse r (child_error message)) es)
  run-resolves r (exited code by_signal ∷ es) =
      ground (arith, run-resolves (step parse r (exited code by_signal)) es)

  -- The promise is resolved exactly when the process has completed.
  pub run-resolves_iff :
      (kind : HookKind) (es : List ChildEvent)
      → is_none (run parse (started kind) es).resolved ≡ not (any_completes es)
  unfolding started
  run-resolves_iff kind es = run-resolves (started kind) es

  run-append :
      (r : Run B) (before after : List ChildEvent)
      → run parse r (before ++ after) ≡ run parse (run parse r before) after
  unfolding run
  run-append r [] after = refl
  run-append r (e ∷ before) after = run-append (step parse r e) before after

  -- While nothing completes, the run is of the same hook, is not resolved, and has timed out if the
  -- timer has fired.
  waiting :
      (r : Run B) (es : List ChildEvent)
      → any_completes es ≡ false
      → r.resolved ≡ none
      → (r.timer_armed || r.timed_out) ≡ true
      → let w = run parse r es in
        (w.kind ≡ r.kind) × (w.resolved ≡ none) × (w.timed_out ≡ (r.timed_out || times_out es))
  unfolding run step any_completes times_out
  waiting r [] c n a = ground arith
  waiting r (stdout_chunk chunk ∷ es) c n a = waiting (step parse r (stdout_chunk chunk)) es c n a
  waiting r (stderr_chunk chunk ∷ es) c n a = waiting (step parse r (stderr_chunk chunk)) es c n a
  waiting r (timer_fires ∷ es) c n a = ground (arith, waiting (step parse r timer_fires) es c)
  waiting r (child_error message ∷ es) c n a = ground arith
  waiting r (exited code by_signal ∷ es) c n a = ground arith

  pub run-keeps :
      (r : Run B) (o : HookOutcome B) (es : List ChildEvent)
      → r.resolved ≡ some o
      → (run parse r es).resolved ≡ some o
  unfolding run step fire_exit resolve
  run-keeps r o [] h = h
  run-keeps r o (stdout_chunk chunk ∷ es) h = run-keeps (step parse r (stdout_chunk chunk)) o es h
  run-keeps r o (stderr_chunk chunk ∷ es) h = run-keeps (step parse r (stderr_chunk chunk)) o es h
  run-keeps r o (timer_fires ∷ es) h = run-keeps (step parse r timer_fires) o es (ground arith)
  run-keeps r o (child_error message ∷ es) h =
      run-keeps (step parse r (child_error message)) o es (ground arith)
  run-keeps r o (exited code by_signal ∷ es) h =
      run-keeps (step parse r (exited code by_signal)) o es (ground arith)

  exit-times_out :
      (w : Run B) (code : Option ℕ) (by_signal : Bool)
      → w.resolved ≡ none
      → w.timed_out ≡ true
      → (step parse w (exited code by_signal)).resolved ≡ some (timeout_outcome w.kind w.stderr_buf)
  unfolding step closed_outcome fire_exit resolve
  exit-times_out w code by_signal n t = ground arith

  -- When the timer fires before the process completes, and the process then exits, the outcome is
  -- a denial for the timeout, whatever the exit code and whatever follows.
  pub timeout-denies :
      (kind : HookKind) (es after : List ChildEvent) (code : Option ℕ) (by_signal : Bool)
      → any_completes es ≡ false
      → times_out es ≡ true
      → (run parse (started kind) (es ++ exited code by_signal ∷ after)).resolved
        ≡ some (timeout_outcome kind (run parse (started kind) es).stderr_buf)
  unfolding started run
  timeout-denies kind es after code by_signal c t =
      let (k, n, o) = waiting (started kind) es c refl refl in
      ap (λ r. r.resolved) (run-append (started kind) es (exited code by_signal ∷ after))
      ∙ run-keeps _ _ after (
          exit-times_out (run parse (started kind) es) code by_signal n (o ∙ t)
          ∙ ap (λ j. some (timeout_outcome j (run parse (started kind) es).stderr_buf)) k)

  sample-bounded :
      (bound : ℕ) (buf chunk : List ℕ)
      → bound ≡ stderr_sample_bytes
      → length buf ≤ bound
      → length (sample buf chunk) ≤ bound
  unfolding sample
  sample-bounded bound buf chunk e h = rw⁻¹ e ground (arith, length-take-le bound (buf ++ chunk))

  run-bounded :
      (bound : ℕ) (r : Run B) (es : List ChildEvent)
      → bound ≡ stderr_sample_bytes
      → length r.stderr_buf ≤ bound
      → length (run parse r es).stderr_buf ≤ bound
  unfolding run step fire_exit resolve
  run-bounded bound r [] e h = h
  run-bounded bound r (stdout_chunk chunk ∷ es) e h =
      run-bounded bound (step parse r (stdout_chunk chunk)) es e h
  run-bounded bound r (stderr_chunk chunk ∷ es) e h =
      run-bounded bound (step parse r (stderr_chunk chunk)) es e
        (sample-bounded bound r.stderr_buf chunk e h)
  run-bounded bound r (timer_fires ∷ es) e h =
      run-bounded bound (step parse r timer_fires) es e (ground arith)
  run-bounded bound r (child_error message ∷ es) e h =
      run-bounded bound (step parse r (child_error message)) es e (ground arith)
  run-bounded bound r (exited code by_signal ∷ es) e h =
      run-bounded bound (step parse r (exited code by_signal)) es e (ground arith)
