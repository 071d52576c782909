-- ===== src/Hook/Tests.antt =====
-- Inputs at which the theorems of the hooks apply.
use soa_harness_impl.Base.{
  ℕ, ◌≡◌, refl, true, false, Option, none, some, List, [], ◌∷◌, ◌++◌, if◌then◌else◌,
}
use soa_harness_impl.Hook.{
  pre_tool_use, HookOutcome, allow, ChildEvent, stderr_chunk, timer_fires, exited, started, sample,
  fire_exit, resolve, closed_outcome, exit_outcome, timeout_outcome, decision_for, decision_for_pre,
  parse_stdout, parsed, trim, trim_start, trim_end, step, run, run_hook, crash_outcome,
}
use soa_harness_impl.Hook.Outcomes.{AllowsWith, timely_exit, run_hook-allow}
use soa_harness_impl.Hook.Completion.{any_completes, times_out, on_exit-once, timeout-denies}

abbrev unparsed : List ℕ → Option ℕ
unparsed text = none

abbrev exits : List ChildEvent
exits = stderr_chunk (104 ∷ []) ∷ exited (some 0) false ∷ timer_fires ∷ []

abbrev allowing : HookOutcome ℕ
allowing = record {
  kind = pre_tool_use;
  decision = allow;
  exit_code = some 0;
  stdout = none;
  stderr_sample = 104 ∷ [];
  timed_out = false;
  crashed = false;
  reason = none;
}

run_hook-allow_example : (timely_exit exits ≡ some (some 0)) × AllowsWith pre_tool_use (some 0)
unfolding run_hook run step started sample fire_exit resolve closed_outcome exit_outcome
    decision_for decision_for_pre parse_stdout parsed trim trim_start trim_end crash_outcome
run_hook-allow_example = run_hook-allow unparsed pre_tool_use true exits allowing refl refl

on_exit-once_example :
    (run unparsed (started pre_tool_use) exits).on_exit_calls
    ≡ (if any_completes exits then 1 else 0)
on_exit-once_example = on_exit-once unparsed pre_tool_use exits

abbrev slow : List ChildEvent
slow = stderr_chunk (104 ∷ []) ∷ timer_fires ∷ []

timeout-denies_example :
    (run unparsed (started pre_tool_use) (slow ++ exited none true ∷ [])).resolved
    ≡ some (timeout_outcome pre_tool_use (run unparsed (started pre_tool_use) slow).stderr_buf)
unfolding any_completes times_out
timeout-denies_example = timeout-denies unparsed pre_tool_use slow [] none true refl refl
