-- ===== src/Hook.antt =====
-- packages/runner/src/hook/types.ts and runner.ts: running a hook process. What the process does is
-- a sequence of events in the order in which Node delivers them; texts are lists of UTF-16 code
-- units, and `JSON.parse` is the argument `parse`.
pub mod Outcomes
pub mod Completion
pub mod Reentrancy
mod Tests
use soa_harness_impl.Base.{
  ℕ, zero, suc, ◌+◌, String, Bool, true, false, not, ◌&&◌, ◌||◌, Option, none, some, List, [], ◌∷◌,
  ◌++◌, length, take, ltb, leb, nat_eq, if◌then◌else◌, nat_key, includes, is_none, is_some,
}

pub data HookKind : Type 0 where
  pre_tool_use post_tool_use : HookKind

pub data HookDecision : Type 0 where
  allow deny prompt : HookDecision

pub data HookReason : Type 0 where
  hook_timeout hook_crashed hook_nonzero_exit hook_stdout_invalid : HookReason

-- `B` are the parsed bodies of a hook's stdout.
pub record HookOutcome (B : Type 0) : Type 0 where
  pub kind : HookKind
  pub decision : HookDecision
  pub exit_code : Option ℕ
  pub stdout : Option B
  pub stderr_sample : List ℕ
  pub timed_out : Bool
  pub crashed : Bool
  pub reason : Option HookReason

abbrev pub stderr_sample_bytes : ℕ
stderr_sample_bytes = 2048

abbrev pub default_timeout : HookKind → ℕ
default_timeout pre_tool_use = 5000
default_timeout post_tool_use = 10000

-- `code` is null where the process was ended by a signal.
pub decision_for_pre : Option ℕ → HookDecision × Option HookReason
decision_for_pre none = (deny, some hook_nonzero_exit)
decision_for_pre (some code) =
    if nat_eq code 0
    then (allow, none)
    else if nat_eq code 1 || nat_eq code 2
    then (deny, none)
    else if nat_eq code 3
    then (prompt, none)
    else (deny, some hook_nonzero_exit)

pub decision_for_post : Option ℕ → HookDecision × Option HookReason
decision_for_post none = (deny, some hook_nonzero_exit)
decision_for_post (some code) =
    if nat_eq code 0 || nat_eq code 2
    then (allow, none)
    else if nat_eq code 1
    then (deny, none)
    else (deny, some hook_nonzero_exit)

pub decision_for : HookKind → Option ℕ → HookDecision × Option HookReason
unfolding decision_for_pre decision_for_post
decision_for pre_tool_use code = decision_for_pre code
decision_for post_tool_use code = decision_for_post code

-- The white space and line terminators that `String.prototype.trim` removes.
white_space : List ℕ
white_space =
    9 ∷ 10 ∷ 11 ∷ 12 ∷ 13 ∷ 32 ∷ 0xa0 ∷ 0x1680 ∷ 0x2000 ∷ 0x2001 ∷ 0x2002 ∷ 0x2003 ∷ 0x2004 ∷ 0x2005
    ∷ 0x2006 ∷ 0x2007 ∷ 0x2008 ∷ 0x2009 ∷ 0x200a ∷ 0x2028 ∷ 0x2029 ∷ 0x202f ∷ 0x205f ∷ 0x3000
    ∷ 0xfeff ∷ []

trim_start : List ℕ → List ℕ
unfolding white_space
trim_start [] = []
trim_start (c ∷ cs) = let rest = trim_start cs in if includes white_space c then rest else c ∷ cs

trim_end : List ℕ → List ℕ
unfolding white_space
trim_end [] = []
trim_end (c ∷ cs) = elim (trim_end cs) [
  | [] ↦ if includes white_space c then [] else c ∷ []
  | d ∷ ds ↦ c ∷ d ∷ ds
]

pub trim : List ℕ → List ℕ
unfolding trim_start trim_end
trim cs = trim_end (trim_start cs)

module _ {B : Type 0} (parse : List ℕ → Option B) where
  parsed : Option B → Option B × Bool
  parsed none = (none, true)
  parsed (some b) = (some b, false)

  -- parseStdout: the body, and whether the output is invalid
  pub parse_stdout : List ℕ → Option B × Bool
  unfolding parsed trim
  parse_stdout raw =
      if nat_eq (length (trim raw)) 0
      then (none, false)
      else if includes (trim raw) 10
      then (none, true)
      else parsed (parse (trim raw))

-- What Node reports of a child process, and the timer. `exited` is `close`, with the exit code or
-- with none and the signal's presence.
pub data ChildEvent : Type 0 where
  stdout_chunk stderr_chunk : List ℕ → ChildEvent
  timer_fires : ChildEvent
  child_error : (message : List ℕ) → ChildEvent
  exited : (code : Option ℕ) (by_signal : Bool) → ChildEvent

-- The variables of the promise's closure. `on_exit_calls` counts the calls of `onExit`, and
-- `killed` those of `child.kill`.
pub record Run (B : Type 0) : Type 0 where
  pub kind : HookKind
  pub timer_armed : Bool
  pub timed_out : Bool
  pub stdout_buf : List ℕ
  pub stderr_buf : List ℕ
  pub exit_fired : Bool
  pub on_exit_calls : ℕ
  pub killed : ℕ
  pub resolved : Option (HookOutcome B)

pub started : {B : Type 0} → HookKind → Run B
started kind = record {
  kind = kind;
  timer_armed = true;
  timed_out = false;
  stdout_buf = [];
  stderr_buf = [];
  exit_fired = false;
  on_exit_calls = 0;
  killed = 0;
  resolved = none;
}

sample : List ℕ → List ℕ → List ℕ
sample buf chunk =
    if ltb (length buf) stderr_sample_bytes
    then (let longer = buf ++ chunk in
        if ltb stderr_sample_bytes (length longer) then take stderr_sample_bytes longer else longer)
    else buf

module _ {B : Type 0} where
  -- clearTimeout, and `fireExit`
  fire_exit : Run B → Run B
  fire_exit r =
      if r.exit_fired
      then record r { timer_armed = false }
      else record r { timer_armed = false; exit_fired = true; on_exit_calls = suc r.on_exit_calls }

  -- A promise keeps the first value that it is resolved with.
  resolve : Run B → HookOutcome B → Run B
  resolve r o = if is_none r.resolved then record r { resolved = some o } else r

  crash_outcome : HookKind → List ℕ → Option B → HookOutcome B
  crash_outcome kind stderr body = record {
    kind = kind;
    decision = deny;
    exit_code = none;
    stdout = body;
    stderr_sample = stderr;
    timed_out = false;
    crashed = true;
    reason = some hook_crashed;
  }

  pub timeout_outcome : HookKind → List ℕ → HookOutcome B
  timeout_outcome kind stderr = record {
    kind = kind;
    decision = deny;
    exit_code = none;
    stdout = none;
    stderr_sample = stderr;
    timed_out = true;
    crashed = false;
    reason = some hook_timeout;
  }

  exit_outcome : HookKind → Option ℕ → List ℕ → Option B × Bool → HookOutcome B
  unfolding decision_for
  exit_outcome kind code stderr (body, invalid) =
      let (decision, reason) = decision_for kind code in
      record {
        kind = kind;
        decision = decision;
        exit_code = code;
        stdout = body;
        stderr_sample = stderr;
        timed_out = false;
        crashed = false;
        reason = if invalid then some hook_stdout_invalid else reason;
      }

module _ {B : Type 0} (parse : List ℕ → Option B) where
  -- The outcome that the `close` handler resolves with.
  closed_outcome : Run B → Option ℕ → Bool → HookOutcome B
  unfolding crash_outcome timeout_outcome exit_outcome
  closed_outcome r code by_signal =
      if r.timed_out
      then timeout_outcome r.kind r.stderr_buf
      else if is_none code && by_signal
      then crash_outcome r.kind r.stderr_buf (parse_stdout parse r.stdout_buf).0
      else exit_outcome r.kind code r.stderr_buf (parse_stdout parse r.stdout_buf)

  pub step : Run B → ChildEvent → Run B
  unfolding sample fire_exit resolve closed_outcome
  step r (stdout_chunk chunk) = record r { stdout_buf = r.stdout_buf ++ chunk }
  step r (stderr_chunk chunk) = record r { stderr_buf = sample r.stderr_buf chunk }
  step r timer_fires =
      if r.timer_armed
      then record r { timer_armed = false; timed_out = true; killed = suc r.killed }
      else r
  step r (child_error message) = resolve (fire_exit r) (crash_outcome r.kind message none)
  step r (exited code by_signal) = resolve (fire_exit r) (closed_outcome r code by_signal)

  pub run : Run B → List ChildEvent → Run B
  unfolding step
  run r [] = r
  run r (e ∷ es) = run (step r e) es

  -- runHook: with an empty command, and with a process that spawns and then does `events`.
  pub run_hook : HookKind → Bool → List ChildEvent → Option (HookOutcome B)
  unfolding run crash_outcome started
  run_hook kind has_command events =
      if not has_command
      then some (crash_outcome kind [] none)
      else (run (started kind) events).resolved
