-- ===== src/Budget.antt =====
-- packages/runner/src/budget/tracker.ts: the token budget tracker. Token counts are natural numbers.
-- The projection is computed in exact fractions where the source computes with doubles: a
-- percentile is carried in thousandths of a token, and 0.95 and 1.15 are 19/20 and 23/20.
pub mod Percentile
pub mod Projection
pub mod Windows
mod Tests
use soa_harness_impl.Base.{
  ℕ, ◌+◌, ◌-◌, ◌*◌, ◌/◌, ◌%◌, max, String, Bool, true, false, Option, none, some, List, [], ◌∷◌,
  ◌++◌, map, leb, ltb, nat_eq, if◌then◌else◌, length, push_bounded, take_last, get_or, option_or,
  string_key,
}
use soa_harness_impl.Base.Dict
use soa_harness_impl.Base.Dict.{Dict}

pub record TurnRecord : Type 0 where
  pub actual_total_tokens : ℕ
  pub prompt_tokens_cached : Option ℕ
  pub completion_tokens_cached : Option ℕ
  pub recorded_at : Option ℕ

pub record SessionBudgetState : Type 0 where
  pub session_id : String
  pub turns : List TurnRecord
  pub cumulative_tokens_consumed : ℕ
  pub prompt_tokens_cached_total : ℕ
  pub completion_tokens_cached_total : ℕ

pub record BudgetTracker : Type 0 where
  pub projection_window : ℕ
  pub max_tokens_per_run : ℕ
  pub states : Dict String SessionBudgetState

pub record BudgetConfig : Type 0 where
  pub projection_window : Option ℕ
  pub max_tokens_per_run : Option ℕ

abbrev pub default_window : ℕ
default_window = 10

abbrev pub default_max_tokens_per_run : ℕ
default_max_tokens_per_run = 200000

abbrev pub min_samples_for_p95 : ℕ
min_samples_for_p95 = 3

abbrev pub cold_start_floor : ℕ
cold_start_floor = 4096

abbrev pub cold_start_overhead : ℕ
cold_start_overhead = 2048

-- new BudgetTracker(opts), with the one safety factor that it does not refuse.
pub new : BudgetConfig → BudgetTracker
new opts = record {
  projection_window = option_or opts.projection_window default_window;
  max_tokens_per_run = option_or opts.max_tokens_per_run default_max_tokens_per_run;
  states = Dict.empty;
}

insert_sorted : ℕ → List ℕ → List ℕ
insert_sorted x [] = x ∷ []
insert_sorted x (y ∷ ys) = if leb x y then x ∷ y ∷ ys else y ∷ insert_sorted x ys

-- `[...values].sort((a, b) => a - b)`
pub sort : List ℕ → List ℕ
unfolding insert_sorted
sort [] = []
sort (x ∷ xs) = insert_sorted x (sort xs)

-- rank = 0.95 * (n - 1), in twentieths
rank20 : ℕ → ℕ
rank20 n = 19 * (n - 1)

-- The interpolation at `rank`, in thousandths: 50 for each twentieth.
interpolate : List ℕ → ℕ → ℕ
interpolate sorted rank =
    let lower = rank / 20 in
    let weight = rank % 20 in
    if nat_eq weight 0
    then 1000 * get_or sorted lower 0
    else 50 * (get_or sorted lower 0 * (20 - weight) + get_or sorted (lower + 1) 0 * weight)

-- percentile95, in thousandths.
pub percentile95 : List ℕ → ℕ
unfolding sort rank20 interpolate
percentile95 [] = 0
percentile95 (v ∷ []) = 1000 * v
percentile95 (v ∷ w ∷ vs) = interpolate (sort (v ∷ w ∷ vs)) (rank20 (length (v ∷ w ∷ vs)))

pub fresh_state : String → SessionBudgetState
fresh_state session_id = record {
  session_id = session_id;
  turns = [];
  cumulative_tokens_consumed = 0;
  prompt_tokens_cached_total = 0;
  completion_tokens_cached_total = 0;
}

pub state_or_fresh : BudgetTracker → String → SessionBudgetState
unfolding fresh_state
state_or_fresh t session_id = option_or (Dict.get t.states session_id) (fresh_state session_id)

-- initFor
pub init_for : BudgetTracker → String → BudgetTracker × SessionBudgetState
unfolding state_or_fresh
init_for t session_id = if Dict.has t.states session_id then (t, state_or_fresh t session_id) else (
  record t { states = Dict.set t.states session_id (fresh_state session_id) },
  fresh_state session_id,
)

-- push, then shift where the window is passed
add_turn : ℕ → SessionBudgetState → TurnRecord → SessionBudgetState
add_turn window s r = record s {
  turns = push_bounded window s.turns r;
  cumulative_tokens_consumed = s.cumulative_tokens_consumed + r.actual_total_tokens;
  prompt_tokens_cached_total = s.prompt_tokens_cached_total + option_or r.prompt_tokens_cached 0;
  completion_tokens_cached_total =
      s.completion_tokens_cached_total + option_or r.completion_tokens_cached 0;
}

-- recordTurn: the state object is shared with the map, so the map sees the change.
pub record_turn : BudgetTracker → String → TurnRecord → BudgetTracker
unfolding add_turn state_or_fresh
record_turn t session_id r = record t {
  states =
      Dict.set t.states session_id (add_turn t.projection_window (state_or_fresh t session_id) r);
}

unfoldable pub has : BudgetTracker → String → Bool
has t session_id = Dict.has t.states session_id

-- `projected_tokens_remaining` is negative when the budget is overrun: the two parts of that
-- difference, of which one at least is 0.
pub record ProjectionSnapshot : Type 0 where
  pub tokens_remaining : ℕ
  pub tokens_overrun : ℕ
  pub max_tokens_per_run : ℕ
  pub cumulative_tokens_consumed : ℕ
  pub p95_thousandths : ℕ
  pub headroom : ℕ
  pub headroom_below_zero : ℕ
  pub cold_start_baseline_active : Bool
  pub prompt_tokens_cached : ℕ
  pub completion_tokens_cached : ℕ

-- `Math.ceil(a / b)` for a positive `b`
abbrev pub ceil_div : ℕ → ℕ → ℕ
ceil_div a b = (a + (b - 1)) / b

-- `Math.ceil(p95 * SAFETY_FACTOR)` of a percentile in thousandths
pub safe_projection : ℕ → ℕ
safe_projection p95 = ceil_div (p95 * 23) 20000

-- `xs.slice(-n)`, which is all of `xs` for n = 0
slice_last : ℕ → List TurnRecord → List TurnRecord
slice_last n xs = if nat_eq n 0 then xs else take_last n xs

pub recent_totals : BudgetTracker → SessionBudgetState → List ℕ
unfolding slice_last
recent_totals t s = map (λ r. r.actual_total_tokens) (slice_last t.projection_window s.turns)

cold_start : List ℕ → Bool
cold_start totals = ltb (length totals) min_samples_for_p95

baseline : ℕ → ℕ
baseline stack = max (stack + cold_start_overhead) cold_start_floor

-- `p95` of the snapshot, in thousandths
p95_of : List ℕ → ℕ → ℕ
unfolding cold_start baseline
p95_of totals stack = if cold_start totals then 1000 * baseline stack else percentile95 totals

pub projected_per_turn : List ℕ → ℕ → ℕ
unfolding cold_start baseline safe_projection
projected_per_turn totals stack =
    if cold_start totals then baseline stack else safe_projection (percentile95 totals)

-- `Math.floor(remaining / projected)`, rounded up below zero, and 0 where nothing is projected
snapshot : BudgetTracker → SessionBudgetState → ℕ → ProjectionSnapshot
unfolding p95_of projected_per_turn recent_totals
snapshot t s stack =
    let totals = recent_totals t s in
    let projected = projected_per_turn totals stack in
    record {
      tokens_remaining = t.max_tokens_per_run - s.cumulative_tokens_consumed;
      tokens_overrun = s.cumulative_tokens_consumed - t.max_tokens_per_run;
      max_tokens_per_run = t.max_tokens_per_run;
      cumulative_tokens_consumed = s.cumulative_tokens_consumed;
      p95_thousandths = p95_of totals stack;
      headroom = (t.max_tokens_per_run - s.cumulative_tokens_consumed) / projected;
      headroom_below_zero =
          if ltb 0 projected
          then ceil_div (s.cumulative_tokens_consumed - t.max_tokens_per_run) projected
          else 0;
      cold_start_baseline_active = cold_start totals;
      prompt_tokens_cached = s.prompt_tokens_cached_total;
      completion_tokens_cached = s.completion_tokens_cached_total;
    }

-- getProjection
pub get_projection : BudgetTracker → String → ℕ → Option ProjectionSnapshot
unfolding snapshot
get_projection t session_id stack = elim (Dict.get t.states session_id) [
  | none ↦ none
  | some s ↦ some (snapshot t s stack)
]

next_turn_projection : ProjectionSnapshot → ℕ
unfolding safe_projection
next_turn_projection snap =
    if snap.cold_start_baseline_active
    then snap.p95_thousandths / 1000
    else safe_projection snap.p95_thousandths

-- wouldExhaust
pub would_exhaust : BudgetTracker → String → ℕ → Bool
unfolding next_turn_projection
would_exhaust t session_id stack = elim (get_projection t session_id stack) [
  | none ↦ false
  | some snap ↦
      ltb t.max_tokens_per_run (snap.cumulative_tokens_consumed + next_turn_projection snap)
]

pub remove : BudgetTracker → String → BudgetTracker
remove t session_id = record t { states = Dict.delete t.states session_id }
