-- ===== src/Budget/Tests.antt =====
-- Inputs at which the theorems of the budget apply.
use soa_harness_impl.Base.{ℕ, ◌≡◌, ◌≤◌, refl, none, some, [], ◌∷◌, string_key, arith}
use soa_harness_impl.Base.Dict
use soa_harness_impl.Base.Dict.{Dict}
use soa_harness_impl.Budget.{
  BudgetTracker, SessionBudgetState, TurnRecord, would_exhaust, get_projection, snapshot,
  next_turn_projection, projected_per_turn, p95_of, safe_projection, cold_start, baseline,
  recent_totals, slice_last, percentile95, sort, insert_sorted, interpolate, rank20, record_turn,
  state_or_fresh,
}
use soa_harness_impl.Budget.Windows.{Reflects, turns_of, record_all, record_all-state}
use soa_harness_impl.Budget.Projection.{gate-keeps-budget}

abbrev turn : ℕ → TurnRecord
turn n = record {
  actual_total_tokens = n;
  prompt_tokens_cached = none;
  completion_tokens_cached = none;
  recorded_at = none;
}

abbrev begun : SessionBudgetState
begun = record {
  session_id = "ses_1";
  turns = turn 700 ∷ [];
  cumulative_tokens_consumed = 700;
  prompt_tokens_cached_total = 0;
  completion_tokens_cached_total = 0;
}

abbrev tracker : BudgetTracker
tracker = record {
  projection_window = 10;
  max_tokens_per_run = 9000;
  states = record { entries = ("ses_1", begun) ∷ [] };
}

abbrev unused : BudgetTracker
unused = record { projection_window = 1; max_tokens_per_run = 9000; states = Dict.empty }

record_all-state_example :
    Reflects 1 (turns_of "ses_1" (("ses_1", turn 3) ∷ ("ses_2", turn 5) ∷ ("ses_1", turn 9) ∷ [])) (
      state_or_fresh
        (record_all unused (("ses_1", turn 3) ∷ ("ses_2", turn 5) ∷ ("ses_1", turn 9) ∷ []))
        "ses_1")
unfolding Dict.get
record_all-state_example =
    record_all-state unused "ses_1" (("ses_1", turn 3) ∷ ("ses_2", turn 5) ∷ ("ses_1", turn 9) ∷ [])
      refl

gate-keeps-budget_example :
    (s : SessionBudgetState) × (Dict.get (record_turn tracker "ses_1" (turn 4096)).states "ses_1"
      ≡ some s)
    × (s.cumulative_tokens_consumed ≤ 9000)
unfolding would_exhaust get_projection snapshot next_turn_projection projected_per_turn p95_of
    safe_projection cold_start baseline recent_totals slice_last Dict.get
gate-keeps-budget_example =
    gate-keeps-budget tracker "ses_1" 0 begun (turn 4096) refl refl (omega arith)

percentile95_of_three : percentile95 (100 ∷ 300 ∷ 200 ∷ []) ≡ 290000
unfolding percentile95 sort insert_sorted interpolate rank20
percentile95_of_three = refl
