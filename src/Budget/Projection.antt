-- ===== src/Budget/Projection.antt =====
-- The enforcement gate against the projection, and what passing the gate guarantees.
use soa_harness_impl.Base.{
  ℕ, ◌+◌, ◌*◌, ◌≤◌, ◌<◌, String, ◌≡◌, ◌↔◌, Bool, true, false, some, List, [], ◌∷◌, arith, ltb,
  lt→ltb, ltb→lt, length, All, string_key, Bool-cases, inl, inr, false≢true,
}
use soa_harness_impl.Base.Dict
use soa_harness_impl.Base.Dict.{get-set_self}
use soa_harness_impl.Budget.{
  BudgetTracker, SessionBudgetState, TurnRecord, cold_start, projected_per_turn, recent_totals,
  snapshot, next_turn_projection, get_projection, would_exhaust, percentile95, safe_projection,
  record_turn, state_or_fresh, add_turn,
}
use soa_harness_impl.Budget.Percentile.{percentile95_bounds}

-- The gate computes from the snapshot what the projection used.
next_turn_projection-snapshot :
    (t : BudgetTracker) (s : SessionBudgetState) (stack : ℕ)
    → next_turn_projection (snapshot t s stack) ≡ projected_per_turn (recent_totals t s) stack
unfolding next_turn_projection snapshot cold_start
next_turn_projection-snapshot t s stack = ground arith

gate_snapshot :
    (t : BudgetTracker) (k : String) (stack : ℕ) (s : SessionBudgetState)
    → Dict.get t.states k ≡ some s
    → would_exhaust t k stack
      ≡ ltb t.max_tokens_per_run
          (s.cumulative_tokens_consumed + next_turn_projection (snapshot t s stack))
unfolding would_exhaust get_projection snapshot
gate_snapshot t k stack s e = rw (e, would_exhaust)

-- For a known session the gate refuses exactly when the consumed tokens and the projection of the
-- next turn together pass the maximum of the run: the projection that the gate rebuilds from the
-- snapshot, with its percentile rounded to thousandths, is the one that the snapshot was made with.
pub would_exhaust_iff :
    (t : BudgetTracker) (k : String) (stack : ℕ) (s : SessionBudgetState)
    → Dict.get t.states k ≡ some s
    → (would_exhaust t k stack ≡ true) ↔ (
        t.max_tokens_per_run
        < s.cumulative_tokens_consumed + projected_per_turn (recent_totals t s) stack)
would_exhaust_iff t k stack s e =
    rw (gate_snapshot t k stack s e, next_turn_projection-snapshot t s stack)
      (ltb→lt _ _, lt→ltb _ _)

ceil_div_bounds :
    (p : ℕ) → (p * 23 ≤ 20000 * safe_projection p) × (20000 * safe_projection p < p * 23 + 20000)
unfolding safe_projection
ceil_div_bounds p = (omega arith, omega arith)

-- With three samples or more the projection is at least 1.15 times any lower bound of the samples,
-- and less than one token above 1.15 times any upper bound.
pub projected_per_turn_warm :
    (totals : List ℕ) (stack lo hi : ℕ)
    → All (λ x. (lo ≤ x) × (x ≤ hi)) totals
    → 3 ≤ length totals
    → (23 * lo ≤ 20 * projected_per_turn totals stack)
      × (20 * projected_per_turn totals stack < 23 * hi + 20)
unfolding projected_per_turn
projected_per_turn_warm [] stack lo hi h n = absurd (omega arith)
projected_per_turn_warm (x ∷ xs) stack lo hi h n =
    let b = percentile95_bounds lo hi (x ∷ xs) (λ e. cc) h in
    let c = ceil_div_bounds (percentile95 (x ∷ xs)) in
    let warm : ltb (length (x ∷ xs)) 3 ≡ false = ground arith in rw warm (omega arith, omega arith)

-- With fewer than three samples the projection is the cold-start baseline: at least 4096, and at
-- least 2048 above the message stack.
pub projected_per_turn_cold :
    (totals : List ℕ) (stack : ℕ)
    → length totals < 3
    → (4096 ≤ projected_per_turn totals stack) × (stack + 2048 ≤ projected_per_turn totals stack)
unfolding projected_per_turn
projected_per_turn_cold totals stack n = rw (lt→ltb _ _ n) (omega arith, omega arith)

admitted : (b : Bool) (m n : ℕ) → (b ≡ true) ↔ (m < n) → b ≡ false → n ≤ m
admitted true m n h e = cc
admitted false m n h e = elim (Bool-cases (ltb m n)) [
  | inl lt ↦ absurd (false≢true (h.1 (ltb→lt m n lt)))
  | inr ge ↦ ground arith
]

-- A turn that the gate let through, and that consumed no more than was projected, leaves the
-- session within the maximum of the run.
pub gate-keeps-budget :
    (t : BudgetTracker) (k : String) (stack : ℕ) (s : SessionBudgetState) (r : TurnRecord)
    → Dict.get t.states k ≡ some s
    → would_exhaust t k stack ≡ false
    → r.actual_total_tokens ≤ projected_per_turn (recent_totals t s) stack
    → (s' : SessionBudgetState) × (Dict.get (record_turn t k r).states k ≡ some s')
      × (s'.cumulative_tokens_consumed ≤ t.max_tokens_per_run)
unfolding record_turn state_or_fresh add_turn
gate-keeps-budget t k stack s r e gate fits =
    let room : s.cumulative_tokens_consumed + projected_per_turn (recent_totals t s) stack
        ≤ t.max_tokens_per_run =
      admitted (would_exhaust t k stack) _ _ (would_exhaust_iff t k stack s e) gate in
    (add_turn t.projection_window s r, rw (get-set_self, e, state_or_fresh), omega arith)
