-- ===== src/Budget/Windows.antt =====
-- What the tracker holds of a session, against the history of its recorded turns.
use soa_harness_impl.Base.{
  none, some, ap, ℕ, ◌+◌, ◌-◌, String, ◌≡◌, ◌≢◌, inl, inr, Bool-cases, eq_iff, ◌==◌, sym,
  false≢true, refl, ◌∙◌, none, List, [], ◌∷◌, ◌++◌, arith, take_last, push_bounded-take_last,
  option_or, string_key, if◌then◌else◌,
}
use mathlib.Core.List.{append-nil, append_assoc}
use soa_harness_impl.Base.Dict
use soa_harness_impl.Base.Dict.{get-set_self, get-set_ne}
use soa_harness_impl.Budget.{
  TurnRecord, SessionBudgetState, BudgetTracker, state_or_fresh, add_turn, record_turn,
  ProjectionSnapshot, get_projection, snapshot,
}

abbrev pub total : (TurnRecord → ℕ) → List TurnRecord → ℕ
total f [] = 0
total f (r ∷ rs) = f r + total f rs

pub total-append :
    (f : TurnRecord → ℕ) (rs : List TurnRecord) (r : TurnRecord)
    → total f (rs ++ r ∷ []) ≡ total f rs + f r
total-append f [] r = omega arith
total-append f (x ∷ rs) r = omega (arith, total-append f rs r)

-- The state of a session after a history of turns: the last turns within the window, and the three
-- sums over the whole history.
pub record Reflects (window : ℕ) (history : List TurnRecord) (s : SessionBudgetState) : Type 0 where
  pub turns : s.turns ≡ take_last window history
  pub consumed : s.cumulative_tokens_consumed ≡ total (λ r. r.actual_total_tokens) history
  pub prompt_cached :
      s.prompt_tokens_cached_total ≡ total (λ r. option_or r.prompt_tokens_cached 0) history
  pub completion_cached :
      s.completion_tokens_cached_total ≡ total (λ r. option_or r.completion_tokens_cached 0) history

no_turns : (n : ℕ) → take_last {A = TurnRecord} n [] ≡ []
no_turns n = let e : 0 - n ≡ 0 = omega arith in rw e

add_turn-Reflects :
    (window : ℕ) (history : List TurnRecord) (s : SessionBudgetState) (r : TurnRecord)
    → Reflects window history s
    → Reflects window (history ++ r ∷ []) (add_turn window s r)
unfolding add_turn
add_turn-Reflects window history s r h = record {
  turns = rw h.turns (push_bounded-take_last window history r);
  consumed = omega (arith, h.consumed, total-append (λ x. x.actual_total_tokens) history r);
  prompt_cached =
      omega
        (arith, h.prompt_cached, total-append (λ x. option_or x.prompt_tokens_cached 0) history r);
  completion_cached = omega (
    arith,
    h.completion_cached,
    total-append (λ x. option_or x.completion_tokens_cached 0) history r,
  );
}

fresh-Reflects :
    (t : BudgetTracker) (k : String)
    → Dict.get t.states k ≡ none
    → Reflects t.projection_window [] (state_or_fresh t k)
unfolding state_or_fresh
fresh-Reflects t k h = rw h (record {
  turns = sym (no_turns t.projection_window);
  consumed = refl;
  prompt_cached = refl;
  completion_cached = refl;
})

-- A call of `recordTurn`, for some session.
abbrev pub Recording : Type 0
Recording = String × TurnRecord

pub record_all : BudgetTracker → List Recording → BudgetTracker
record_all t [] = t
record_all t ((session_id, r) ∷ rs) = record_all (record_turn t session_id r) rs

-- The turns of one session among the calls.
pub turns_of : String → List Recording → List TurnRecord
turns_of session_id [] = []
turns_of session_id ((j, r) ∷ rs) =
    let rest = turns_of session_id rs in if j == session_id then r ∷ rest else rest

state_or_fresh-record_turn_self :
    (t : BudgetTracker) (k j : String) (r : TurnRecord)
    → j ≡ k
    → state_or_fresh (record_turn t j r) k ≡ add_turn t.projection_window (state_or_fresh t k) r
unfolding state_or_fresh record_turn
state_or_fresh-record_turn_self t k j r e = rw (e, get-set_self)

get_projection-some :
    (t : BudgetTracker) (k : String) (s : SessionBudgetState)
    → Dict.get t.states k ≡ some s
    → get_projection t k 0 ≡ some (snapshot t s 0)
unfolding get_projection
get_projection-some t k s h = ap (λ o. elim o [ none ↦ none | some x ↦ some (snapshot t x 0) ]) h

snapshot-total :
    (t : BudgetTracker) (s : SessionBudgetState)
    → ((snapshot t s 0).max_tokens_per_run ≡ t.max_tokens_per_run)
      × ((snapshot t s 0).cumulative_tokens_consumed ≡ s.cumulative_tokens_consumed)
unfolding snapshot
snapshot-total t s = (refl, refl)

-- The projection after a turn, of its session.
pub record_turn-get_projection :
    (t : BudgetTracker) (k : String) (r : TurnRecord)
    → let used = (state_or_fresh t k).cumulative_tokens_consumed + r.actual_total_tokens in
      ((state_or_fresh (record_turn t k r) k).cumulative_tokens_consumed ≡ used)
      × (snap : ProjectionSnapshot) × (get_projection (record_turn t k r) k 0 ≡ some snap)
      × (snap.max_tokens_per_run ≡ t.max_tokens_per_run)
      × (snap.cumulative_tokens_consumed ≡ used)
unfolding record_turn add_turn
record_turn-get_projection t k r =
    let s = add_turn t.projection_window (state_or_fresh t k) r in
    let same = snapshot-total (record_turn t k r) s in
    (
      ap (λ x. x.cumulative_tokens_consumed) (state_or_fresh-record_turn_self t k k r refl),
      snapshot (record_turn t k r) s 0,
      get_projection-some (record_turn t k r) k s (get-set_self t.states k s),
      same.0,
      same.1,
    )

state_or_fresh-record_turn_ne :
    (t : BudgetTracker) (k j : String) (r : TurnRecord)
    → j ≢ k
    → state_or_fresh (record_turn t j r) k ≡ state_or_fresh t k
unfolding state_or_fresh record_turn
state_or_fresh-record_turn_ne t k j r ne = rw (get-set_ne t.states j k _ ne)

record_all-Reflects :
    (t : BudgetTracker) (k : String) (history : List TurnRecord) (rs : List Recording)
    → Reflects t.projection_window history (state_or_fresh t k)
    → Reflects t.projection_window (history ++ turns_of k rs) (state_or_fresh (record_all t rs) k)
unfolding record_all turns_of record_turn
record_all-Reflects t k history [] h = rw append-nil h
record_all-Reflects t k history ((j, r) ∷ rs) h = elim (Bool-cases (j == k)) [
  | inl same ↦
      let now =
        rw (← state_or_fresh-record_turn_self t k j r ((eq_iff j k).0 same)) at
          (add_turn-Reflects t.projection_window history (state_or_fresh t k) r h) in
      rw (same, ← append_assoc history (r ∷ []) (turns_of k rs))
        (record_all-Reflects (record_turn t j r) k (history ++ r ∷ []) rs now)
  | inr other ↦
      let now =
        rw
          (← state_or_fresh-record_turn_ne t k j r (λ e. false≢true (sym other ∙ (eq_iff j k).1 e)))
          at h in
      rw other (record_all-Reflects (record_turn t j r) k history rs now)
]

-- Calls of `recordTurn` for any sessions, in any order, leave every session that was unknown with
-- the last turns of its own within the window, and with the sums of its own tokens, cached prompt
-- tokens and cached completion tokens over all its turns.
pub record_all-state :
    (t : BudgetTracker) (k : String) (rs : List Recording)
    → Dict.get t.states k ≡ none
    → Reflects t.projection_window (turns_of k rs) (state_or_fresh (record_all t rs) k)
record_all-state t k rs h = record_all-Reflects t k [] rs (fresh-Reflects t k h)
