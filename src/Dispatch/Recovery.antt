-- ===== src/Dispatch/Recovery.antt =====
-- What the retries are for: transient failures are ridden out, and other failures end at once.
use soa_harness_impl.Base.{
  ℕ, zero, suc, ◌+◌, ◌≤◌, ◌<◌, ◌≡◌, sym, subst, refl, true, false, Option, none, some, [], ◌∷◌,
  ◌++◌, arith, length, length-append,
}
use soa_harness_impl.Budget.{BudgetTracker}
use soa_harness_impl.Dispatch.{
  DispatchRequest, DispatchResponse, Dispatcher, Attempt, responds, throws, Thrown, is_retryable,
  classify_throwable, record_dispatch, recorded, echoes, slept, answered, invoke, dispatch,
  over_ceiling, projection_for,
}

-- A turn that fails in a way that is worth another try.
abbrev pub IsTransient : Attempt → Type 0
IsTransient a =
    (a.aborted ≡ false)
    × ((e : Thrown) × (a.answer ≡ throws e false) × (is_retryable (classify_throwable e) ≡ true))

-- A turn that is answered with this response, and is not aborted.
abbrev pub Answers : Attempt → DispatchResponse → Type 0
Answers a r = (a.aborted ≡ false) × (a.answer ≡ responds r)

-- The result is this response, after this many calls of the adapter.
abbrev pub Succeeds : Dispatcher → DispatchResponse → ℕ → Dispatcher × DispatchResponse → Type 0
Succeeds d r calls (d₁, response) = (response ≡ r) × (length d₁.calls ≡ length d.calls + calls)

module _ (jitter : ℕ → ℕ → ℕ) where
  answered-transient :
      (request : DispatchRequest) (d : Dispatcher) (attempt : ℕ) (e : Thrown)
      (next : Dispatcher → Option Thrown → Dispatcher × DispatchResponse)
      → is_retryable (classify_throwable e) ≡ true
      → attempt ≤ 3
      → answered jitter request d attempt (throws e false) next
        ≡ next (slept jitter d attempt e) (some e)
  unfolding answered
  answered-transient request d attempt e next r h = ground arith

  answered-responds :
      (request : DispatchRequest) (d : Dispatcher) (attempt : ℕ) (r : DispatchResponse)
      (next : Dispatcher → Option Thrown → Dispatcher × DispatchResponse)
      → echoes jitter r request ≡ true
      → answered jitter request d attempt (responds r) next ≡ (record_dispatch d r request, r)
  unfolding answered recorded
  answered-responds request d attempt r next e = rw e refl

  called_at : Dispatcher → ℕ → Dispatcher
  called_at d attempt = record d { calls = d.calls ++ attempt ∷ [] }

  invoke-responds :
      (world : ℕ → Attempt) (request : DispatchRequest) (d : Dispatcher) (left attempt : ℕ)
      (last : Option Thrown) (r : DispatchResponse)
      → Answers (world attempt) r
      → echoes jitter r request ≡ true
      → invoke jitter world request d (suc left) attempt last
        ≡ (record_dispatch (called_at d attempt) r request, r)
  unfolding invoke called_at
  invoke-responds world request d left attempt last r (a, s) e =
      rw (a, s)
        (answered-responds request (called_at d attempt) attempt r
          (λ d₁ e. invoke jitter world request d₁ left (suc attempt) e) e)

  invoke-transient :
      (world : ℕ → Attempt) (request : DispatchRequest) (d : Dispatcher) (left attempt : ℕ)
      (last : Option Thrown) (e : Thrown)
      → (world attempt).aborted ≡ false
      → (world attempt).answer ≡ throws e false
      → is_retryable (classify_throwable e) ≡ true
      → attempt ≤ 3
      → invoke jitter world request d (suc left) attempt last
        ≡ invoke jitter world request
            (slept jitter (called_at d attempt) attempt e)
            left
            (suc attempt)
            (some e)
  unfolding invoke called_at
  invoke-transient world request d left attempt last e a s r h =
      rw (a, s)
        (answered-transient request (called_at d attempt) attempt e
          (λ d₁ e. invoke jitter world request d₁ left (suc attempt) e) r h)

  invoke-recovers :
      (world : ℕ → Attempt) (request : DispatchRequest) (d : Dispatcher) (k left attempt final : ℕ)
      (last : Option Thrown) (r : DispatchResponse)
      → final ≡ attempt + k
      → final ≤ 4
      → k < left
      → ((n : ℕ) → attempt ≤ n → n < final → IsTransient (world n))
      → Answers (world final) r
      → echoes jitter r request ≡ true
      → Succeeds d r (suc k) (invoke jitter world request d left attempt last)
  unfolding called_at record_dispatch slept
  invoke-recovers world request d k zero attempt final last r f b l t a e = absurd (omega arith)
  invoke-recovers world request d zero (suc left) attempt final last r f b l t a e =
      let here : final ≡ attempt = omega arith in
      subst (Succeeds d r 1)
        (sym (
          invoke-responds world request d left attempt last r
            (subst (λ n. Answers (world n) r) here a) e))
        (refl, omega (arith, length-append d.calls (attempt ∷ [])))
  invoke-recovers world request d (suc k) (suc left) attempt final last r f b l t a e =
      let (n, (x, s, y)) = t attempt (omega arith) (omega arith) in
      let (p, q) =
        invoke-recovers world request (slept jitter (called_at d attempt) attempt x) k left
          (suc attempt) final (some x) r (omega arith) b (omega arith)
          (λ m i j. t m (omega arith) j) a e in
      subst (Succeeds d r (suc (suc k)))
        (sym (invoke-transient world request d left attempt last x n s y (omega arith)))
        (p, omega (arith, q, length-append d.calls (attempt ∷ [])))

  -- When the request is valid and within its ceiling, at most three turns fail transiently, and the
  -- next turn is answered with a response that echoes the request, the dispatch returns that
  -- response, after one call for each of these turns.
  pub dispatch-recovers :
      (world : ℕ → Attempt) (budget : Option BudgetTracker) (d : Dispatcher)
      (request : DispatchRequest) (k : ℕ) (r : DispatchResponse)
      → over_ceiling jitter
          (projection_for jitter budget request.session_id)
          request.budget_ceiling_tokens
        ≡ false
      → k ≤ 3
      → ((n : ℕ) → 1 ≤ n → n < suc k → IsTransient (world n))
      → Answers (world (suc k)) r
      → echoes jitter r request ≡ true
      → Succeeds d r (suc k) (dispatch jitter world budget true d request)
  unfolding dispatch
  dispatch-recovers world budget d request k r o b t a e = rw o (
      invoke-recovers world request d k 4 1 (suc k) none r (omega arith) (omega arith) (omega arith)
        t a e)
