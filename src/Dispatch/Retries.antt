-- ===== src/Dispatch/Retries.antt =====
-- How often a dispatch calls its adapter, and whose response it returns.
use soa_harness_impl.Base.{
  ℕ, zero, suc, ◌+◌, ◌≤◌, ◌≡◌, ap, refl, Bool, true, Option, none, some, [], ◌∷◌, ◌++◌, arith,
  length, length-append, string_key, eq_iff, Bool-cases, inl, inr,
}
use soa_harness_impl.Budget.{BudgetTracker}
use soa_harness_impl.Dispatch.{
  DispatchRequest, DispatchResponse, Dispatcher, Attempt, Answer, responds, throws, Thrown,
  synthesize, record_dispatch, recorded, fails, exhausted, echoes, slept, answered, invoke,
  dispatch,
}

-- The response is about the request: the fields that an adapter must echo are the request's.
abbrev pub IsAbout : DispatchRequest → DispatchResponse → Type 0
IsAbout request r =
    (r.session_id ≡ request.session_id)
    × (r.turn_id ≡ request.turn_id)
    × (r.billing_tag ≡ request.billing_tag)
    × (r.correlation_id ≡ request.correlation_id)

module _ (jitter : ℕ → ℕ → ℕ) where
  exhausted-calls :
      (request : DispatchRequest) (d : Dispatcher) (last : Option Thrown)
      → (exhausted jitter d request last).0.calls ≡ d.calls
  unfolding exhausted fails recorded record_dispatch
  exhausted-calls request d none = refl
  exhausted-calls request d (some e) = refl

  answered-calls :
      (request : DispatchRequest) (d : Dispatcher) (attempt left : ℕ) (answer : Answer)
      (next : Dispatcher → Option Thrown → Dispatcher × DispatchResponse)
      → ((d₁ : Dispatcher) (e : Option Thrown)
          → length (next d₁ e).0.calls ≤ length d₁.calls + left)
      → length (answered jitter request d attempt answer next).0.calls ≤ length d.calls + left
  unfolding answered recorded fails record_dispatch slept
  answered-calls request d attempt left (responds r) next h = ground arith
  answered-calls request d attempt left (throws e aborted) next h =
      ground (arith, h (slept jitter d attempt e) (some e))

  invoke-calls :
      (world : ℕ → Attempt) (request : DispatchRequest) (d : Dispatcher) (left attempt : ℕ)
      (last : Option Thrown)
      → length (invoke jitter world request d left attempt last).0.calls ≤ length d.calls + left
  unfolding invoke
  invoke-calls world request d zero attempt last =
      omega (arith, ap length (exhausted-calls request d last))
  invoke-calls world request d (suc left) attempt last =
      let called : Dispatcher = record d { calls = d.calls ++ attempt ∷ [] } in
      ground (
        arith,
        length-append d.calls (attempt ∷ []),
        answered-calls request called attempt left (world attempt).answer
            (λ d₁ e. invoke jitter world request d₁ left (suc attempt) e)
            (λ d₁ e. invoke-calls world request d₁ left (suc attempt) e),
      )

  -- A dispatch calls its adapter at most four times: once, and three retries.
  pub dispatch-calls :
      (world : ℕ → Attempt) (budget : Option BudgetTracker) (valid : Bool) (d : Dispatcher)
      (request : DispatchRequest)
      → length (dispatch jitter world budget valid d request).0.calls ≤ length d.calls + 4
  unfolding dispatch recorded record_dispatch
  dispatch-calls world budget valid d request =
      ground (arith, invoke-calls world request d 4 1 none)

  echoes-IsAbout :
      (r : DispatchResponse) (request : DispatchRequest)
      → echoes jitter r request ≡ true
      → IsAbout request r
  unfolding echoes
  echoes-IsAbout r request h = ground (
    arith,
    eq_iff r.session_id request.session_id,
    eq_iff r.turn_id request.turn_id,
    eq_iff r.billing_tag request.billing_tag,
    eq_iff r.correlation_id request.correlation_id,
  )

  exhausted-IsAbout :
      (request : DispatchRequest) (d : Dispatcher) (last : Option Thrown)
      → IsAbout request (exhausted jitter d request last).1
  unfolding exhausted fails recorded synthesize
  exhausted-IsAbout request d none = (refl, refl, refl, refl)
  exhausted-IsAbout request d (some e) = (refl, refl, refl, refl)

  answered-IsAbout :
      (request : DispatchRequest) (d : Dispatcher) (attempt : ℕ) (answer : Answer)
      (next : Dispatcher → Option Thrown → Dispatcher × DispatchResponse)
      → ((d₁ : Dispatcher) (e : Option Thrown) → IsAbout request (next d₁ e).1)
      → IsAbout request (answered jitter request d attempt answer next).1
  unfolding answered recorded fails synthesize
  answered-IsAbout request d attempt (responds r) next h =
      elim (Bool-cases (echoes jitter r request)) [
        | inl e ↦ rw e (echoes-IsAbout r request e)
        | inr e ↦ rw e (refl, refl, refl, refl)
      ]
  answered-IsAbout request d attempt (throws e aborted) next h =
      ground (arith, h (slept jitter d attempt e) (some e))

  invoke-IsAbout :
      (world : ℕ → Attempt) (request : DispatchRequest) (d : Dispatcher) (left attempt : ℕ)
      (last : Option Thrown)
      → IsAbout request (invoke jitter world request d left attempt last).1
  unfolding invoke synthesize
  invoke-IsAbout world request d zero attempt last = exhausted-IsAbout request d last
  invoke-IsAbout world request d (suc left) attempt last = ground (
    arith,
    answered-IsAbout request (record d { calls = d.calls ++ attempt ∷ [] }) attempt
        (world attempt).answer (λ d₁ e. invoke jitter world request d₁ left (suc attempt) e)
        (λ d₁ e. invoke-IsAbout world request d₁ left (suc attempt) e),
  )

  -- Whatever the adapter answers, the response of a dispatch carries the session, turn, billing tag
  -- and correlation of its request.
  pub dispatch-IsAbout :
      (world : ℕ → Attempt) (budget : Option BudgetTracker) (valid : Bool) (d : Dispatcher)
      (request : DispatchRequest)
      → IsAbout request (dispatch jitter world budget valid d request).1
  unfolding dispatch recorded synthesize
  dispatch-IsAbout world budget valid d request =
      ground (arith, invoke-IsAbout world request d 4 1 none)
