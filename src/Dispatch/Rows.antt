-- ===== src/Dispatch/Rows.antt =====
-- The rows that a dispatch leaves, in the ring of recent dispatches and in the audit chain.
use soa_harness_impl.Base.{
  ℕ, zero, suc, ◌≤◌, ◌≡◌, ◌⊎◌, sym, subst, refl, String, true, false, not, ◌||◌, Option, none, some,
  List, [], ◌∷◌, ◌++◌, arith, length, length-take-le, ltb, Bool-cases, inl, inr, option_or,
  string_key,
}
use soa_harness_impl.Base.Dict.{get, get-set_self}
use soa_harness_impl.Base.Rings.{ring}
use soa_harness_impl.Budget.{BudgetTracker}
use soa_harness_impl.Dispatch.{
  DispatchRequest, DispatchResponse, DispatchRecentRow, AuditRow, Dispatcher, Attempt, Answer,
  responds, throws, Thrown, DispatcherErrorCode, dispatcher_request_invalid, is_retryable,
  classify_throwable, request_id_of, user_interrupt, budget_exhausted, provider_network_failed,
  max_dispatcher_retries, synthesize, audit_row_of, audited, unshift, row_of, record_dispatch,
  recorded, fails, exhausted, echoes, slept, answered, invoke, dispatch, over_ceiling,
  projection_for,
}

-- One audit row is added, and it is the response's.
abbrev pub IsRecorded : Option (List AuditRow) → Dispatcher × DispatchResponse → Type 0
IsRecorded rows (d₁, r) = d₁.audit ≡ audited rows (audit_row_of r)

-- A turn is reached at whose start the signal is aborted: no row is added, and the response is
-- an interruption.
abbrev pub IsInterrupted :
    (ℕ → Attempt) → Option (List AuditRow) → Dispatcher × DispatchResponse → Type 0
IsInterrupted world rows (d₁, r) =
    (d₁.audit ≡ rows)
    × (r.stop_reason ≡ user_interrupt)
    × (turn : ℕ) × ((world turn).aborted ≡ true)

module _ (jitter : ℕ → ℕ → ℕ) where
  recorded-row :
      (d : Dispatcher) (request : DispatchRequest) (r : DispatchResponse)
      → IsRecorded d.audit (recorded jitter d request r)
  unfolding recorded record_dispatch
  recorded-row d request r = refl

  fails-row :
      (d : Dispatcher) (request : DispatchRequest) (code : DispatcherErrorCode) (id : Option String)
      → IsRecorded d.audit (fails jitter d request code id)
  unfolding fails recorded record_dispatch
  fails-row d request code id = refl

  exhausted-row :
      (d : Dispatcher) (request : DispatchRequest) (last : Option Thrown)
      → IsRecorded d.audit (exhausted jitter d request last)
  unfolding exhausted
  exhausted-row d request none = fails-row d request provider_network_failed none
  exhausted-row d request (some e) = fails-row d request (classify_throwable e) (request_id_of e)

  answered-row :
      (world : ℕ → Attempt) (request : DispatchRequest) (d : Dispatcher) (attempt : ℕ)
      (answer : Answer) (next : Dispatcher → Option Thrown → Dispatcher × DispatchResponse)
      → ((d₁ : Dispatcher) (e : Option Thrown)
          → d₁.audit ≡ d.audit
          → IsRecorded d.audit (next d₁ e) ⊎ IsInterrupted world d.audit (next d₁ e))
      → let done = answered jitter request d attempt answer next in
        IsRecorded d.audit done ⊎ IsInterrupted world d.audit done
  unfolding answered slept
  answered-row world request d attempt (responds r) next h =
      inl (elim (Bool-cases (echoes jitter r request)) [
        | inl e ↦ rw e (recorded-row d request r)
        | inr e ↦ rw e (fails-row d request dispatcher_request_invalid none)
      ])
  answered-row world request d attempt (throws e true) next h =
      inl (recorded-row d request (synthesize d request user_interrupt none none))
  answered-row world request d attempt (throws e false) next h =
      elim (Bool-cases
        (not (is_retryable (classify_throwable e)) || ltb max_dispatcher_retries attempt)) [
          | inl t ↦ rw t (inl (fails-row d request (classify_throwable e) (request_id_of e)))
          | inr t ↦ rw t (h (slept jitter d attempt e) (some e) refl)
        ]

  invoke-row :
      (world : ℕ → Attempt) (request : DispatchRequest) (d : Dispatcher) (left attempt : ℕ)
      (last : Option Thrown)
      → let done = invoke jitter world request d left attempt last in
        IsRecorded d.audit done ⊎ IsInterrupted world d.audit done
  unfolding invoke synthesize
  invoke-row world request d zero attempt last = inl (exhausted-row d request last)
  invoke-row world request d (suc left) attempt last = elim (Bool-cases (world attempt).aborted) [
    | inl a ↦ rw a (inr (refl, refl, attempt, a))
    | inr a ↦ rw a (
        answered-row world request (record d { calls = d.calls ++ attempt ∷ [] }) attempt
          (world attempt).answer (λ d₁ e. invoke jitter world request d₁ left (suc attempt) e)
          (λ d₁ e p.
            subst
              (λ rows.
                let done = invoke jitter world request d₁ left (suc attempt) e in
                IsRecorded rows done ⊎ IsInterrupted world rows done)
              p (invoke-row world request d₁ left (suc attempt) e)))
  ]

  -- A dispatch of a valid request adds one audit row, which is its response's; or else there is a
  -- turn at whose start the signal is aborted, the response is an interruption, and no row is added.
  pub dispatch-row :
      (world : ℕ → Attempt) (budget : Option BudgetTracker) (d : Dispatcher)
      (request : DispatchRequest)
      → let done = dispatch jitter world budget true d request in
        IsRecorded d.audit done ⊎ IsInterrupted world d.audit done
  unfolding dispatch
  dispatch-row world budget d request =
      elim (Bool-cases (
        over_ceiling jitter (projection_for jitter budget request.session_id)
          request.budget_ceiling_tokens)) [
            | inl o ↦
                rw o
                  (inl (recorded-row d request (synthesize d request budget_exhausted none none)))
            | inr o ↦ rw o (invoke-row world request d 4 1 none)
          ]

  unshift-bounded :
      (size : ℕ) (row : DispatchRecentRow) (rows : List DispatchRecentRow)
      → length (unshift size row rows) ≤ size
  unfolding unshift
  unshift-bounded size row rows = ground (arith, length-take-le size (row ∷ rows))

  -- Recording a dispatch leaves its session's ring no longer than the ring's size.
  pub record_dispatch-bounded :
      (d : Dispatcher) (r : DispatchResponse) (request : DispatchRequest)
      → length (ring (record_dispatch d r request).recent request.session_id) ≤ d.recent_ring_size
  unfolding record_dispatch
  record_dispatch-bounded d r request =
      let rows : List DispatchRecentRow = option_or (get d.recent request.session_id) [] in
      let new : List DispatchRecentRow = unshift d.recent_ring_size (row_of r) rows in
      subst (λ o. length (option_or o []) ≤ d.recent_ring_size)
        (sym (get-set_self d.recent request.session_id new))
        (unshift-bounded d.recent_ring_size (row_of r) rows)
