-- ===== src/Decisions/Limiter/Tests.antt =====
-- Runs of the limiter, and inputs at which its theorems apply.
use soa_harness_impl.Base.{
  ℕ, ◌+◌, ◌*◌, ◌≤◌, ◌≡◌, refl, true, false, List, [], ◌∷◌, arith, eq_iff, string_key,
}
use soa_harness_impl.Base.Dict
use soa_harness_impl.Base.Dict.{get-set, get-empty}
use soa_harness_impl.Decisions.Limiter.{BearerLimiter, consume, consumed, fresh_at, retry_after}
use soa_harness_impl.Decisions.Limiter.Retry.{IsBounded, consume-retry}

-- Two calls of one bearer, of two that are allowed in a minute.
abbrev full : BearerLimiter
full = record { limit = 2; windows = Dict.set Dict.empty "b" (1000 ∷ 2000 ∷ []) }

full-IsBounded : IsBounded full
full-IsBounded bearer = ground (
  arith,
  eq_iff "b" bearer,
  get-set {V = List ℕ} Dict.empty "b" bearer (1000 ∷ 2000 ∷ []),
  get-empty {V = List ℕ} bearer,
)

-- The first call leaves the window after 61 seconds.
refused_for : (consume full "b" 3000).1.retry_after_seconds ≡ 58
unfolding consume consumed fresh_at retry_after Dict.get Dict.set
refused_for = refl

refused : (consume full "b" 3000).1.allowed ≡ false
unfolding consume consumed fresh_at Dict.get Dict.set
refused = refl

waited : 3000 + (consume full "b" 3000).1.retry_after_seconds * 1000 ≤ 61000
waited = rw refused_for (omega arith)

consume-retry_example : (consume (consume full "b" 3000).0 "b" 61000).1.allowed ≡ true
consume-retry_example =
    consume-retry full "b" 3000 61000 (omega arith) full-IsBounded refused waited
