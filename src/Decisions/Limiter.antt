-- ===== src/Decisions/Limiter.antt =====
-- packages/runner/src/permission/decisions-route.ts: BearerLimiter, a sliding window of one minute.
-- The clock's instant comes with each call.
pub mod Retry
mod Tests
use soa_harness_impl.Base.{
  ℕ, ◌+◌, ◌-◌, String, Bool, true, false, Option, none, some, List, [], ◌∷◌, ◌++◌, length, ltb, leb,
  max, if◌then◌else◌, filter_by, option_or, string_key,
}
use soa_harness_impl.Base.Dict
use soa_harness_impl.Base.Dict.{Dict}
use soa_harness_impl.Budget.{ceil_div}

abbrev pub window_ms : ℕ
window_ms = 60000

pub record BearerLimiter : Type 0 where
  pub limit : ℕ
  pub windows : Dict String (List ℕ)

pub record Admission : Type 0 where
  pub allowed : Bool
  pub retry_after_seconds : ℕ

-- The calls of a bearer that are in the window: `t - ts < WINDOW_MS`, also for a later `ts`.
unfoldable pub fresh_at : ℕ → List ℕ → List ℕ
fresh_at t stamps = filter_by (λ ts. ltb t (ts + window_ms)) stamps

abbrev pub first_or : ℕ → List ℕ → ℕ
first_or t [] = t
first_or t (ts ∷ rest) = ts

-- `WINDOW_MS - (t - oldest)`, of an oldest that is fresh, in whole seconds
unfoldable pub retry_after : ℕ → List ℕ → ℕ
retry_after t fresh = max 1 (ceil_div ((window_ms + first_or t fresh) - t) 1000)

-- What `consume` makes of the fresh calls.
unfoldable pub consumed : BearerLimiter → String → ℕ → List ℕ → BearerLimiter × Admission
unfolding retry_after
consumed l bearer_hash t fresh =
    if leb l.limit (length fresh)
    then (
      record l { windows = Dict.set l.windows bearer_hash fresh },
      record { allowed = false; retry_after_seconds = retry_after t fresh },
    )
    else (
      record l { windows = Dict.set l.windows bearer_hash (fresh ++ t ∷ []) },
      record { allowed = true; retry_after_seconds = 0 },
    )

-- consume
unfoldable pub consume : BearerLimiter → String → ℕ → BearerLimiter × Admission
unfolding fresh_at consumed
consume l bearer_hash t =
    consumed l bearer_hash t (fresh_at t (option_or (Dict.get l.windows bearer_hash) []))
