-- ===== src/Decisions/Limiter/Retry.antt =====
-- The limiter's bound, and that its Retry-After is honest.
use soa_harness_impl.Base.{
  ℕ, ◌+◌, ◌*◌, ◌≤◌, ◌<◌, String, ◌≡◌, ap, refl, sym, subst, ◌∙◌, true, false, List, [], ◌∷◌, ◌++◌,
  length, length-append, leb, option_or, string_key, eq_iff, arith, Bool-cases, inl, inr,
}
use soa_harness_impl.Base.Dict
use soa_harness_impl.Base.Dict.{Dict, get-set, get-set_self}
use soa_harness_impl.Decisions.Limiter.{
  BearerLimiter, window_ms, fresh_at, first_or, retry_after, consumed, consume,
}

-- The calls that are kept for a bearer.
abbrev pub kept : BearerLimiter → String → List ℕ
kept l bearer = option_or (Dict.get l.windows bearer) []

-- No bearer has more calls in its window than the limit.
abbrev pub IsBounded : BearerLimiter → Type 0
IsBounded l = (bearer : String) → length (kept l bearer) ≤ l.limit

length-fresh_at : (t : ℕ) (stamps : List ℕ) → length (fresh_at t stamps) ≤ length stamps
unfolding fresh_at
length-fresh_at t [] = omega arith
length-fresh_at t (s ∷ ss) = ground (arith, length-fresh_at t ss)

consumed-length :
    (l : BearerLimiter) (b other : String) (t : ℕ) (fresh : List ℕ)
    → length fresh ≤ l.limit
    → IsBounded l
    → length (kept (consumed l b t fresh).0 other) ≤ l.limit
unfolding consumed
consumed-length l b other t fresh h i = ground (
  arith,
  i other,
  eq_iff b other,
  get-set l.windows b other fresh,
  get-set l.windows b other (fresh ++ t ∷ []),
  length-append fresh (t ∷ []),
)

consumed-limit :
    (l : BearerLimiter) (b : String) (t : ℕ) (fresh : List ℕ)
    → (consumed l b t fresh).0.limit ≡ l.limit
unfolding consumed
consumed-limit l b t fresh = ground arith

-- A call never leaves more calls in a window than the limit.
pub consume-IsBounded :
    (l : BearerLimiter) (bearer : String) (t : ℕ) → IsBounded l → IsBounded (consume l bearer t).0
unfolding consume
consume-IsBounded l bearer t i other =
    let fresh = fresh_at t (kept l bearer) in
    let fits : length fresh ≤ l.limit =
      omega (arith, length-fresh_at t (kept l bearer), i bearer) in
    subst (λ limit. length (kept (consumed l bearer t fresh).0 other) ≤ limit)
      (sym (consumed-limit l bearer t fresh)) (consumed-length l bearer other t fresh fits i)

-- The wait covers what is left of the oldest call's window.
retry_after-enough :
    (t : ℕ) (fresh : List ℕ) → (first_or t fresh) + window_ms ≤ t + retry_after t fresh * 1000
unfolding retry_after
retry_after-enough t fresh = ground arith

-- Once the oldest call has left the window, there is room.
fresh_at-room :
    (t : ℕ) (oldest : ℕ) (rest : List ℕ)
    → oldest + window_ms ≤ t
    → length (fresh_at t (oldest ∷ rest)) ≤ length rest
unfolding fresh_at
fresh_at-room t oldest rest h = ground (arith, length-fresh_at t rest)

consumed-allows :
    (l : BearerLimiter) (b : String) (t : ℕ) (fresh : List ℕ)
    → length fresh < l.limit
    → (consumed l b t fresh).1.allowed ≡ true
unfolding consumed
consumed-allows l b t fresh h = ground arith

consumed-refused :
    (l : BearerLimiter) (b : String) (t : ℕ) (fresh : List ℕ)
    → (consumed l b t fresh).1.allowed ≡ false
    → (l.limit ≤ length fresh)
      × (consumed l b t fresh ≡ (
        record l { windows = Dict.set l.windows b fresh },
        record { allowed = false; retry_after_seconds = retry_after t fresh },
      ))
unfolding consumed
consumed-refused l b t fresh h = elim (Bool-cases (leb l.limit (length fresh))) [
  | inl e ↦ rw e (ground (arith, e), refl)
  | inr n ↦ absurd (ground (arith, n, h))
]

retried :
    (l : BearerLimiter) (b : String) (t later : ℕ) (fresh : List ℕ)
    → 0 < l.limit
    → l.limit ≤ length fresh
    → length fresh ≤ l.limit
    → t + retry_after t fresh * 1000 ≤ later
    → (consume (record l { windows = Dict.set l.windows b fresh }) b later).1.allowed ≡ true
unfolding consume
retried l b t later [] p q r h = absurd (omega arith)
retried l b t later (oldest ∷ rest) p q r h = rw (get-set_self l.windows b (oldest ∷ rest)) (
    consumed-allows (record l { windows = Dict.set l.windows b (oldest ∷ rest) }) b later
      (fresh_at later (oldest ∷ rest))
      (omega (
        arith,
        retry_after-enough t (oldest ∷ rest),
        fresh_at-room later oldest rest (omega (arith, retry_after-enough t (oldest ∷ rest))),
      )))

-- If a bearer is refused, and waits for as many seconds as the refusal says, its next call is
-- admitted, where the limit is positive and the bearer's window is within it.
pub consume-retry :
    (l : BearerLimiter) (bearer : String) (t later : ℕ)
    → 0 < l.limit
    → IsBounded l
    → (consume l bearer t).1.allowed ≡ false
    → t + (consume l bearer t).1.retry_after_seconds * 1000 ≤ later
    → (consume (consume l bearer t).0 bearer later).1.allowed ≡ true
unfolding consume
consume-retry l bearer t later p i refused wait =
    let fresh = fresh_at t (kept l bearer) in
    let (full, e) = consumed-refused l bearer t fresh refused in
    let waited : t + retry_after t fresh * 1000 ≤ later =
      subst (λ r. t + r.1.retry_after_seconds * 1000 ≤ later) e wait in
    ap (λ r. (consume r.0 bearer later).1.allowed) e
    ∙ retried l bearer t later fresh p full
        (omega (arith, length-fresh_at t (kept l bearer), i bearer)) waited
