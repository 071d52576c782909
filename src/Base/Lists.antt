-- ===== src/Base/Lists.antt =====
-- Lists measured by native numbers, membership tests, and predicates on every element.
use Prim.Native.Nat.{ℕ, zero, suc, ◌+◌, ◌-◌, ◌≤◌, ◌<◌}
use mathlib.Core.Path.{◌≡◌, ◌∙◌, refl}
use mathlib.Core.Bool.{Bool, true, false, ◌||◌}
use mathlib.Core.Logic.{inl, inr}
use mathlib.Core.List.{List, [], ◌∷◌, ◌++◌}
use mathlib.Core.Option.{Option, none, some}
use native.Mathlib.Omega.{arith}
use soa_harness_impl.Base.Tests.{Key, ◌==◌, if◌then◌else◌, ltb, ltb→lt, Bool-cases}

module _ {ℓ} {A : Type ℓ} where
  abbrev pub length : List A → ℕ
  length [] = 0
  length (x ∷ xs) = suc (length xs)

  pub length-append : (xs ys : List A) → length (xs ++ ys) ≡ length xs + length ys
  length-append [] ys = omega arith
  length-append (x ∷ xs) ys = omega (arith, length-append xs ys)

  abbrev pub drop : ℕ → List A → List A
  drop zero xs = xs
  drop (suc n) [] = []
  drop (suc n) (x ∷ xs) = drop n xs

  abbrev pub take : ℕ → List A → List A
  take zero xs = []
  take (suc n) [] = []
  take (suc n) (x ∷ xs) = x ∷ take n xs

  -- The last `n` elements, or all where there are fewer.
  abbrev pub take_last : ℕ → List A → List A
  take_last n xs = drop (length xs - n) xs

  pub length-drop : (n : ℕ) (xs : List A) → length (drop n xs) ≡ length xs - n
  length-drop zero xs = omega arith
  length-drop (suc n) [] = omega arith
  length-drop (suc n) (x ∷ xs) = omega (arith, length-drop n xs)

  pub length-take_last-le : (n : ℕ) (xs : List A) → length (take_last n xs) ≤ n
  length-take_last-le n xs = omega (arith, length-drop (length xs - n) xs)

  pub drop-append : (k : ℕ) (xs ys : List A) → k ≤ length xs → drop k (xs ++ ys) ≡ drop k xs ++ ys
  drop-append zero xs ys h = refl
  drop-append (suc k) [] ys h = absurd (omega arith)
  drop-append (suc k) (x ∷ xs) ys h = drop-append k xs ys (omega arith)

  pub length-take-le : (n : ℕ) (xs : List A) → length (take n xs) ≤ n
  length-take-le zero xs = omega arith
  length-take-le (suc n) [] = omega arith
  length-take-le (suc n) (x ∷ xs) = omega (arith, length-take-le n xs)

  abbrev pub get_elem? : List A → ℕ → Option A
  get_elem? [] i = none
  get_elem? (x ∷ xs) zero = some x
  get_elem? (x ∷ xs) (suc i) = get_elem? xs i

  abbrev pub get_or : List A → ℕ → A → A
  get_or [] i d = d
  get_or (x ∷ xs) zero d = x
  get_or (x ∷ xs) (suc i) d = get_or xs i d

  -- `xs.shift()`, the element dropped
  abbrev pub shift : List A → List A
  shift [] = []
  shift (x ∷ xs) = xs

  pub shift-drop : (k : ℕ) (xs : List A) → shift (drop k xs) ≡ drop (suc k) xs
  shift-drop zero [] = refl
  shift-drop zero (x ∷ xs) = refl
  shift-drop (suc k) [] = refl
  shift-drop (suc k) (x ∷ xs) = shift-drop k xs

  -- A bounded buffer: push at the end, and shift once where the bound is passed.
  abbrev pub push_bounded : ℕ → List A → A → List A
  push_bounded bound xs x =
      let pushed = xs ++ x ∷ [] in if ltb bound (length pushed) then shift pushed else pushed

  push_bounded-fits :
      (n : ℕ) (xs : List A) (x : A) → length xs < n → push_bounded n xs x ≡ xs ++ x ∷ []
  push_bounded-fits n xs x h = ground (arith, length-append xs (x ∷ []))

  push_bounded-full :
      (n : ℕ) (xs : List A) (x : A) → n ≤ length xs → push_bounded n xs x ≡ shift (xs ++ x ∷ [])
  push_bounded-full n xs x h = ground (arith, length-append xs (x ∷ []))

  -- The element that is pushed shortens the part that is dropped by nothing, or by one.
  take_last-append-short :
      (n : ℕ) (xs : List A) (x : A)
      → length xs < n
      → take_last n xs ++ x ∷ [] ≡ take_last n (xs ++ x ∷ [])
  take_last-append-short n xs x h =
      let e : length xs - n ≡ 0 = omega arith in
      let f : length (xs ++ x ∷ []) - n ≡ 0 = omega (arith, length-append xs (x ∷ [])) in rw (e, f)

  take_last-append-full :
      (n : ℕ) (xs : List A) (x : A)
      → n ≤ length xs
      → shift (take_last n xs ++ x ∷ []) ≡ take_last n (xs ++ x ∷ [])
  take_last-append-full n xs x h =
      let e : length (xs ++ x ∷ []) - n ≡ suc (length xs - n) =
        omega (arith, length-append xs (x ∷ [])) in
      rw (e, ← drop-append (length xs - n) xs (x ∷ []) (omega arith))
        (shift-drop (length xs - n) (xs ++ x ∷ []))

  -- A bounded buffer holds the last elements of all that was pushed.
  pub push_bounded-take_last :
      (n : ℕ) (xs : List A) (x : A) → push_bounded n (take_last n xs) x ≡ take_last n (xs ++ x ∷ [])
  push_bounded-take_last n xs x = elim (Bool-cases (ltb (length xs) n)) [
    | inl short ↦
        push_bounded-fits n (take_last n xs) x
          (omega (arith, length-drop (length xs - n) xs, ltb→lt (length xs) n short))
        ∙ take_last-append-short n xs x (ltb→lt (length xs) n short)
    | inr full ↦
        let le : n ≤ length xs = ground arith in
        push_bounded-full n (take_last n xs) x (omega (arith, length-drop (length xs - n) xs))
        ∙ take_last-append-full n xs x le
  ]

  abbrev pub filter_by : (A → Bool) → List A → List A
  filter_by p [] = []
  filter_by p (x ∷ xs) = let rest = filter_by p xs in if p x then x ∷ rest else rest

  abbrev pub option_or : Option A → A → A
  option_or none d = d
  option_or (some a) d = a

  abbrev pub is_none : Option A → Bool
  is_none none = true
  is_none (some a) = false

  abbrev pub is_some : Option A → Bool
  is_some none = false
  is_some (some a) = true

module _ {ℓ κ} {A : Type ℓ} where
  abbrev pub All : (A → Type κ) → List A → Type κ
  All P [] = Unit
  All P (x ∷ xs) = P x × All P xs

  pub All-append : (P : A → Type κ) (xs ys : List A) → All P xs → All P ys → All P (xs ++ ys)
  All-append P [] ys h k = k
  All-append P (x ∷ xs) ys (p, h) k = (p, All-append P xs ys h k)

-- `xs.includes(a)` and `set.has(a)`
module _ {ℓ} {A : Type ℓ} ⦃e : Key A⦄ where
  abbrev pub includes : List A → A → Bool
  includes [] a = false
  includes (x ∷ xs) a = x == a || includes xs a

  pub includes-append :
      (xs ys : List A) (a : A) → includes (xs ++ ys) a ≡ (includes xs a || includes ys a)
  includes-append [] ys a = refl
  includes-append (x ∷ xs) ys a = ground (arith, includes-append xs ys a)
