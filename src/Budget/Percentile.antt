-- ===== src/Budget/Percentile.antt =====
-- The 95th percentile lies among its samples and does not depend on their order.
use mathlib.Core.List.{Perm, Permᴰ}
use mathlib.Core.Logic.{∥∥₁_elim}
use native.Mathlib.Nat.{ℕ_set}
use soa_harness_impl.Base.{
  ℕ, zero, suc, ◌+◌, ◌-◌, ◌*◌, ◌/◌, ◌%◌, ◌≤◌, ◌<◌, ◌≡◌, ◌≢◌, refl, sym, ap₂, inl, inr, Bool-cases,
  ap, ◌∙◌, List, [], ◌∷◌, arith, nat_eq, length, get_or, All,
}
use soa_harness_impl.Budget.{insert_sorted, sort, rank20, interpolate, percentile95}

abbrev Within : ℕ → ℕ → List ℕ → Type 0
Within lo hi = All (λ x. (lo ≤ x) × (x ≤ hi))

insert_sorted-Within :
    (lo hi x : ℕ) (xs : List ℕ)
    → lo ≤ x
    → x ≤ hi
    → Within lo hi xs
    → Within lo hi (insert_sorted x xs)
unfolding insert_sorted
insert_sorted-Within lo hi x [] p q h = ((p, q), tt)
insert_sorted-Within lo hi x (y ∷ ys) p q h =
    ground (arith, insert_sorted-Within lo hi x ys p q h.1)

sort-Within : (lo hi : ℕ) (xs : List ℕ) → Within lo hi xs → Within lo hi (sort xs)
unfolding sort
sort-Within lo hi [] h = tt
sort-Within lo hi (x ∷ xs) h =
    insert_sorted-Within lo hi x (sort xs) h.0.0 h.0.1 (sort-Within lo hi xs h.1)

length-insert_sorted : (x : ℕ) (xs : List ℕ) → length (insert_sorted x xs) ≡ suc (length xs)
unfolding insert_sorted
length-insert_sorted x [] = refl
length-insert_sorted x (y ∷ ys) = ground (arith, length-insert_sorted x ys)

length-sort : (xs : List ℕ) → length (sort xs) ≡ length xs
unfolding sort
length-sort [] = refl
length-sort (x ∷ xs) = length-insert_sorted x (sort xs) ∙ ap suc (length-sort xs)

get_or-Within :
    (lo hi : ℕ) (xs : List ℕ) (i : ℕ)
    → Within lo hi xs
    → i < length xs
    → (lo ≤ get_or xs i 0) × (get_or xs i 0 ≤ hi)
get_or-Within lo hi [] i h b = absurd (omega arith)
get_or-Within lo hi (x ∷ xs) zero h b = h.0
get_or-Within lo hi (x ∷ xs) (suc i) h b = get_or-Within lo hi xs i h.1 (omega arith)

mul_mono : (a b c : ℕ) → a ≤ b → a * c ≤ b * c
mul_mono a b c h = grind arith

weighted_bounds :
    (lo hi a b v w : ℕ)
    → v + w ≡ 20
    → (lo ≤ a) × (a ≤ hi)
    → (lo ≤ b) × (b ≤ hi)
    → (1000 * lo ≤ 50 * (a * v + b * w)) × (50 * (a * v + b * w) ≤ 1000 * hi)
weighted_bounds lo hi a b v w e p q = (
  omega (arith, mul_mono lo a v p.0, mul_mono lo b w q.0, ap (λ (t : ℕ). lo * t) e),
  omega (arith, mul_mono a hi v p.1, mul_mono b hi w q.1, ap (λ (t : ℕ). hi * t) e),
)

interpolate-Within :
    (lo hi : ℕ) (xs : List ℕ)
    → Within lo hi xs
    → 0 < length xs
    → (1000 * lo ≤ interpolate xs (rank20 (length xs)))
      × (interpolate xs (rank20 (length xs)) ≤ 1000 * hi)
unfolding interpolate rank20
interpolate-Within lo hi xs h b =
    let rank = 19 * (length xs - 1) in
    elim (Bool-cases (nat_eq (rank % 20) 0)) [
      | inl whole ↦
          let p = get_or-Within lo hi xs (rank / 20) h (omega arith) in
          rw whole (omega arith, omega arith)
      | inr part ↦
          let pos : 0 < rank % 20 = ground arith in
          let p = get_or-Within lo hi xs (rank / 20) h (omega arith) in
          let q = get_or-Within lo hi xs (rank / 20 + 1) h (omega arith) in
          rw part (
            weighted_bounds lo hi (get_or xs (rank / 20) 0) (get_or xs (rank / 20 + 1) 0)
              (20 - rank % 20) (rank % 20) (omega arith) p q)
    ]

-- The percentile of some samples, in thousandths, lies between any lower and any upper bound of
-- the samples.
pub percentile95_bounds :
    (lo hi : ℕ) (xs : List ℕ)
    → xs ≢ []
    → Within lo hi xs
    → (1000 * lo ≤ percentile95 xs) × (percentile95 xs ≤ 1000 * hi)
unfolding percentile95
percentile95_bounds lo hi [] ne h = absurd (ne refl)
percentile95_bounds lo hi (x ∷ []) ne h = (omega arith, omega arith)
percentile95_bounds lo hi (x ∷ y ∷ xs) ne h = rw (← length-sort (x ∷ y ∷ xs)) (
    interpolate-Within lo hi (sort (x ∷ y ∷ xs)) (sort-Within lo hi (x ∷ y ∷ xs) h)
      (omega (arith, length-sort (x ∷ y ∷ xs))))

insert_sorted_comm :
    (x y : ℕ) (xs : List ℕ)
    → insert_sorted x (insert_sorted y xs) ≡ insert_sorted y (insert_sorted x xs)
unfolding insert_sorted
insert_sorted_comm x y [] = ground arith
insert_sorted_comm x y (z ∷ zs) = ground (arith, insert_sorted_comm x y zs)

sort-permᴰ : {xs ys : List ℕ} → Permᴰ xs ys → sort xs ≡ sort ys
unfolding sort
sort-permᴰ Permᴰ.nil = refl
sort-permᴰ (Permᴰ.cons e p) = ap₂ insert_sorted e (sort-permᴰ p)
sort-permᴰ (Permᴰ.swap {a} {b} {l} e f) =
    insert_sorted_comm a b (sort l) ∙ ap₂ (λ x y. insert_sorted x (insert_sorted y (sort l))) f e
sort-permᴰ (Permᴰ.trans p q) = sort-permᴰ p ∙ sort-permᴰ q

-- The percentile of samples that are sorted already.
of_sorted : List ℕ → ℕ
of_sorted [] = 0
of_sorted (v ∷ []) = 1000 * v
of_sorted (v ∷ w ∷ vs) = interpolate (v ∷ w ∷ vs) (rank20 (length (v ∷ w ∷ vs)))

of_sorted-long : (xs : List ℕ) → 2 ≤ length xs → of_sorted xs ≡ interpolate xs (rank20 (length xs))
unfolding of_sorted
of_sorted-long [] h = absurd (omega arith)
of_sorted-long (v ∷ []) h = absurd (omega arith)
of_sorted-long (v ∷ w ∷ vs) h = refl

percentile95-of_sorted : (xs : List ℕ) → percentile95 xs ≡ of_sorted (sort xs)
unfolding percentile95
percentile95-of_sorted [] = unfold of_sorted sort in refl
percentile95-of_sorted (v ∷ []) = unfold of_sorted sort insert_sorted in refl
percentile95-of_sorted (v ∷ w ∷ vs) =
    rw (← length-sort (v ∷ w ∷ vs))
      (sym (of_sorted-long (sort (v ∷ w ∷ vs)) (omega (arith, length-sort (v ∷ w ∷ vs)))))

-- The percentile depends on the samples as a multiset: any reordering of the recorded turns has
-- the same one.
pub percentile95-perm : (xs ys : List ℕ) → Perm xs ys → percentile95 xs ≡ percentile95 ys
percentile95-perm xs ys p =
    ∥∥₁_elim p (ℕ_set _ _) (λ d.
      percentile95-of_sorted xs ∙ ap of_sorted (sort-permᴰ d) ∙ sym (percentile95-of_sorted ys))
