-- ===== src/Privacy/Residency/Layers.antt =====
-- What the residency guard allows, described by regions that are shared; and which layer refuses.
use soa_harness_impl.Base.{
  String, ◌≡◌, ◌⊎◌, ◌↔◌, ap, inl, inr, refl, Bool, true, false, Option, none, some, List, [], ◌∷◌,
  ◌==◌, string_key, eq_iff, arith, includes, Bool-cases,
}
use soa_harness_impl.Privacy.Residency.{
  ResidencyDecisionInput, ResidencyDecision, allow, deny, intersect, is_empty, permitted, violation,
  attested_check, declared_check, residency_decision, residency_audit_payload,
}

-- Some region stands in both lists.
abbrev pub Meet : List String → List String → Type 0
Meet a b = (r : String) × (includes a r ≡ true) × (includes b r ≡ true)

intersect-Meet : (a b : List String) → is_empty (intersect a b) ≡ false → Meet a b
unfolding intersect
intersect-Meet [] b h = absurd (ground arith)
intersect-Meet (x ∷ xs) b h = elim (Bool-cases (includes b x)) [
  | inl p ↦ (x, ground (arith, eq_iff x x), p)
  | inr n ↦ let (r, i, j) = intersect-Meet xs b (ground (arith, n)) in (r, ground (arith, i), j)
]

Meet-intersect : (a b : List String) → Meet a b → is_empty (intersect a b) ≡ false
unfolding intersect
Meet-intersect [] b (r, i, j) = absurd (ground arith)
Meet-intersect (x ∷ xs) b (r, i, j) = elim (Bool-cases (includes b x)) [
  | inl p ↦ ground (arith, p)
  | inr n ↦ elim (Bool-cases (x == r)) [
    | inl e ↦ absurd (let q : includes b x ≡ true = rw ((eq_iff x r).0 e) j in ground (arith, q, n))
    | inr m ↦ ground (arith, n, Meet-intersect xs b (r, ground (arith, m, i), j))
  ]
]

-- The attestation meets the declaration, where there is one.
abbrev pub Attests : List String → Option (List String) → Type 0
Attests declared none = Unit
Attests declared (some []) = Unit
Attests declared (some (a ∷ as')) = Meet (a ∷ as') declared

-- The declaration is there, meets the pin, and is attested.
abbrev pub Layered : List String → Option (List String) → Option (List String) → Type 0
Layered pin none attested = ⊥
Layered pin (some declared) attested = Meet declared pin × Attests declared attested

abbrev pub is_allow : ResidencyDecision → Bool
is_allow (allow d) = true
is_allow (deny e) = false

attested_check-allows :
    (input : ResidencyDecisionInput) (declared : List String) (attested : Option (List String))
    → (is_allow (attested_check input declared attested) ≡ true) ↔ Attests declared attested
unfolding attested_check permitted violation
attested_check-allows input declared none = (λ h. tt, λ h. refl)
attested_check-allows input declared (some []) = (λ h. tt, λ h. refl)
attested_check-allows input declared (some (a ∷ l)) =
    elim (Bool-cases (is_empty (intersect (a ∷ l) declared))) [
      | inl e ↦ (
        λ h. absurd (ground (arith, e, h)),
        λ h. absurd (ground (arith, e, Meet-intersect (a ∷ l) declared h)),
      )
      | inr n ↦ (λ h. intersect-Meet (a ∷ l) declared n, λ h. rw n refl)
    ]

is_empty_iff : (l : List String) → (is_empty l ≡ true) ↔ (l ≡ [])
is_empty_iff [] = (λ h. refl, λ h. refl)
is_empty_iff (x ∷ xs) = (λ h. absurd (ground (arith, h)), λ h. ap is_empty h)

declared_check-allows :
    (input : ResidencyDecisionInput) (declared : Option (List String))
    → (is_allow (declared_check input declared) ≡ true)
      ↔ Layered input.data_residency declared input.attested_location
unfolding declared_check violation
declared_check-allows input none = (λ h. absurd (ground (arith, h)), λ h. absurd h)
declared_check-allows input (some []) =
    (λ h. absurd (ground (arith, h)), λ h. absurd (ground (arith, h.0.1)))
declared_check-allows input (some (d ∷ ds)) =
    elim (Bool-cases (is_empty (intersect (d ∷ ds) input.data_residency))) [
      | inl e ↦ (
        λ h. absurd (ground (arith, e, h)),
        λ h. absurd (ground (arith, e, Meet-intersect (d ∷ ds) input.data_residency h.0)),
      )
      | inr n ↦
          let (f, g) = attested_check-allows input (d ∷ ds) input.attested_location in
          (
            λ h. (intersect-Meet (d ∷ ds) input.data_residency n, f (ground (arith, n, h))),
            λ h. rw n (g h.1),
          )
    ]

payload-allowed : (d : ResidencyDecision) → (residency_audit_payload d).allowed ≡ is_allow d
unfolding residency_audit_payload
payload-allowed (allow d) = refl
payload-allowed (deny e) = refl

-- The guard allows a tool just when no region is pinned, or the tool declares a location in the pin
-- and its attestation, if there is one, meets the declaration; network signals decide nothing. The
-- audit payload states the same decision.
pub residency_decision-allows :
    (input : ResidencyDecisionInput)
    → ((is_allow (residency_decision input) ≡ true) ↔ (
        (input.data_residency ≡ [])
        ⊎ Layered input.data_residency input.declared_location input.attested_location))
      × ((residency_audit_payload (residency_decision input)).allowed
          ≡ is_allow (residency_decision input))
unfolding residency_decision permitted
residency_decision-allows input = (
  elim (Bool-cases (is_empty input.data_residency)) [
    | inl e ↦ (λ h. inl ((is_empty_iff input.data_residency).0 e), λ h. rw e refl)
    | inr n ↦
        let (f, g) = declared_check-allows input input.declared_location in
        (
          λ h. inr (f (ground (arith, n, h))),
          λ h. elim h [
            | inl p ↦ absurd (ground (arith, n, (is_empty_iff input.data_residency).1 p))
            | inr q ↦ rw n (g q)
          ],
        )
  ],
  payload-allowed (residency_decision input),
)
