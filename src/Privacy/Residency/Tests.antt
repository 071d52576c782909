-- ===== src/Privacy/Residency/Tests.antt =====
-- Runs of the residency guard, and inputs at which its theorems apply.
use soa_harness_impl.Base.{◌≡◌, ◌⊎◌, ◌↔◌, refl, true, false, none, some, [], ◌∷◌}
use soa_harness_impl.Privacy.Residency.{
  ResidencyDecisionInput, residency_decision, residency_audit_payload,
}
use soa_harness_impl.Privacy.Residency.Layers.{is_allow, Layered, residency_decision-allows}

abbrev pinned : ResidencyDecisionInput
pinned = record {
  tool = "search";
  data_residency = "eu" ∷ [];
  declared_location = some ("us" ∷ "eu" ∷ []);
  attested_location = some ("us" ∷ []);
  network_signal_regions = some ("cn" ∷ []);
}

-- An attestation that meets the declaration, but not the pin, is enough.
attested_elsewhere : is_allow (residency_decision pinned) ≡ true
unfolding residency_decision
attested_elsewhere = refl

undeclared : is_allow (residency_decision (record pinned { declared_location = none })) ≡ false
unfolding residency_decision
undeclared = refl

residency_decision-allows_example :
    ((is_allow (residency_decision pinned) ≡ true) ↔ (
      (pinned.data_residency ≡ [])
      ⊎ Layered pinned.data_residency pinned.declared_location pinned.attested_location))
    × ((residency_audit_payload (residency_decision pinned)).allowed
        ≡ is_allow (residency_decision pinned))
residency_decision-allows_example = residency_decision-allows pinned
