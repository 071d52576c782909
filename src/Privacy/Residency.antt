-- ===== src/Privacy/Residency.antt =====
-- packages/runner/src/privacy/residency-guard.ts and its error of privacy/errors.ts: the layered
-- defence that keeps a tool's data in its regions. Message texts are left out.
pub mod Layers
mod Tests
use soa_harness_impl.Base.{
  ℕ, String, Bool, true, false, Option, none, some, List, [], ◌∷◌, length, nat_eq, ◌==◌, string_key,
  if◌then◌else◌, includes, filter_by, option_or,
}

pub data SubReason : Type 0 where
  unknown_region tool_declaration_mismatch attestation_mismatch : SubReason

pub record ResidencyDecisionInput : Type 0 where
  pub tool : String
  pub data_residency : List String
  pub declared_location : Option (List String)
  pub attested_location : Option (List String)
  pub network_signal_regions : Option (List String)

pub record ResidencyViolation : Type 0 where
  pub sub_reason : SubReason
  pub tool : String
  pub declared_location : Option (List String)
  pub attested_location : Option (List String)
  pub network_signal_regions : Option (List String)
  pub data_residency : List String

pub record ResidencyAllow : Type 0 where
  pub tool : String
  pub data_residency : List String
  pub declared_location : List String
  pub attested_location : Option (List String)
  pub network_signal_regions : Option (List String)

pub data ResidencyDecision : Type 0 where
  allow : ResidencyAllow → ResidencyDecision
  deny : ResidencyViolation → ResidencyDecision

-- `a.filter((x) => new Set(b).has(x))`
pub intersect : List String → List String → List String
intersect a b = filter_by (λ x. includes b x) a

-- `l.length === 0`
abbrev pub is_empty : List String → Bool
is_empty [] = true
is_empty (x ∷ xs) = false

permitted : ResidencyDecisionInput → List String → ResidencyDecision
permitted input declared = allow (record {
  tool = input.tool;
  data_residency = input.data_residency;
  declared_location = declared;
  attested_location = input.attested_location;
  network_signal_regions = input.network_signal_regions;
})

violation : ResidencyDecisionInput → Option (List String) → SubReason → ResidencyDecision
violation input declared sub_reason = deny (record {
  sub_reason = sub_reason;
  tool = input.tool;
  declared_location = declared;
  attested_location = input.attested_location;
  network_signal_regions = input.network_signal_regions;
  data_residency = input.data_residency;
})

-- The attestation must meet the declaration, where there is one.
attested_check : ResidencyDecisionInput → List String → Option (List String) → ResidencyDecision
unfolding intersect permitted violation
attested_check input declared none = permitted input declared
attested_check input declared (some attested) =
    if is_empty attested
    then permitted input declared
    else if is_empty (intersect attested declared)
    then violation input (some declared) attestation_mismatch
    else permitted input declared

-- The declaration must be there and meet the pin.
declared_check : ResidencyDecisionInput → Option (List String) → ResidencyDecision
unfolding intersect violation attested_check
declared_check input none = violation input none unknown_region
declared_check input (some declared) =
    if is_empty declared
    then violation input none unknown_region
    else if is_empty (intersect declared input.data_residency)
    then violation input (some declared) tool_declaration_mismatch
    else attested_check input declared input.attested_location

-- residencyDecision
unfoldable pub residency_decision : ResidencyDecisionInput → ResidencyDecision
unfolding permitted declared_check
residency_decision input =
    if is_empty input.data_residency
    then permitted input (option_or input.declared_location [])
    else declared_check input input.declared_location

pub record ResidencyPayload : Type 0 where
  pub tool : String
  pub declared_location : List String
  pub attested_location : List String
  pub network_signal_regions : List String
  pub allowed : Bool
  pub sub_reason : Option SubReason

-- residencyAuditPayload
unfoldable pub residency_audit_payload : ResidencyDecision → ResidencyPayload
residency_audit_payload (allow d) = record {
  tool = d.tool;
  declared_location = d.declared_location;
  attested_location = option_or d.attested_location [];
  network_signal_regions = option_or d.network_signal_regions [];
  allowed = true;
  sub_reason = none;
}
residency_audit_payload (deny e) = record {
  tool = e.tool;
  declared_location = option_or e.declared_location [];
  attested_location = option_or e.attested_location [];
  network_signal_regions = option_or e.network_signal_regions [];
  allowed = false;
  sub_reason = some e.sub_reason;
}
