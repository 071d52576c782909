-- ===== src/Attestation/Escalation/Tests.antt =====
-- Runs of an escalation, and inputs at which its theorems apply. A file is its response, of kid h.
use soa_harness_impl.Base.{
  ℕ, ◌≡◌, inl, inr, refl, String, Bool, true, false, Option, none, some, List, [], ◌∷◌, ◌==◌,
  string_key, if◌then◌else◌,
}
use soa_harness_impl.Attestation.HandlerKey
use soa_harness_impl.Attestation.HandlerKey.{
  HandlerKeyRegistry, HandlerRole, autonomous, interactive,
}
use soa_harness_impl.Attestation.Escalation.{
  EscalationOutcome, approved, timeout, hitl_required, autonomous_insufficient, ResponderFile,
  null_value, fields, Event, tick, timer, waiting, crashed, resolved, await_responder,
}
use soa_harness_impl.Attestation.Escalation.Responses.{
  AnyOf, Brings, IsResolved, await_responder-grounded, await_responder-resolves,
}

abbrev is_blank : String → Bool
is_blank s = s == ""

abbrev parse : String → ResponderFile
parse s = if s == "null" then null_value else fields (some "h") (some s)

abbrev registry : Option HandlerRole → HandlerKeyRegistry
registry role = record {
  by_kid = record {
    entries =
        (
          "h",
          record {
            kid = "h";
            spki_hex = "";
            algo = "EdDSA";
            enrolled_at = "";
            rotation_overlap_end = none;
            role = role;
          },
        )
        ∷ [];
  };
  revoked = record { entries = [] };
  last_crl_refresh_at = none;
  max_age_days = 90;
}

abbrev events : List (Event is_blank parse)
events = tick none 1 ∷ tick (some "silence") 2 ∷ tick (some "approve") 3 ∷ timer 4 ∷ []

approves : await_responder is_blank parse (registry none) waiting events ≡ resolved (approved "h" 3)
unfolding await_responder soa_harness_impl.Attestation.Escalation.try_read_responder HandlerKey.get
    soa_harness_impl.Base.Dict.get
approves = refl

robot :
    await_responder is_blank parse (registry (some autonomous)) waiting events
    ≡ resolved (hitl_required "h" autonomous_insufficient 3)
unfolding await_responder soa_harness_impl.Attestation.Escalation.try_read_responder HandlerKey.get
    soa_harness_impl.Base.Dict.get
robot = refl

breaks :
    await_responder is_blank parse (registry none) waiting (tick (some "null") 1 ∷ timer 2 ∷ [])
    ≡ crashed
unfolding await_responder soa_harness_impl.Attestation.Escalation.try_read_responder
breaks = refl

await_responder-grounded_example :
    AnyOf (Brings is_blank parse (registry none) (approved "h" 3)) events
await_responder-grounded_example =
    await_responder-grounded is_blank parse (registry none) events (approved "h" 3) approves

await_responder-resolves_example :
    IsResolved is_blank parse
      (await_responder is_blank parse (registry none) waiting (tick none 1 ∷ timer 4 ∷ []))
await_responder-resolves_example =
    await_responder-resolves is_blank parse (registry none) (tick none 1 ∷ timer 4 ∷ [])
      (tt, (tt, tt)) (inr (inl tt))
