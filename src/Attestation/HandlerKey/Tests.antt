-- ===== src/Attestation/HandlerKey/Tests.antt =====
-- Runs of the key registry, and inputs at which its theorems apply. The one date is day 1.
use soa_harness_impl.Base.{
  ℕ, ◌+◌, ◌-◌, ◌*◌, ◌<◌, ◌≡◌, ◌↔◌, refl, String, Bool, true, false, Option, none, some, List, [],
  ◌∷◌, ltb, ◌==◌, string_key, if◌then◌else◌,
}
use soa_harness_impl.Base.Result.{err, is_ok}
use soa_harness_impl.Attestation.HandlerKey.{
  HandlerKeyEntry, HandlerKeyRegistry, day_ms, new, enroll, get, revoke, assert_usable,
  HandlerEnvConfig, assert_handler_env_listener_safe,
}
use soa_harness_impl.Attestation.HandlerKey.Lifecycle.{
  enroll_call, registry_calls, revoke-final, assert_usable-age,
}

abbrev parse_date : String → Option ℕ
parse_date s = if s == "day 1" then some day_ms else none

abbrev key : HandlerKeyEntry
key = record {
  kid = "k1";
  spki_hex = "";
  algo = "EdDSA";
  enrolled_at = "day 1";
  rotation_overlap_end = none;
  role = none;
}

abbrev registry : HandlerKeyRegistry
registry = record {
  by_kid = record { entries = ("k1", key) ∷ [] };
  revoked = record { entries = [] };
  last_crl_refresh_at = none;
  max_age_days = 90;
}

registry_run : registry_calls (new none) (enroll_call key ∷ enroll_call key ∷ []) ≡ registry
unfolding new registry_calls enroll soa_harness_impl.Base.Dict.get soa_harness_impl.Base.Dict.set
registry_run = refl

last_usable : is_ok (assert_usable parse_date registry "k1" (92 * day_ms - 1)) ≡ true
unfolding assert_usable soa_harness_impl.Base.Dict.get
last_usable = refl

first_expired : is_ok (assert_usable parse_date registry "k1" (92 * day_ms)) ≡ false
unfolding assert_usable soa_harness_impl.Base.Dict.get
first_expired = refl

public_listener :
    assert_handler_env_listener_safe
      (λ h. h)
      (record {
        enrolled_at_override = none;
        overlap_dir = some "keys";
        crl_poll_tick_ms = none;
        escalation_timeout_ms = some 5;
        responder_file_path = none;
      })
      "0.0.0.0"
    ≡ err ("SOA_HANDLER_KEYPAIR_OVERLAP_DIR", "0.0.0.0")
unfolding assert_handler_env_listener_safe
public_listener = refl

revoke-final_example :
    is_ok (
      assert_usable parse_date
        (registry_calls (revoke registry "k1" "now" "lost") (enroll_call key ∷ []))
        "k1"
        5)
    ≡ false
unfolding soa_harness_impl.Base.Dict.get
revoke-final_example =
    revoke-final parse_date registry key "k1" "now" "lost" (enroll_call key ∷ []) 5
      (unfold get in refl)

assert_usable-age_example :
    (is_ok (assert_usable parse_date registry "k1" 100) ≡ true) ↔ (100 < day_ms + (90 + 1) * day_ms)
unfolding soa_harness_impl.Base.Dict.get soa_harness_impl.Attestation.HandlerKey.is_revoked
    soa_harness_impl.Attestation.HandlerKey.in_overlap
assert_usable-age_example =
    assert_usable-age parse_date registry key "k1" 100 day_ms (unfold get in refl) refl refl refl
