-- ===== src/Attestation/Pda/Tests.antt =====
-- A run of the verification, and an input at which its theorem applies. A key is a number.
use soa_harness_impl.Base.{
  ℕ, ◌≡◌, refl, Bool, true, false, none, some, [], ◌∷◌, nat_eq, ◌==◌, string_key, if◌then◌else◌,
}
use soa_harness_impl.Base.Result.{ok, err}
use soa_harness_impl.Attestation.Pda.{
  PdaPlatform, VerifyPdaOptions, VerifiedPda, Header, Payload, verify_pda, expired,
  handler_key_revoked,
}
use soa_harness_impl.Attestation.Pda.Soundness.{IsVerified, verify_pda-IsVerified}

abbrev header : Header
header = record { typ = some "soa-pda+jws"; alg = some "EdDSA"; kid = some "k1" }

abbrev payload : Payload
payload = record {
  handler_kid = some "k1";
  decision = some "allow";
  not_before = some "noon";
  not_after = some "five past noon";
}

abbrev platform : PdaPlatform ℕ
platform = record {
  split_dots = λ s. "h" ∷ "p" ∷ "s" ∷ [];
  decode_header = λ s. some header;
  decode_payload = λ s. some payload;
  valid_schema = λ p. true;
  parse_date = λ s. if s == "noon" then some 1000000 else some 1300000;
  verifies = λ s k. nat_eq k 7;
}

abbrev options : ℕ → Bool → VerifyPdaOptions ℕ
options now revoked = record {
  pda_jws = "h.p.s";
  resolve_verify_key = λ kid. some 7;
  is_revoked = some (λ kid. revoked);
  allowed_algs = none;
  skew_seconds = none;
  max_window_seconds = none;
  skip_payload_schema = true;
  now = now;
}

abbrev verified : VerifiedPda
verified = record { decision = payload; handler_kid = "k1"; protected_header = header }

-- The skew is of a minute at either end.
verify_pda_skewed : verify_pda platform (options 940000 false) ≡ ok verified
unfolding verify_pda
verify_pda_skewed = refl

verify_pda_late : verify_pda platform (options 1360001 false) ≡ err expired
unfolding verify_pda
verify_pda_late = refl

verify_pda_revoked : verify_pda platform (options 1000000 true) ≡ err handler_key_revoked
unfolding verify_pda
verify_pda_revoked = refl

verify_pda-IsVerified_example : IsVerified platform (options 940000 false) verified
verify_pda-IsVerified_example =
    verify_pda-IsVerified platform (options 940000 false) verified verify_pda_skewed
