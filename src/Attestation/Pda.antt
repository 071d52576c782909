-- ===== src/Attestation/Pda.antt =====
-- packages/runner/src/attestation/verify-pda.ts: the checks of a signed permission decision. The
-- splitting and decoding of the text, dates, the payload's schema and the signature are the
-- argument `platform`; keys are of a type `K`. Message texts are left out.
pub mod Soundness
mod Tests
use soa_harness_impl.Base.{
  ℕ, ◌+◌, ◌*◌, String, Bool, true, false, not, ◌&&◌, ◌||◌, Option, none, some, List, [], ◌∷◌, ltb,
  ◌==◌, string_key, if◌then◌else◌, includes, option_or, is_some,
}
use soa_harness_impl.Base.Result.{Result, ok, err, ◌>>=◌, ◌>>◌, ensure, or_throw}

pub data PdaFailureReason : Type 0 where
  jws_malformed header_malformed typ_mismatch alg_not_allowlisted kid_missing : PdaFailureReason
  kid_mismatch payload_malformed schema_invalid not_yet_valid expired : PdaFailureReason
  window_too_wide signature_invalid handler_key_unknown handler_key_revoked : PdaFailureReason

-- A protected header; a field is none where it is no string.
pub record Header : Type 0 where
  pub typ : Option String
  pub alg : Option String
  pub kid : Option String

-- The fields of a decoded payload that the code reads, none where they are no string.
pub record Payload : Type 0 where
  pub handler_kid : Option String
  pub decision : Option String
  pub not_before : Option String
  pub not_after : Option String

pub record PdaPlatform (K : Type 0) : Type 0 where
  pub split_dots : String → List String
  pub decode_header : String → Option Header
  pub decode_payload : String → Option Payload
  pub valid_schema : Payload → Bool
  pub parse_date : String → Option ℕ
  pub verifies : String → K → Bool

pub record VerifyPdaOptions (K : Type 0) : Type 0 where
  pub pda_jws : String
  pub resolve_verify_key : String → Option K
  pub is_revoked : Option (String → Bool)
  pub allowed_algs : Option (List String)
  pub skew_seconds : Option ℕ
  pub max_window_seconds : Option ℕ
  pub skip_payload_schema : Bool
  pub now : ℕ

pub record VerifiedPda : Type 0 where
  pub decision : Payload
  pub handler_kid : String
  pub protected_header : Header

abbrev pub default_algs : List String
default_algs = "EdDSA" ∷ "ES256" ∷ "RS256" ∷ []

abbrev pub expected_typ : String
expected_typ = "soa-pda+jws"

abbrev pub default_skew_seconds : ℕ
default_skew_seconds = 60

abbrev pub default_max_window_seconds : ℕ
default_max_window_seconds = 15 * 60

-- Three segments, none of them empty: the first two.
segments : List String → Option (String × String)
segments (h ∷ p ∷ s ∷ []) = if h == "" || p == "" || s == "" then none else some (h, p)
segments _ = none

same_text : Option String → String → Bool
same_text none t = false
same_text (some s) t = s == t

in_list : List String → Option String → Bool
in_list l none = false
in_list l (some s) = includes l s

non_empty : Option String → Option String
non_empty none = none
non_empty (some s) = if s == "" then none else some s

module _ {K : Type 0} (platform : PdaPlatform K) (opts : VerifyPdaOptions K) where
  pub skew_ms : ℕ
  skew_ms = option_or opts.skew_seconds default_skew_seconds * 1000

  pub max_window_ms : ℕ
  max_window_ms = option_or opts.max_window_seconds default_max_window_seconds * 1000

  -- The differences of the source, written without subtraction.
  check_instants : ℕ → ℕ → Result PdaFailureReason (Unit {0})
  unfolding skew_ms max_window_ms
  check_instants not_before not_after =
      ensure (not (ltb (not_before + max_window_ms) not_after)) window_too_wide
      >> (ensure (not (ltb (opts.now + skew_ms) not_before)) not_yet_valid
          >> ensure (not (ltb (not_after + skew_ms) opts.now)) expired)

  -- The window, where both ends are there.
  check_window : Option String → Option String → Result PdaFailureReason (Unit {0})
  unfolding check_instants
  check_window none not_after = ok tt
  check_window (some b) none = ok tt
  check_window (some b) (some a) = or_throw (platform.parse_date b) schema_invalid >>= λ not_before.
      or_throw (platform.parse_date a) schema_invalid >>= λ not_after.
      check_instants not_before not_after

  pub is_on_crl : Option (String → Bool) → String → Bool
  is_on_crl none kid = false
  is_on_crl (some revoked) kid = revoked kid

  -- The payload's shape: its schema, or at the least its handler's kid.
  shape_ok : Payload → Bool
  shape_ok p = if opts.skip_payload_schema then is_some p.handler_kid else platform.valid_schema p

  -- The checks of the decoded parts, from the window on.
  check_signed : Header → Payload → String → Result PdaFailureReason VerifiedPda
  unfolding check_window is_on_crl
  check_signed header payload kid =
      check_window payload.not_before payload.not_after
      >> (or_throw (opts.resolve_verify_key kid) handler_key_unknown >>= λ key.
          ensure (not (is_on_crl opts.is_revoked kid)) handler_key_revoked
          >> (ensure (platform.verifies opts.pda_jws key) signature_invalid
              >> ok (record { decision = payload; handler_kid = kid; protected_header = header })))

  -- The checks of the decoded header.
  check_header : Header → String → Result PdaFailureReason VerifiedPda
  unfolding same_text in_list non_empty shape_ok check_signed
  check_header header payload_b64 =
      ensure (same_text header.typ expected_typ) typ_mismatch
      >> (ensure (in_list (option_or opts.allowed_algs default_algs) header.alg) alg_not_allowlisted
          >> (or_throw (non_empty header.kid) kid_missing >>= λ kid.
              or_throw (platform.decode_payload payload_b64) payload_malformed >>= λ payload.
              ensure (shape_ok payload) schema_invalid
              >> (ensure (same_text payload.handler_kid kid) kid_mismatch
                  >> check_signed header payload kid)))

  -- verifyPda
  unfoldable pub verify_pda : Result PdaFailureReason VerifiedPda
  unfolding segments check_header
  verify_pda = or_throw (segments (platform.split_dots opts.pda_jws)) jws_malformed >>= λ parts.
      or_throw (platform.decode_header parts.0) header_malformed >>= λ header.
      check_header header parts.1
