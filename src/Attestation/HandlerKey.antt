-- ===== src/Attestation/HandlerKey.antt =====
-- packages/runner/src/attestation/handler-key.ts: the registry of handler keys and their lifecycle.
-- `Date.parse` is the argument `parse_date`, with none for NaN; an instant is in milliseconds. Of
-- the environment's settings only the listener guard is modelled.
pub mod Lifecycle
mod Tests
use soa_harness_impl.Base.{
  ℕ, ◌-◌, ◌*◌, ◌/◌, String, Bool, true, false, not, ◌||◌, Option, none, some, List, [], ◌∷◌, leb,
  ltb, ◌==◌, string_key, if◌then◌else◌, includes, option_or, is_some,
}
use soa_harness_impl.Base.Result.{Result, ok, err}
use soa_harness_impl.Base.Dict
use soa_harness_impl.Base.Dict.{Dict}

abbrev pub day_ms : ℕ
day_ms = 24 * 60 * 60 * 1000

abbrev pub default_max_age_days : ℕ
default_max_age_days = 90

-- HANDLER_ALGOS
abbrev pub handler_algos : List String
handler_algos = "EdDSA" ∷ "ES256" ∷ "RS3072" ∷ "RS4096" ∷ []

pub is_handler_algo : String → Bool
is_handler_algo value = includes handler_algos value

pub data HandlerRole : Type 0 where
  interactive coordinator autonomous : HandlerRole

pub record HandlerKeyEntry : Type 0 where
  pub kid : String
  pub spki_hex : String
  pub algo : String
  pub enrolled_at : String
  pub rotation_overlap_end : Option String
  pub role : Option HandlerRole

pub record Revocation : Type 0 where
  pub revoked_at : String
  pub reason : String

pub data KeyError : Type 0 where
  handler_key_expired :
      (kid : String) (age_days : ℕ) (enrolled_at : String) (max_age_days : ℕ) → KeyError
  handler_key_revoked : (kid revoked_at reason : String) → KeyError

pub data EnrollError : Type 0 where
  algorithm_rejected handler_kid_conflict : String → EnrollError

pub record HandlerKeyRegistry : Type 0 where
  pub by_kid : Dict String HandlerKeyEntry
  pub revoked : Dict String Revocation
  pub last_crl_refresh_at : Option String
  pub max_age_days : ℕ

unfoldable pub new : Option ℕ → HandlerKeyRegistry
new max_age_days = record {
  by_kid = Dict.empty;
  revoked = Dict.empty;
  last_crl_refresh_at = none;
  max_age_days = option_or max_age_days default_max_age_days;
}

unfoldable pub enroll : HandlerKeyRegistry → HandlerKeyEntry → Result EnrollError HandlerKeyRegistry
unfolding is_handler_algo
enroll reg entry =
    if not (is_handler_algo entry.algo)
    then err (algorithm_rejected entry.algo)
    else if Dict.has reg.by_kid entry.kid
    then err (handler_kid_conflict entry.kid)
    else ok (record reg { by_kid = Dict.set reg.by_kid entry.kid entry })

unfoldable pub has : HandlerKeyRegistry → String → Bool
has reg kid = Dict.has reg.by_kid kid

unfoldable pub get : HandlerKeyRegistry → String → Option HandlerKeyEntry
get reg kid = Dict.get reg.by_kid kid

unfoldable pub kids : HandlerKeyRegistry → List String
kids reg = Dict.keys reg.by_kid

unfoldable pub revoke : HandlerKeyRegistry → String → String → String → HandlerKeyRegistry
revoke reg kid revoked_at reason = record reg {
  revoked = Dict.set reg.revoked kid (record { revoked_at = revoked_at; reason = reason });
}

unfoldable pub is_revoked : HandlerKeyRegistry → String → Bool
is_revoked reg kid = Dict.has reg.revoked kid

unfoldable pub revocation_info : HandlerKeyRegistry → String → Option Revocation
revocation_info reg kid = Dict.get reg.revoked kid

unfoldable pub record_crl_refresh : HandlerKeyRegistry → String → HandlerKeyRegistry
record_crl_refresh reg now_iso = record reg { last_crl_refresh_at = some now_iso }

-- What an optional instant bounds: nothing, where the text is no date.
before : Option ℕ → ℕ → Bool
before none now = false
before (some last) now = leb now last

module _ (parse_date : String → Option ℕ) where
  -- Is the rotation's overlap window still open?
  unfoldable pub in_overlap : Option String → ℕ → Bool
  unfolding before
  in_overlap none now = false
  in_overlap (some text) now = before (parse_date text) now

  -- The age check. A key that was enrolled in the future is 0 days old here; its age in the source
  -- is negative, and neither exceeds the bound.
  check_age : ℕ → HandlerKeyEntry → ℕ → Option ℕ → Result KeyError (Unit {0})
  check_age max_age_days entry now none = ok tt
  check_age max_age_days entry now (some enrolled) =
      let age_days = (now - enrolled) / day_ms in
      if ltb max_age_days age_days
      then err (handler_key_expired entry.kid age_days entry.enrolled_at max_age_days)
      else ok tt

  usable_entry :
      HandlerKeyRegistry
      → ℕ
      → Option HandlerKeyEntry
      → Option Revocation
      → Result KeyError (Unit {0})
  unfolding in_overlap check_age
  usable_entry reg now none rev = ok tt
  usable_entry reg now (some entry) (some rev) =
      err (handler_key_revoked entry.kid rev.revoked_at rev.reason)
  usable_entry reg now (some entry) none =
      let aged = check_age reg.max_age_days entry now (parse_date entry.enrolled_at) in
      if in_overlap entry.rotation_overlap_end now then ok tt else aged

  -- assertUsable; the key of an entry is the kid that it is stored under.
  unfoldable pub assert_usable : HandlerKeyRegistry → String → ℕ → Result KeyError (Unit {0})
  unfolding usable_entry
  assert_usable reg kid now =
      usable_entry reg now (Dict.get reg.by_kid kid) (Dict.get reg.revoked kid)

pub record HandlerEnvConfig : Type 0 where
  pub enrolled_at_override : Option String
  pub overlap_dir : Option String
  pub crl_poll_tick_ms : Option ℕ
  pub escalation_timeout_ms : Option ℕ
  pub responder_file_path : Option String

abbrev pub loopback_hosts : List String
loopback_hosts = "127.0.0.1" ∷ "::1" ∷ "localhost" ∷ "::ffff:127.0.0.1" ∷ []

unfoldable pub any_set : HandlerEnvConfig → Bool
any_set env =
    is_some env.enrolled_at_override
    || is_some env.overlap_dir
    || is_some env.crl_poll_tick_ms
    || is_some env.escalation_timeout_ms
    || is_some env.responder_file_path

-- The first variable that is set.
active_name : HandlerEnvConfig → String
active_name env =
    if is_some env.enrolled_at_override
    then "SOA_HANDLER_ENROLLED_AT"
    else if is_some env.overlap_dir
    then "SOA_HANDLER_KEYPAIR_OVERLAP_DIR"
    else if is_some env.crl_poll_tick_ms
    then "RUNNER_HANDLER_CRL_POLL_TICK_MS"
    else if is_some env.escalation_timeout_ms
    then "RUNNER_HANDLER_ESCALATION_TIMEOUT_MS"
    else "SOA_HANDLER_ESCALATION_RESPONDER"

-- assertHandlerEnvListenerSafe, with `toLowerCase` as an argument; the error names the variable and
-- the host.
unfoldable pub assert_handler_env_listener_safe :
    (String → String) → HandlerEnvConfig → String → Result (String × String) (Unit {0})
unfolding any_set active_name
assert_handler_env_listener_safe to_lower env host =
    if not (any_set env)
    then ok tt
    else if includes loopback_hosts (to_lower host)
    then ok tt
    else err (active_name env, host)
