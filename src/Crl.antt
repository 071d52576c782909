-- ===== src/Crl.antt =====
-- packages/runner/src/crl/types.ts and cache.ts: the cached revocation lists of the trust anchors.
-- Times are milliseconds. An age is a difference of times that stops at 0; the source's may be
-- negative, and then compares with the two limits as 0 does. `Date` parsing is the argument
-- `parse_date`, with none for an invalid date, and the schema's validator is `valid`.
pub mod Freshness
pub mod Revocation
mod Tests
use soa_harness_impl.Base.{
  ℕ, ◌-◌, String, Bool, true, false, not, Option, none, some, List, [], ◌∷◌, leb, ltb,
  if◌then◌else◌, string_key,
}
use soa_harness_impl.Base.Dict.{Dict, get, set, delete, empty}
use soa_harness_impl.Base.Result.{Result, ok, err}

pub data RevocationReason : Type 0 where
  compromise rotation administrative unspecified : RevocationReason

pub record CrlRevokedKid : Type 0 where
  pub kid : String
  pub revoked_at : String
  pub reason : RevocationReason

pub record Crl : Type 0 where
  pub issuer : String
  pub issued_at : String
  pub not_after : String
  pub revoked_kids : List CrlRevokedKid

pub data CrlFreshness : Type 0 where
  fresh stale_but_valid expired : CrlFreshness

pub data FailureReason : Type 0 where
  crl_expired crl_unreachable crl_missing : FailureReason

pub record CrlCheckOutcome : Type 0 where
  pub freshness : CrlFreshness
  pub revoked : Bool
  pub revoked_entry : Option CrlRevokedKid
  pub failure_reason : Option FailureReason

pub record CrlEntry : Type 0 where
  pub crl : Crl
  pub fetched_at : ℕ
  pub revoked_kid_set : Dict String CrlRevokedKid

pub record CrlCache : Type 0 where
  pub refresh_interval_ms : ℕ
  pub stale_ceiling_ms : ℕ
  pub entries : Dict String CrlEntry

-- What `refresh` throws: the fetcher's own error, or an invalid shape.
pub data RefreshError : Type 0 where
  fetch_failed schema_violation : RefreshError

pub new : ℕ → ℕ → CrlCache
new refresh_interval_ms stale_ceiling_ms = record {
  refresh_interval_ms = refresh_interval_ms;
  stale_ceiling_ms = stale_ceiling_ms;
  entries = empty;
}

pub revoked_set : Dict String CrlRevokedKid → List CrlRevokedKid → Dict String CrlRevokedKid
revoked_set kids [] = kids
revoked_set kids (entry ∷ rest) = revoked_set (set kids entry.kid entry) rest

-- `fetched` is what the fetcher returned, with none where it threw.
pub refresh :
    (valid : Crl → Bool) → CrlCache → (now : ℕ) → String → Option Crl → Result RefreshError CrlCache
unfolding revoked_set
refresh valid c now anchor none = err fetch_failed
refresh valid c now anchor (some crl) =
    if not (valid crl)
    then err schema_violation
    else ok (record c {
      entries = set c.entries anchor (record {
        crl = crl;
        fetched_at = now;
        revoked_kid_set = revoked_set empty crl.revoked_kids;
      });
    })

failed : FailureReason → CrlCheckOutcome
failed why = record {
  freshness = expired;
  revoked = false;
  revoked_entry = none;
  failure_reason = some why;
}

past : Option ℕ → ℕ → Bool
past none now = false
past (some not_after) now = leb not_after now

-- The outcome within the limits: revoked by this entry, or not revoked.
found : CrlFreshness → Option CrlRevokedKid → CrlCheckOutcome
found freshness none = record {
  freshness = freshness;
  revoked = false;
  revoked_entry = none;
  failure_reason = none;
}
found freshness (some entry) = record {
  freshness = freshness;
  revoked = true;
  revoked_entry = some entry;
  failure_reason = none;
}

module _ (parse_date : String → Option ℕ) where
  check_entry : CrlCache → ℕ → String → Option CrlEntry → CrlCheckOutcome
  unfolding failed past found
  check_entry c now kid none = failed crl_missing
  check_entry c now kid (some entry) =
      let age = now - entry.fetched_at in
      if past (parse_date entry.crl.not_after) now
      then failed crl_expired
      else if ltb c.stale_ceiling_ms age
      then failed crl_unreachable
      else found (if leb age c.refresh_interval_ms then fresh else stale_but_valid)
          (get entry.revoked_kid_set kid)

  pub check : CrlCache → ℕ → String → String → CrlCheckOutcome
  unfolding check_entry
  check c now anchor kid = check_entry c now kid (get c.entries anchor)

  entry_freshness : CrlCache → ℕ → Option CrlEntry → CrlFreshness
  unfolding past
  entry_freshness c now none = expired
  entry_freshness c now (some entry) =
      let age = now - entry.fetched_at in
      if past (parse_date entry.crl.not_after) now
      then expired
      else if ltb c.stale_ceiling_ms age
      then expired
      else if leb age c.refresh_interval_ms
      then fresh
      else stale_but_valid

  pub anchor_freshness : CrlCache → ℕ → String → CrlFreshness
  unfolding entry_freshness
  anchor_freshness c now anchor = entry_freshness c now (get c.entries anchor)

pub evict : CrlCache → String → CrlCache
evict c anchor = record c { entries = delete c.entries anchor }
