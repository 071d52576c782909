-- ===== src/Attestation/HandlerKey/Lifecycle.antt =====
-- The life of a handler key: enrolled once, usable while young or within an overlap, and never again
-- once it is revoked.
use soa_harness_impl.Base.{
  ℕ, ◌+◌, ◌-◌, ◌*◌, ◌/◌, ◌<◌, String, ◌≡◌, ◌↔◌, refl, ◌∙◌, true, false, not, Option, none, some,
  List, [], ◌∷◌, ltb, string_key, eq_iff, arith, some-injective,
}
use soa_harness_impl.Base.Result.{Result, ok, err, is_ok}
use soa_harness_impl.Base.Dict
use soa_harness_impl.Base.Dict.{Dict, get-set, get-set_self, get-set_ne}
use soa_harness_impl.Attestation.HandlerKey.{
  HandlerKeyEntry, HandlerKeyRegistry, Revocation, EnrollError, day_ms, enroll, get, revoke,
  is_revoked, in_overlap, check_age, usable_entry, assert_usable, is_handler_algo,
  record_crl_refresh,
}

-- A call that changes the registry.
pub data RegistryCall : Type 0 where
  enroll_call : HandlerKeyEntry → RegistryCall
  revoke_call : (kid revoked_at reason : String) → RegistryCall
  refresh_call : String → RegistryCall

abbrev or_same : HandlerKeyRegistry → Result EnrollError HandlerKeyRegistry → HandlerKeyRegistry
or_same reg (ok next) = next
or_same reg (err e) = reg

-- A call that throws leaves the registry as it is.
unfoldable pub registry_call : HandlerKeyRegistry → RegistryCall → HandlerKeyRegistry
registry_call reg (enroll_call entry) = or_same reg (enroll reg entry)
registry_call reg (revoke_call kid revoked_at reason) = revoke reg kid revoked_at reason
registry_call reg (refresh_call now_iso) = record_crl_refresh reg now_iso

unfoldable pub registry_calls : HandlerKeyRegistry → List RegistryCall → HandlerKeyRegistry
unfolding registry_call
registry_calls reg [] = reg
registry_calls reg (c ∷ cs) = registry_calls (registry_call reg c) cs

-- What a call keeps: entries once enrolled, and revocations once made.
record Kept (reg next : HandlerKeyRegistry) : Type 0 where
  entry : (kid : String) (e : HandlerKeyEntry) → get reg kid ≡ some e → get next kid ≡ some e
  revocation : (kid : String) → is_revoked reg kid ≡ true → is_revoked next kid ≡ true
  bound : next.max_age_days ≡ reg.max_age_days

enroll-Kept :
    (reg : HandlerKeyRegistry) (new_entry : HandlerKeyEntry)
    → Kept reg (or_same reg (enroll reg new_entry))
unfolding enroll get is_revoked is_handler_algo
enroll-Kept reg new_entry = record {
  entry = λ kid e h.
      ground (arith, h, eq_iff new_entry.kid kid, get-set reg.by_kid new_entry.kid kid new_entry);
  revocation = λ kid h. ground (arith, h);
  bound = ground arith;
}

revoke-Kept : (reg : HandlerKeyRegistry) (k at reason : String) → Kept reg (revoke reg k at reason)
unfolding revoke get is_revoked
revoke-Kept reg k at reason = record {
  entry = λ kid e h. h;
  revocation = λ kid h. ground (
    arith,
    h,
    eq_iff k kid,
    get-set reg.revoked k kid (record { revoked_at = at; reason = reason }),
  );
  bound = refl;
}

refresh-Kept : (reg : HandlerKeyRegistry) (now : String) → Kept reg (record_crl_refresh reg now)
unfolding record_crl_refresh get is_revoked
refresh-Kept reg now = record { entry = λ kid e h. h; revocation = λ kid h. h; bound = refl }

registry_call-Kept : (reg : HandlerKeyRegistry) (c : RegistryCall) → Kept reg (registry_call reg c)
unfolding registry_call
registry_call-Kept reg (enroll_call entry) = enroll-Kept reg entry
registry_call-Kept reg (revoke_call kid at reason) = revoke-Kept reg kid at reason
registry_call-Kept reg (refresh_call now) = refresh-Kept reg now

registry_calls-Kept :
    (reg : HandlerKeyRegistry) (cs : List RegistryCall) → Kept reg (registry_calls reg cs)
unfolding registry_calls
registry_calls-Kept reg [] = record { entry = λ k e h. h; revocation = λ k h. h; bound = refl }
registry_calls-Kept reg (c ∷ cs) =
    let first = registry_call-Kept reg c in
    let rest = registry_calls-Kept (registry_call reg c) cs in
    record {
      entry = λ k e h. rest.entry k e (first.entry k e h);
      revocation = λ k h. rest.revocation k (first.revocation k h);
      bound = rest.bound ∙ first.bound;
    }

usable_entry-revoked :
    (parse_date : String → Option ℕ) (reg : HandlerKeyRegistry) (now : ℕ) (e : HandlerKeyEntry)
    (o : Option HandlerKeyEntry) (r : Option Revocation)
    → o ≡ some e
    → elim r [ none ↦ false | some v ↦ true ] ≡ true
    → is_ok (usable_entry parse_date reg now o r) ≡ false
unfolding usable_entry
usable_entry-revoked parse_date reg now e none r h v = absurd (ground (arith, h))
usable_entry-revoked parse_date reg now e (some f) none h v = absurd (ground (arith, v))
usable_entry-revoked parse_date reg now e (some f) (some r) h v = refl

revoke-revoked :
    (reg : HandlerKeyRegistry) (kid at reason : String)
    → is_revoked (revoke reg kid at reason) kid ≡ true
unfolding is_revoked revoke
revoke-revoked reg kid at reason =
    ground (arith, get-set_self reg.revoked kid (record { revoked_at = at; reason = reason }))

-- Once an enrolled key is revoked, it is refused at every later instant, whatever calls follow:
-- enrolling a key again does not bring it back.
pub revoke-final :
    (parse_date : String → Option ℕ) (reg : HandlerKeyRegistry) (entry : HandlerKeyEntry)
    (kid revoked_at reason : String) (cs : List RegistryCall) (now : ℕ)
    → get reg kid ≡ some entry
    → is_ok
        (assert_usable parse_date (registry_calls (revoke reg kid revoked_at reason) cs) kid now)
      ≡ false
unfolding assert_usable get is_revoked revoke
revoke-final parse_date reg entry kid revoked_at reason cs now h =
    let revoked_reg = revoke reg kid revoked_at reason in
    let kept = registry_calls-Kept revoked_reg cs in
    usable_entry-revoked parse_date (registry_calls revoked_reg cs) now entry _ _
      (kept.entry kid entry h) (kept.revocation kid (revoke-revoked reg kid revoked_at reason))

age-bound :
    (now enrolled max_age : ℕ)
    → (ltb max_age ((now - enrolled) / day_ms) ≡ false) ↔ (now < enrolled + (max_age + 1) * day_ms)
age-bound now enrolled max_age = ground arith

usable_entry-age :
    (parse_date : String → Option ℕ) (reg : HandlerKeyRegistry) (now enrolled : ℕ)
    (e : HandlerKeyEntry) (o : Option HandlerKeyEntry) (r : Option Revocation)
    → o ≡ some e
    → elim r [ none ↦ false | some v ↦ true ] ≡ false
    → in_overlap parse_date e.rotation_overlap_end now ≡ false
    → parse_date e.enrolled_at ≡ some enrolled
    → is_ok (usable_entry parse_date reg now o r)
      ≡ not (ltb reg.max_age_days ((now - enrolled) / day_ms))
unfolding usable_entry check_age
usable_entry-age parse_date reg now enrolled e none r h v n p = absurd (ground (arith, h))
usable_entry-age parse_date reg now enrolled e (some f) (some r) h v n p =
    absurd (ground (arith, v))
usable_entry-age parse_date reg now enrolled e (some f) none h v n p =
    rw (some-injective h, n, p) (ground arith)

-- A key that is enrolled with a date, not revoked and not within an overlap is usable just while
-- fewer than one more than the bound of whole days have passed.
pub assert_usable-age :
    (parse_date : String → Option ℕ) (reg : HandlerKeyRegistry) (entry : HandlerKeyEntry)
    (kid : String) (now enrolled : ℕ)
    → get reg kid ≡ some entry
    → is_revoked reg kid ≡ false
    → in_overlap parse_date entry.rotation_overlap_end now ≡ false
    → parse_date entry.enrolled_at ≡ some enrolled
    → (is_ok (assert_usable parse_date reg kid now) ≡ true)
      ↔ (now < enrolled + (reg.max_age_days + 1) * day_ms)
unfolding assert_usable get is_revoked revoke
assert_usable-age parse_date reg entry kid now enrolled h r o p =
    let found =
      usable_entry-age parse_date reg now enrolled entry (Dict.get reg.by_kid kid)
        (Dict.get reg.revoked kid) h r o p in
    ground (arith, found, age-bound now enrolled reg.max_age_days)
