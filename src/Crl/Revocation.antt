-- ===== src/Crl/Revocation.antt =====
-- What a refresh makes `check` answer.
use soa_harness_impl.Base.{
  ℕ, ◌≡◌, ◌≢◌, ◌∙◌, ap, subst, Bool-cases, inl, inr, String, Bool, false, ◌||◌, Option, none, some,
  List, [], ◌∷◌, arith, refl, string_key, ◌==◌, eq_iff, is_some,
}
use soa_harness_impl.Base.Dict.{get, set, empty, get-set, get-set_self, get-set_ne, get-empty, Dict}
use soa_harness_impl.Base.Result.{ok, ok-injective}
use soa_harness_impl.Crl.{
  Crl, CrlCache, CrlEntry, CrlRevokedKid, CrlFreshness, fresh, stale_but_valid, expired, found,
  check_entry, check, entry_freshness, anchor_freshness, revoked_set, refresh, RefreshError,
}

-- Does the list name this key?
pub lists : List CrlRevokedKid → String → Bool
lists [] kid = false
lists (entry ∷ rest) kid = entry.kid == kid || lists rest kid

revoked_set-lists :
    (kids : Dict String CrlRevokedKid) (l : List CrlRevokedKid) (kid : String)
    → is_some (get (revoked_set kids l) kid) ≡ (lists l kid || is_some (get kids kid))
unfolding revoked_set lists
revoked_set-lists kids [] kid = refl
revoked_set-lists kids (entry ∷ rest) kid = ground (
  arith,
  eq_iff entry.kid kid,
  revoked_set-lists (set kids entry.kid entry) rest kid,
  get-set kids entry.kid kid entry,
)

fetched : ℕ → Crl → CrlEntry
fetched now crl = record {
  crl = crl;
  fetched_at = now;
  revoked_kid_set = revoked_set empty crl.revoked_kids;
}

fetched-lists :
    (now : ℕ) (crl : Crl) (kid : String)
    → is_some (get (fetched now crl).revoked_kid_set kid) ≡ lists crl.revoked_kids kid
unfolding fetched
fetched-lists now crl kid =
    ground (arith, revoked_set-lists empty crl.revoked_kids kid, get-empty {V = CrlRevokedKid} kid)

refreshed : CrlCache → ℕ → String → Crl → CrlCache
unfolding fetched
refreshed c now anchor crl = record c { entries = set c.entries anchor (fetched now crl) }

refresh-eq-ok :
    (valid : Crl → Bool) (c d : CrlCache) (now : ℕ) (anchor : String) (crl : Crl)
    → refresh valid c now anchor (some crl) ≡ ok d
    → refreshed c now anchor crl ≡ d
unfolding refresh refreshed fetched
refresh-eq-ok valid c d now anchor crl h = elim (Bool-cases (valid crl)) [
  | inl v ↦ ok-injective {E = RefreshError} (rw v at h)
  | inr v ↦ ground (arith, v, h)
]

module _ (parse_date : String → Option ℕ) (valid : Crl → Bool) where
  found-revoked : (f : CrlFreshness) (e : Option CrlRevokedKid) → (found f e).revoked ≡ is_some e
  unfolding found
  found-revoked f none = refl
  found-revoked f (some e) = refl

  check_entry-revoked :
      (c : CrlCache) (now : ℕ) (kid : String) (e : CrlEntry)
      → entry_freshness parse_date c now (some e) ≢ expired
      → (check_entry parse_date c now kid (some e)).revoked ≡ is_some (get e.revoked_kid_set kid)
  unfolding check_entry entry_freshness
  check_entry-revoked c now kid e h = ground (
    arith,
    found-revoked fresh (get e.revoked_kid_set kid),
    found-revoked stale_but_valid (get e.revoked_kid_set kid),
  )

  check_entry-refreshed :
      (c : CrlCache) (now later : ℕ) (anchor kid : String) (crl : Crl) (e : Option CrlEntry)
      → check_entry parse_date (refreshed c now anchor crl) later kid e
        ≡ check_entry parse_date c later kid e
  unfolding check_entry refreshed
  check_entry-refreshed c now later anchor kid crl none = refl
  check_entry-refreshed c now later anchor kid crl (some e) = refl

  refreshed-check :
      (c : CrlCache) (now later : ℕ) (anchor kid : String) (crl : Crl)
      → anchor_freshness parse_date (refreshed c now anchor crl) later anchor ≢ expired
      → (check parse_date (refreshed c now anchor crl) later anchor kid).revoked
        ≡ lists crl.revoked_kids kid
  unfolding check anchor_freshness refreshed
  refreshed-check c now later anchor kid crl h =
      let self : get (refreshed c now anchor crl).entries anchor ≡ some (fetched now crl) =
        get-set_self c.entries anchor (fetched now crl) in
      ap (λ e. (check_entry parse_date (refreshed c now anchor crl) later kid e).revoked) self
      ∙ check_entry-revoked (refreshed c now anchor crl) later kid (fetched now crl) (
          subst (λ e. entry_freshness parse_date (refreshed c now anchor crl) later e ≢ expired)
            self h)
      ∙ fetched-lists now crl kid

  -- After a refresh, and until the list is stale beyond use, a key is revoked exactly when the
  -- fetched list names it.
  pub refresh-check :
      (c d : CrlCache) (now later : ℕ) (anchor kid : String) (crl : Crl)
      → refresh valid c now anchor (some crl) ≡ ok d
      → anchor_freshness parse_date d later anchor ≢ expired
      → (check parse_date d later anchor kid).revoked ≡ lists crl.revoked_kids kid
  refresh-check c d now later anchor kid crl r h =
      subst
        (λ d.
          anchor_freshness parse_date d later anchor ≢ expired
          → (check parse_date d later anchor kid).revoked ≡ lists crl.revoked_kids kid)
        (refresh-eq-ok valid c d now anchor crl r) (refreshed-check c now later anchor kid crl) h

  -- A refresh of one anchor leaves what is answered for every other anchor.
  pub refresh-check_ne :
      (c d : CrlCache) (now later : ℕ) (anchor other kid : String) (crl : Crl)
      → refresh valid c now anchor (some crl) ≡ ok d
      → anchor ≢ other
      → check parse_date d later other kid ≡ check parse_date c later other kid
  unfolding check refreshed
  refresh-check_ne c d now later anchor other kid crl r h =
      subst (λ d. check parse_date d later other kid ≡ check parse_date c later other kid)
        (refresh-eq-ok valid c d now anchor crl r)
        (ap (check_entry parse_date (refreshed c now anchor crl) later kid)
            (get-set_ne c.entries anchor other (fetched now crl) h)
          ∙ check_entry-refreshed c now later anchor kid crl (get c.entries other))
