-- ===== src/Crl/Freshness.antt =====
-- The freshness of a cached list: the boot probe and the check agree, and age only makes it worse.
use soa_harness_impl.Base.{ℕ, ◌≤◌, ◌≡◌, String, true, Option, none, some, arith, refl, string_key}
use soa_harness_impl.Base.Dict.{get}
use soa_harness_impl.Crl.{
  CrlCache, CrlEntry, CrlFreshness, fresh, stale_but_valid, expired, failed, past, found,
  check_entry, check, entry_freshness, anchor_freshness,
}

-- How stale: fresh 0, stale but valid 1, expired 2.
abbrev pub rank : CrlFreshness → ℕ
rank fresh = 0
rank stale_but_valid = 1
rank expired = 2

module _ (parse_date : String → Option ℕ) where
  found-freshness : (f : CrlFreshness) (e : Option _) → (found f e).freshness ≡ f
  unfolding found
  found-freshness f none = refl
  found-freshness f (some e) = refl

  check_entry-freshness :
      (c : CrlCache) (now : ℕ) (kid : String) (e : Option CrlEntry)
      → (check_entry parse_date c now kid e).freshness ≡ entry_freshness parse_date c now e
  unfolding check_entry entry_freshness failed
  check_entry-freshness c now kid none = refl
  check_entry-freshness c now kid (some e) = ground (
    arith,
    found-freshness fresh (get e.revoked_kid_set kid),
    found-freshness stale_but_valid (get e.revoked_kid_set kid),
  )

  -- The check of a key reports the same freshness as the boot probe of its anchor.
  pub check-freshness :
      (c : CrlCache) (now : ℕ) (anchor kid : String)
      → (check parse_date c now anchor kid).freshness ≡ anchor_freshness parse_date c now anchor
  unfolding check anchor_freshness
  check-freshness c now anchor kid = check_entry-freshness c now kid (get c.entries anchor)

  past-later :
      (d : Option ℕ) (now later : ℕ) → now ≤ later → past d now ≡ true → past d later ≡ true
  unfolding past
  past-later none now later h p = p
  past-later (some d) now later h p = ground arith

  entry-ages :
      (c : CrlCache) (now later : ℕ) (e : Option CrlEntry)
      → now ≤ later
      → rank (entry_freshness parse_date c now e) ≤ rank (entry_freshness parse_date c later e)
  unfolding entry_freshness
  entry-ages c now later none h = omega arith
  entry-ages c now later (some e) h =
      ground (arith, past-later (parse_date e.crl.not_after) now later h)

  -- Without a refresh, a list never becomes less stale as time goes on.
  pub anchor_freshness-ages :
      (c : CrlCache) (now later : ℕ) (anchor : String)
      → now ≤ later
      → rank (anchor_freshness parse_date c now anchor)
        ≤ rank (anchor_freshness parse_date c later anchor)
  unfolding anchor_freshness
  anchor_freshness-ages c now later anchor h = entry-ages c now later (get c.entries anchor) h
