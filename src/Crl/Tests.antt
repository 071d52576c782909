-- ===== src/Crl/Tests.antt =====
-- Inputs at which the theorems of the revocation lists apply.
use soa_harness_impl.Base.{ℕ, ◌≡◌, refl, String, Bool, true, Option, none, [], ◌∷◌, string_key}
use soa_harness_impl.Base.Dict
use soa_harness_impl.Crl.{
  Crl, CrlRevokedKid, compromise, CrlCache, new, refresh, check, anchor_freshness, entry_freshness,
  past, revoked_set,
}
use soa_harness_impl.Crl.Revocation.{lists, refresh-check}

abbrev revoked_kid : CrlRevokedKid
revoked_kid = record { kid = "k1"; revoked_at = "2026"; reason = compromise }

abbrev listing : Crl
listing = record {
  issuer = "ca";
  issued_at = "now";
  not_after = "later";
  revoked_kids = revoked_kid ∷ [];
}

abbrev valid_for_ever : String → Option ℕ
valid_for_ever text = none

abbrev accepts : Crl → Bool
accepts crl = true

abbrev cached : CrlCache
cached = record {
  refresh_interval_ms = 10;
  stale_ceiling_ms = 20;
  entries = record {
    entries =
        (
          "anchor",
          record {
            crl = listing;
            fetched_at = 100;
            revoked_kid_set = record { entries = ("k1", revoked_kid) ∷ [] };
          },
        )
        ∷ [];
  };
}

refresh-check_example :
    (check valid_for_ever cached 115 "anchor" "k1").revoked ≡ lists (revoked_kid ∷ []) "k1"
unfolding new refresh revoked_set anchor_freshness entry_freshness past Dict.get Dict.set
refresh-check_example =
    refresh-check valid_for_ever accepts (new 10 20) cached 100 115 "anchor" "k1" listing refl
      (λ e. cc)
