-- ===== src/Attestation/Pda/Soundness.antt =====
-- What a decision that passed the checks is known to satisfy.
use soa_harness_impl.Base.{
  ℕ, ◌+◌, ◌≤◌, String, ◌≡◌, ap, refl, true, false, not, Option, none, some, ltb, string_key, eq_iff,
  arith, option_or, subst, Option-cases, Bool-cases, inl, inr,
}
use soa_harness_impl.Base.Result.{Result, ok, err, ◌>>=◌, or_throw, OkThen, then-OkThen}
use soa_harness_impl.Attestation.Pda.{
  PdaFailureReason, schema_invalid, Header, Payload, PdaPlatform, VerifyPdaOptions, VerifiedPda,
  segments, same_text, in_list, non_empty, skew_ms, max_window_ms, check_instants, check_window,
  is_on_crl, shape_ok, check_signed, check_header, verify_pda, default_algs, expected_typ,
}

module _ {K : Type 0} (platform : PdaPlatform K) (opts : VerifyPdaOptions K) where
  -- The window is no wider than the bound, and the instant lies in it, up to the skew.
  abbrev pub InInstants : ℕ → ℕ → Type 0
  InInstants not_before not_after =
      (not_after ≤ not_before + max_window_ms platform opts)
      × (not_before ≤ opts.now + skew_ms platform opts)
      × (opts.now ≤ not_after + skew_ms platform opts)

  -- Where both ends of the window are there, they are dates.
  abbrev pub InWindow : Option String → Option String → Type 0
  InWindow none not_after = Unit
  InWindow (some b) none = Unit
  InWindow (some b) (some a) =
      (from : ℕ) × (to : ℕ) × (platform.parse_date b ≡ some from)
      × (platform.parse_date a ≡ some to)
      × InInstants from to

  instants-OkThen : (b a : ℕ) → OkThen (λ _. InInstants b a) (check_instants platform opts b a)
  unfolding check_instants
  instants-OkThen b a = elim (Bool-cases (not (ltb (b + max_window_ms platform opts) a))) [
    | inr n ↦ rw n tt
    | inl w ↦ elim (Bool-cases (not (ltb (opts.now + skew_ms platform opts) b))) [
      | inr n ↦ rw (w, n) tt
      | inl s ↦ elim (Bool-cases (not (ltb (a + skew_ms platform opts) opts.now))) [
        | inr n ↦ rw (w, s, n) tt
        | inl e ↦ rw (w, s, e) (ground (arith, w), ground (arith, s), ground (arith, e))
      ]
    ]
  ]

  or_no_date :
      (Q : Type 0) (o : Option ℕ) (rest : ℕ → Result PdaFailureReason (Unit {0}))
      → ((t : ℕ) → o ≡ some t → OkThen (λ _. Q) (rest t))
      → OkThen (λ _. Q) (or_throw o schema_invalid >>= rest)
  or_no_date Q none rest h = tt
  or_no_date Q (some t) rest h = h t refl

  weaken :
      (Q R : Type 0) (m : Result PdaFailureReason (Unit {0}))
      → (Q → R)
      → OkThen (λ _. Q) m
      → OkThen (λ _. R) m
  weaken Q R (ok u) f h = f h
  weaken Q R (err e) f h = tt

  window-OkThen :
      (b a : Option String) → OkThen (λ _. InWindow b a) (check_window platform opts b a)
  unfolding check_window
  window-OkThen none a = tt
  window-OkThen (some b) none = tt
  window-OkThen (some b) (some a) =
      or_no_date (InWindow (some b) (some a)) (platform.parse_date b)
        (λ from. or_throw (platform.parse_date a) schema_invalid >>= λ to.
          check_instants platform opts from to)
        (λ from p.
          or_no_date (InWindow (some b) (some a)) (platform.parse_date a)
            (λ to. check_instants platform opts from to)
            (λ to q.
              weaken (InInstants from to) (InWindow (some b) (some a))
                (check_instants platform opts from to) (λ h. (from, to, p, q, h))
                (instants-OkThen from to)))

  -- What is known of a verified decision.
  pub record IsVerified (v : VerifiedPda) : Type 0 where
    pub window : InWindow v.decision.not_before v.decision.not_after
    pub handler : v.decision.handler_kid ≡ some v.handler_kid
    pub header_kid : v.protected_header.kid ≡ some v.handler_kid
    pub typ : v.protected_header.typ ≡ some expected_typ
    pub off_crl : is_on_crl platform opts opts.is_revoked v.handler_kid ≡ false
    pub signed :
        (key : K) × (opts.resolve_verify_key v.handler_kid ≡ some key)
        × (platform.verifies opts.pda_jws key ≡ true)

  -- The facts that the header's checks establish before the signed part is looked at.
  record IsFramed (header : Header) (payload : Payload) (kid : String) : Type 0 where
    handler : payload.handler_kid ≡ some kid
    header_kid : header.kid ≡ some kid
    typ : header.typ ≡ some expected_typ

  signed-OkThen :
      (header : Header) (payload : Payload) (kid : String)
      → IsFramed header payload kid
      → OkThen IsVerified (check_signed platform opts header payload kid)
  unfolding check_signed
  signed-OkThen header payload kid f =
      then-OkThen (InWindow payload.not_before payload.not_after) IsVerified
        (check_window platform opts payload.not_before payload.not_after) _
        (window-OkThen payload.not_before payload.not_after)
        λ w. elim (Option-cases (opts.resolve_verify_key kid)) [
          | inl n ↦ rw n tt
          | inr (key, k) ↦ elim (Bool-cases (is_on_crl platform opts opts.is_revoked kid)) [
            | inl r ↦ rw (k, r) tt
            | inr r ↦ elim (Bool-cases (platform.verifies opts.pda_jws key)) [
              | inr n ↦ rw (k, r, n) tt
              | inl s ↦
                  rw (k, r, s)
                    (record {
                      window = w;
                      handler = f.handler;
                      header_kid = f.header_kid;
                      typ = f.typ;
                      off_crl = r;
                      signed = (key, k, s);
                    })
            ]
          ]
        ]

  same_text-eq : (o : Option String) (t : String) → same_text o t ≡ true → o ≡ some t
  unfolding same_text
  same_text-eq none t h = absurd (ground (arith, h))
  same_text-eq (some s) t h = ap some ((eq_iff s t).0 h)

  non_empty-eq : (o : Option String) (t : String) → non_empty o ≡ some t → o ≡ some t
  unfolding non_empty
  non_empty-eq none t h = h
  non_empty-eq (some s) t h = ground (arith, h)

  header-OkThen :
      (header : Header) (payload_b64 : String)
      → OkThen IsVerified (check_header platform opts header payload_b64)
  unfolding check_header
  header-OkThen header payload_b64 = elim (Bool-cases (same_text header.typ expected_typ)) [
    | inr n ↦ rw n tt
    | inl t ↦ elim (Bool-cases (in_list (option_or opts.allowed_algs default_algs) header.alg)) [
      | inr n ↦ rw (t, n) tt
      | inl a ↦ elim (Option-cases (non_empty header.kid)) [
        | inl n ↦ rw (t, a, n) tt
        | inr (kid, k) ↦ elim (Option-cases (platform.decode_payload payload_b64)) [
          | inl n ↦ rw (t, a, k, n) tt
          | inr (payload, p) ↦ elim (Bool-cases (shape_ok platform opts payload)) [
            | inr n ↦ rw (t, a, k, p, n) tt
            | inl s ↦ elim (Bool-cases (same_text payload.handler_kid kid)) [
              | inr n ↦ rw (t, a, k, p, s, n) tt
              | inl h ↦
                  rw (t, a, k, p, s, h)
                    (signed-OkThen header payload kid (record {
                      handler = same_text-eq payload.handler_kid kid h;
                      header_kid = non_empty-eq header.kid kid k;
                      typ = same_text-eq header.typ expected_typ t;
                    }))
            ]
          ]
        ]
      ]
    ]
  ]

  verify-OkThen : OkThen IsVerified (verify_pda platform opts)
  unfolding verify_pda
  verify-OkThen = elim (Option-cases (segments (platform.split_dots opts.pda_jws))) [
    | inl n ↦ rw n tt
    | inr (parts, p) ↦ elim (Option-cases (platform.decode_header parts.0)) [
      | inl n ↦ rw (p, n) tt
      | inr (header, h) ↦ rw (p, h) (header-OkThen header parts.1)
    ]
  ]

  -- A signed decision that is verified names one kid in its header and its payload, which is not on
  -- the revocation list, and the key that this kid resolves to verifies the text; where the
  -- payload has both ends of a window, they are dates, the window is no wider than the bound, and the
  -- instant lies in it, up to the skew.
  pub verify_pda-IsVerified : (v : VerifiedPda) → verify_pda platform opts ≡ ok v → IsVerified v
  verify_pda-IsVerified v h = subst (OkThen IsVerified) h verify-OkThen
