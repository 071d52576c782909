-- ===== src/Audit/Chain/Integrity.antt =====
-- A chain that was only appended to passes an independent check of its hashes.
use soa_harness_impl.Base.{
  ap, eq_iff, ℕ, String, ◌≡◌, ◌≢◌, refl, sym, ◌∙◌, Option, none, some, List, [], ◌∷◌, ◌++◌, arith,
  string_key,
}
use soa_harness_impl.Base.Dict
use soa_harness_impl.Base.Dict.{Dict, get-set_ne, get-set_self, get-delete_ne}
use soa_harness_impl.Audit.{Value, time, AuditRecord}
use soa_harness_impl.Audit.Chain.{
  Crypto, SinkMode, worm_in_memory, AuditChain, unhashed, spread, stamp, new, draft, append,
}

module _ (crypto : Crypto) where
  open crypto use {Digest, genesis, jcs, sha256}

  -- Records linked from one hash to another: each names its predecessor's hash, and carries the
  -- hash of that and of itself.
  abbrev pub Linked : Digest → List (AuditRecord Digest) → Digest → Type 0
  Linked from [] to = from ≡ to
  Linked from (r ∷ rs) to =
      (r.prev_hash ≡ from)
      × (r.this_hash ≡ sha256 r.prev_hash (jcs (unhashed r)))
      × Linked r.this_hash rs to

  Linked-append :
      (from to : Digest) (rs : List (AuditRecord Digest)) (r : AuditRecord Digest)
      → Linked from rs to
      → r.prev_hash ≡ to
      → r.this_hash ≡ sha256 r.prev_hash (jcs (unhashed r))
      → Linked from (rs ++ r ∷ []) r.this_hash
  Linked-append from to [] r h p q = (p ∙ sym h, q, refl)
  Linked-append from to (x ∷ rs) r h p q = (h.0, h.1, Linked-append x.this_hash to rs r h.2 p q)

  pub append-Linked :
      (chain : AuditChain Digest) (body : Dict String Value) (now : ℕ)
      → Linked genesis chain.records chain.tail
      → let next = (append crypto chain body now).0 in Linked genesis next.records next.tail
  unfolding append
  append-Linked chain body now h =
      Linked-append genesis chain.tail chain.records (draft crypto chain body now) h refl refl

  pub append_all : AuditChain Digest → List (Dict String Value × ℕ) → AuditChain Digest
  append_all chain [] = chain
  append_all chain ((body, now) ∷ rest) = append_all (append crypto chain body now).0 rest

  append_all-Linked :
      (chain : AuditChain Digest) (calls : List (Dict String Value × ℕ))
      → Linked genesis chain.records chain.tail
      → let next = append_all chain calls in Linked genesis next.records next.tail
  unfolding append_all
  append_all-Linked chain [] h = h
  append_all-Linked chain ((body, now) ∷ rest) h =
      append_all-Linked (append crypto chain body now).0 rest (append-Linked chain body now h)

  -- After any appends to a new chain, its records are linked by their hashes from GENESIS to the
  -- tail hash.
  pub append_all-new-Linked :
      (mode : Option SinkMode) (calls : List (Dict String Value × ℕ))
      → let chain = append_all (new crypto mode) calls in Linked genesis chain.records chain.tail
  append_all-new-Linked mode calls = append_all-Linked (new crypto mode) calls (unfold new in refl)

  -- The core keys of a record, which a body cannot set.
  abbrev pub IsExtra : String → Type 0
  IsExtra k = (k ≢ "timestamp") × (k ≢ "prev_hash") × (k ≢ "this_hash")

  sink_timestamp-IsExtra : IsExtra "sink_timestamp"
  sink_timestamp-IsExtra = (
    ground (arith, eq_iff "sink_timestamp" "timestamp"),
    ground (arith, eq_iff "sink_timestamp" "prev_hash"),
    ground (arith, eq_iff "sink_timestamp" "this_hash"),
  )

  spread-get :
      (body : Dict String Value) (k : String)
      → IsExtra k
      → Dict.get (spread body) k ≡ Dict.get body k
  unfolding spread
  spread-get body k (p, q, r) =
      get-delete_ne _ "this_hash" k (λ e. r (sym e))
      ∙ get-delete_ne _ "prev_hash" k (λ e. q (sym e))
      ∙ get-delete_ne body "timestamp" k (λ e. p (sym e))

  stamp-get :
      (mode : Option SinkMode) (now : ℕ) (body : Dict String Value) (k : String)
      → k ≢ "sink_timestamp"
      → Dict.get (stamp mode now body) k ≡ Dict.get body k
  unfolding stamp
  stamp-get mode now body k ne =
      ground (arith, get-set_ne body "sink_timestamp" k (time now) (λ e. ne (sym e)))

  pub stamped : Option Value → ℕ → Option Value
  stamped none now = some (time now)
  stamped (some v) now = some v

  stamp-worm :
      (now : ℕ) (body : Dict String Value)
      → Dict.get (stamp (some worm_in_memory) now body) "sink_timestamp"
        ≡ stamped (Dict.get body "sink_timestamp") now
  unfolding stamp stamped
  stamp-worm now body = ground (arith, get-set_self body "sink_timestamp" (time now))

  -- An append adds one record, at the end, stamped with the instant; the record keeps every field
  -- of the body but the core fields and `sink_timestamp`; and the new tail is the record's hash.
  pub append_lem :
      (chain : AuditChain Digest) (body : Dict String Value) (now : ℕ) (k : String)
      → IsExtra k
      → k ≢ "sink_timestamp"
      → let (next, r) = append crypto chain body now in
        (next.records ≡ chain.records ++ r ∷ [])
        × (next.tail ≡ r.this_hash)
        × (r.timestamp ≡ now)
        × (Dict.get r.extra k ≡ Dict.get body k)
  unfolding append
  append_lem chain body now k extra ne =
      (refl, refl, refl, stamp-get chain.sink_mode now (spread body) k ne ∙ spread-get body k extra)

  -- A WORM sink keeps the `sink_timestamp` of the body, and stamps a body without one with the
  -- instant of the append.
  pub append_worm :
      (chain : AuditChain Digest) (body : Dict String Value) (now : ℕ)
      → chain.sink_mode ≡ some worm_in_memory
      → Dict.get (append crypto chain body now).1.extra "sink_timestamp"
        ≡ stamped (Dict.get body "sink_timestamp") now
  unfolding append
  append_worm chain body now mode = rw mode (
      stamp-worm now (spread body)
      ∙ ap (λ v. stamped v now) (spread-get body "sink_timestamp" sink_timestamp-IsExtra))
