-- ===== src/Audit/Chain/Tampering.antt =====
-- Linked logs that share a tail hash.
use mathlib.Core.List.{reverse, reverse_aux, reverse-reverse}
use soa_harness_impl.Base.{ℕ, String, Option, ◌≡◌, refl, sym, ◌∙◌, subst, subst₂, List, [], ◌∷◌}
use soa_harness_impl.Base.Dict.{Dict}
use soa_harness_impl.Audit.{AuditRecord, Value}
use soa_harness_impl.Audit.Chain.{Crypto, unhashed, AuditChain, SinkMode, new}
use soa_harness_impl.Audit.Chain.Integrity.{Linked, append_all, append_all-new-Linked}

module _ (crypto : Crypto) where
  open crypto use {Digest, genesis, jcs, sha256, sha256_left, sha256_right, sha256_genesis}

  -- The same canonical JSON and the same hash, record by record.
  abbrev pub SameLog : List (AuditRecord Digest) → List (AuditRecord Digest) → Type 0
  SameLog [] [] = Unit
  SameLog [] (s ∷ ss) = ⊥
  SameLog (r ∷ rs) [] = ⊥
  SameLog (r ∷ rs) (s ∷ ss) =
      (jcs (unhashed r) ≡ jcs (unhashed s)) × (r.this_hash ≡ s.this_hash) × SameLog rs ss

  -- The links read from the newest record back to GENESIS.
  abbrev LinkedBack : List (AuditRecord Digest) → Digest → Type 0
  LinkedBack [] to = to ≡ genesis
  LinkedBack (r ∷ rs) to =
      (to ≡ r.this_hash)
      × (r.this_hash ≡ sha256 r.prev_hash (jcs (unhashed r)))
      × LinkedBack rs r.prev_hash

  LinkedBack-reverse_aux :
      (from to : Digest) (rs back : List (AuditRecord Digest))
      → Linked crypto from rs to
      → LinkedBack back from
      → LinkedBack (reverse_aux rs back) to
  LinkedBack-reverse_aux from to [] back h b = subst (LinkedBack back) h b
  LinkedBack-reverse_aux from to (r ∷ rs) back h b =
      LinkedBack-reverse_aux r.this_hash to rs (r ∷ back) h.2
        (refl, h.1, subst (LinkedBack back) (sym h.0) b)

  SameLog-reverse_aux :
      (rs ss ts us : List (AuditRecord Digest))
      → SameLog rs ss
      → SameLog ts us
      → SameLog (reverse_aux rs ts) (reverse_aux ss us)
  SameLog-reverse_aux [] [] ts us h k = k
  SameLog-reverse_aux [] (s ∷ ss) ts us h k = absurd h
  SameLog-reverse_aux (r ∷ rs) [] ts us h k = absurd h
  SameLog-reverse_aux (r ∷ rs) (s ∷ ss) ts us h k =
      SameLog-reverse_aux rs ss (r ∷ ts) (s ∷ us) h.2 (h.0, h.1, k)

  LinkedBack-SameLog :
      (to to' : Digest) (rs ss : List (AuditRecord Digest))
      → to ≡ to'
      → LinkedBack rs to
      → LinkedBack ss to'
      → SameLog rs ss
  LinkedBack-SameLog to to' [] [] e h k = tt
  LinkedBack-SameLog to to' [] (s ∷ ss) e h k =
      sha256_genesis s.prev_hash (jcs (unhashed s)) (sym k.1 ∙ sym k.0 ∙ sym e ∙ h)
  LinkedBack-SameLog to to' (r ∷ rs) [] e h k =
      sha256_genesis r.prev_hash (jcs (unhashed r)) (sym h.1 ∙ sym h.0 ∙ e ∙ k)
  LinkedBack-SameLog to to' (r ∷ rs) (s ∷ ss) e h k =
      let same = sym h.1 ∙ sym h.0 ∙ e ∙ k.0 ∙ k.1 in
      (
        sha256_right _ _ _ _ same,
        sym h.0 ∙ e ∙ k.0,
        LinkedBack-SameLog r.prev_hash s.prev_hash rs ss (sha256_left _ _ _ _ same) h.2 k.2,
      )

  -- Tampering shows in the tail: two logs that are linked from GENESIS to the same tail hash have
  -- the same length and, record by record, the same hash and the same canonical JSON.
  pub Linked-SameLog :
      (to : Digest) (rs ss : List (AuditRecord Digest))
      → Linked crypto genesis rs to
      → Linked crypto genesis ss to
      → SameLog rs ss
  Linked-SameLog to rs ss h k =
      let back =
        LinkedBack-SameLog to to (reverse rs) (reverse ss) refl
          (LinkedBack-reverse_aux genesis to rs [] h refl)
          (LinkedBack-reverse_aux genesis to ss [] k refl) in
      subst₂ SameLog (reverse-reverse rs) (reverse-reverse ss)
        (SameLog-reverse_aux (reverse rs) (reverse ss) [] [] back tt)

  -- A log that is linked from GENESIS to the tail hash of a chain that was built by appends has,
  -- record by record, the hashes and the canonical JSON of that chain.
  pub append_all-SameLog :
      (mode : Option SinkMode) (calls : List (Dict String Value × ℕ))
      (log : List (AuditRecord Digest))
      → Linked crypto genesis log (append_all crypto (new crypto mode) calls).tail
      → SameLog (append_all crypto (new crypto mode) calls).records log
  append_all-SameLog mode calls log h =
      let chain : AuditChain Digest = append_all crypto (new crypto mode) calls in
      Linked-SameLog chain.tail chain.records log (append_all-new-Linked crypto mode calls) h
