-- ===== src/Audit/Chain.antt =====
-- packages/runner/src/audit/chain.ts: the hash-chained audit log. SHA-256 and the JCS serializer
-- are the argument `crypto`.
pub mod Integrity
pub mod Tampering
pub mod Trees
mod Tests
use soa_harness_impl.Base.{
  ℕ, suc, String, ◌≡◌, ◌≢◌, Bool, true, false, not, ◌&&◌, Option, none, some, List, [], ◌∷◌, ◌++◌,
  length, if◌then◌else◌, string_key,
}
use soa_harness_impl.Base.Dict
use soa_harness_impl.Base.Dict.{Dict}
use soa_harness_impl.Audit.{Value, str, time, AuditRecord}

-- A record without its `this_hash`: what is serialized and hashed.
pub record Unhashed (D : Type 0) : Type 0 where
  pub extra : Dict String Value
  pub timestamp : ℕ
  pub prev_hash : D

-- The hash of the texts `prev_hash` and canonical JSON, one after the other, and that JSON. The
-- laws are what the chain relies on: SHA-256 has no collisions on such pairs, whose texts are told
-- apart by the brace that starts the JSON, and no hash is the literal GENESIS.
pub record Crypto : Type 1 where
  pub Digest : Type 0
  pub Canonical : Type 0
  pub genesis : Digest
  pub jcs : Unhashed Digest → Canonical
  pub sha256 : Digest → Canonical → Digest
  pub sha256_left : (p q : Digest) (a b : Canonical) → sha256 p a ≡ sha256 q b → p ≡ q
  pub sha256_right : (p q : Digest) (a b : Canonical) → sha256 p a ≡ sha256 q b → a ≡ b
  pub sha256_genesis : (p : Digest) (a : Canonical) → sha256 p a ≢ genesis

pub data SinkMode : Type 0 where
  worm_in_memory : SinkMode

-- What names a record in the marker stream: its `id`, or else its hash.
pub data RecordId (D : Type 0) : Type 0 where
  id : String → RecordId D
  hash : D → RecordId D

pub record AuditChain (D : Type 0) : Type 0 where
  pub records : List (AuditRecord D)
  pub tail : D
  pub sink_mode : Option SinkMode
  pub append_done_markers : List (RecordId D)

abbrev pub unhashed : {D : Type 0} → AuditRecord D → Unhashed D
unhashed r = record { extra = r.extra; timestamp = r.timestamp; prev_hash = r.prev_hash }

is_worm : Option SinkMode → Bool
is_worm none = false
is_worm (some worm_in_memory) = true

-- `{ ...body, timestamp, prev_hash, this_hash }`: the core fields cover those of the body.
pub spread : Dict String Value → Dict String Value
spread body = Dict.delete (Dict.delete (Dict.delete body "timestamp") "prev_hash") "this_hash"

-- The stamp of a WORM sink, where the body brings none.
pub stamp : Option SinkMode → ℕ → Dict String Value → Dict String Value
unfolding is_worm
stamp mode now body =
    if is_worm mode && not (Dict.has body "sink_timestamp")
    then Dict.set body "sink_timestamp" (time now)
    else body

unfoldable pub record_id_of : {D : Type 0} → Option Value → D → RecordId D
record_id_of (some (str s)) h = id s
record_id_of _ h = hash h

module _ (crypto : Crypto) where
  open crypto use {Digest, genesis, jcs, sha256}

  -- new AuditChain(now, opts)
  pub new : Option SinkMode → AuditChain Digest
  new mode = record { records = []; tail = genesis; sink_mode = mode; append_done_markers = [] }

  -- The record that `append` makes of a body at an instant.
  pub draft : AuditChain Digest → Dict String Value → ℕ → AuditRecord Digest
  unfolding spread stamp
  draft chain body now =
      let fields = stamp chain.sink_mode now (spread body) in
      record {
        extra = fields;
        timestamp = now;
        prev_hash = chain.tail;
        this_hash =
            sha256 chain.tail
              (jcs (record { extra = fields; timestamp = now; prev_hash = chain.tail }));
      }

  -- append
  pub append : AuditChain Digest → Dict String Value → ℕ → AuditChain Digest × AuditRecord Digest
  unfolding draft record_id_of
  append chain body now =
      let r = draft chain body now in
      (
        record chain {
          records = chain.records ++ r ∷ [];
          tail = r.this_hash;
          append_done_markers =
              chain.append_done_markers ++ record_id_of (Dict.get r.extra "id") r.this_hash ∷ [];
        },
        r,
      )

module _ {D : Type 0} where
  pub is_worm_sink : AuditChain D → Bool
  unfolding is_worm
  is_worm_sink chain = is_worm chain.sink_mode

  pub record_count : AuditChain D → ℕ
  record_count chain = length chain.records

  last_timestamp : List (AuditRecord D) → Option ℕ
  last_timestamp [] = none
  last_timestamp (r ∷ []) = some r.timestamp
  last_timestamp (r ∷ s ∷ rs) = last_timestamp (s ∷ rs)

  pub last_record_timestamp : AuditChain D → Option ℕ
  unfolding last_timestamp
  last_record_timestamp chain = last_timestamp chain.records
