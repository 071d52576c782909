-- ===== src/Audit.antt =====
-- packages/runner/src/audit: the data that the hash chain and the sink share. An ISO timestamp is
-- the instant that it denotes.
pub mod Chain
pub mod Sink
use soa_harness_impl.Base.{ℕ, String, Bool, Option}
use soa_harness_impl.Base.Dict.{Dict}

-- A JSON value, as the body of a record holds it. `time` is a text that is an ISO timestamp.
mutual
  pub data Value : Type 0 where
    null : Value
    bool : Bool → Value
    num : ℕ → Value
    str : String → Value
    time : ℕ → Value
    arr : Items → Value
    obj : Members → Value

  pub data Items : Type 0 where
    nil : Items
    cons : Value → Items → Items

  pub data Members : Type 0 where
    end : Members
    member : String → Value → Members → Members

-- `AuditRecord`: its three core fields, and the extra fields of its body. `D` are the hashes.
pub record AuditRecord (D : Type 0) : Type 0 where
  pub extra : Dict String Value
  pub timestamp : ℕ
  pub prev_hash : D
  pub this_hash : D
