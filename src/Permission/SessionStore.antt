-- ===== src/Permission/SessionStore.antt =====
-- packages/runner/src/permission/session-store.ts: the in-memory store of sessions and of the hashes
-- of their bearers. SHA-256 is the argument `hash`; the random session id and bearer are arguments.
pub mod Refinement
mod Tests
use soa_harness_impl.Base.{
  ℕ, ◌+◌, ◌*◌, String, Bool, true, false, ◌||◌, Option, none, some, List, [], ◌∷◌, ◌==◌, string_key,
  option_or,
}
use soa_harness_impl.Base.Dict
use soa_harness_impl.Base.Dict.{Dict}
use soa_harness_impl.Permission.{Capability, workspace_write}

pub record SessionRecord : Type 0 where
  pub session_id : String
  pub active_mode : Capability
  pub user_sub : String
  pub created_at : ℕ
  pub expires_at : ℕ
  pub can_decide : Bool
  pub billing_tag : Option String

pub record CreateSessionInput : Type 0 where
  pub active_mode : Capability
  pub user_sub : String
  pub ttl_seconds : ℕ
  pub now : ℕ
  pub bearer : Option String
  pub can_decide : Option Bool
  pub billing_tag : Option String

pub record CreatedSession : Type 0 where
  pub session_id : String
  pub session_bearer : String
  pub session_record : SessionRecord

-- The options of `register`.
pub record RegisterOptions : Type 0 where
  pub active_mode : Option Capability
  pub user_sub : Option String
  pub expires_at : Option ℕ
  pub created_at : Option ℕ
  pub can_decide : Option Bool
  pub billing_tag : Option String

-- `{ rec, bearerHash }`
pub record Enrolled : Type 0 where
  pub enrolled : SessionRecord
  pub bearer_hash : String

pub record InMemorySessionStore : Type 0 where
  pub records : Dict String Enrolled

unfoldable pub new : InMemorySessionStore
new = record { records = Dict.empty }

pub registered : String → RegisterOptions → ℕ → SessionRecord
registered session_id opts now =
    let created_at = option_or opts.created_at now in
    record {
      session_id = session_id;
      active_mode = option_or opts.active_mode workspace_write;
      user_sub = option_or opts.user_sub "test-user";
      created_at = created_at;
      expires_at = option_or opts.expires_at (created_at + 60 * 60 * 1000);
      can_decide = option_or opts.can_decide false;
      billing_tag = opts.billing_tag;
    }

pub minted : String → CreateSessionInput → SessionRecord
minted session_id input = record {
  session_id = session_id;
  active_mode = input.active_mode;
  user_sub = input.user_sub;
  created_at = input.now;
  expires_at = input.now + input.ttl_seconds * 1000;
  can_decide = option_or input.can_decide false;
  billing_tag = input.billing_tag;
}

unfoldable pub entry_of : Option Enrolled → Option SessionRecord
entry_of none = none
entry_of (some e) = some e.enrolled

unfoldable pub has_hash : String → List Enrolled → Bool
has_hash probe [] = false
has_hash probe (e ∷ es) = e.bearer_hash == probe || has_hash probe es

unfoldable pub revoke : InMemorySessionStore → String → InMemorySessionStore
revoke s session_id = record { records = Dict.delete s.records session_id }

unfoldable pub exists : InMemorySessionStore → String → Bool
exists s session_id = Dict.has s.records session_id

unfoldable pub get_record : InMemorySessionStore → String → Option SessionRecord
unfolding entry_of
get_record s session_id = entry_of (Dict.get s.records session_id)

module _ (hash : String → String) where
  pub register : InMemorySessionStore → String → String → RegisterOptions → ℕ → InMemorySessionStore
  unfolding registered
  register s session_id bearer opts now = record {
    records =
        Dict.set s.records session_id
          (record { enrolled = registered session_id opts now; bearer_hash = hash bearer });
  }

  -- create
  unfoldable pub create :
      InMemorySessionStore
      → CreateSessionInput
      → (random_id random_bearer : String) → InMemorySessionStore × CreatedSession
  unfolding minted
  create s input random_id random_bearer =
      let session_bearer = option_or input.bearer random_bearer in
      (
        record {
          records =
              Dict.set s.records random_id
                (record { enrolled = minted random_id input; bearer_hash = hash session_bearer });
        },
        record {
          session_id = random_id;
          session_bearer = session_bearer;
          session_record = minted random_id input;
        },
      )

  unfoldable pub hashes_to : String → Option Enrolled → Bool
  hashes_to bearer none = false
  hashes_to bearer (some e) = hash bearer == e.bearer_hash

  -- validate
  unfoldable pub validate : InMemorySessionStore → String → String → Bool
  unfolding hashes_to
  validate s session_id bearer = hashes_to bearer (Dict.get s.records session_id)

  -- anySession
  unfoldable pub any_session : InMemorySessionStore → String → Bool
  unfolding has_hash
  any_session s bearer = has_hash (hash bearer) (Dict.values s.records)
