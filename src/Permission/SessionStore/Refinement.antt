-- ===== src/Permission/SessionStore/Refinement.antt =====
-- The store against its abstract view: for each session that is there, its bearer and its record.
use soa_harness_impl.Base.{
  ℕ, String, ◌≡◌, ap, ◌∙◌, refl, Bool, true, false, Option, none, some, List, [], ◌∷◌, ◌==◌,
  string_key, eq_iff, arith, option_or, if◌then◌else◌,
}
use soa_harness_impl.Base.Dict.{get, get-set, get-delete, get-empty}
use soa_harness_impl.Permission.SessionStore.{
  SessionRecord, CreateSessionInput, RegisterOptions, Enrolled, InMemorySessionStore, new,
  registered, minted, entry_of, revoke, get_record, register, create, hashes_to, validate,
}

-- What a session store promises: who may speak for which session.
abbrev pub Spec : Type 0
Spec = String → Option (String × SessionRecord)

-- A call that changes the store, with what it draws at random.
pub data StoreCall : Type 0 where
  register_call : (session_id bearer : String) → RegisterOptions → ℕ → StoreCall
  create_call : CreateSessionInput → (random_id random_bearer : String) → StoreCall
  revoke_call : String → StoreCall

-- The calls on the abstract view.
abbrev pub spec_call : Spec → StoreCall → Spec
spec_call spec (register_call session_id bearer opts now) j =
    if session_id == j then some (bearer, registered session_id opts now) else spec j
spec_call spec (create_call input random_id random_bearer) j =
    if random_id == j
    then some (option_or input.bearer random_bearer, minted random_id input)
    else spec j
spec_call spec (revoke_call session_id) j = if session_id == j then none else spec j

abbrev pub no_sessions : Spec
no_sessions j = none

abbrev pub spec_calls : Spec → List StoreCall → Spec
spec_calls spec [] = spec
spec_calls spec (c ∷ cs) = spec_calls (spec_call spec c) cs

abbrev pub allows : Option (String × SessionRecord) → String → Bool
allows none bearer = false
allows (some (b, r)) bearer = bearer == b

abbrev pub record_of : Option (String × SessionRecord) → Option SessionRecord
record_of none = none
record_of (some (b, r)) = some r

module _ (hash : String → String) where
  unfoldable pub store_call : InMemorySessionStore → StoreCall → InMemorySessionStore
  store_call s (register_call session_id bearer opts now) =
      register hash s session_id bearer opts now
  store_call s (create_call input random_id random_bearer) =
      (create hash s input random_id random_bearer).0
  store_call s (revoke_call session_id) = revoke s session_id

  unfoldable pub store_calls : InMemorySessionStore → List StoreCall → InMemorySessionStore
  store_calls s [] = s
  store_calls s (c ∷ cs) = store_calls (store_call s c) cs

  -- The entry that the store holds for what the abstract view has.
  abbrev image : Option (String × SessionRecord) → Option Enrolled
  image none = none
  image (some (b, r)) = some (record { enrolled = r; bearer_hash = hash b })

  abbrev pub Represents : InMemorySessionStore → Spec → Type 0
  Represents s spec = (j : String) → get s.records j ≡ image (spec j)

  image-if :
      (b : Bool) (o p : Option (String × SessionRecord))
      → (if b then image o else image p) ≡ image (if b then o else p)
  image-if true o p = refl
  image-if false o p = refl

  store_call-Represents :
      (s : InMemorySessionStore) (spec : Spec) (c : StoreCall)
      → Represents s spec
      → Represents (store_call s c) (spec_call spec c)
  unfolding store_call register create revoke
  store_call-Represents s spec (register_call i b opts now) h j =
      get-set s.records i j _
      ∙ rw (h j) (image-if (i == j) (some (b, registered i opts now)) (spec j))
  store_call-Represents s spec (create_call input i b) h j =
      get-set s.records i j _
      ∙ rw (h j) (image-if (i == j) (some (option_or input.bearer b, minted i input)) (spec j))
  store_call-Represents s spec (revoke_call i) h j =
      get-delete s.records i j ∙ rw (h j) (image-if (i == j) none (spec j))

  store_calls-Represents :
      (s : InMemorySessionStore) (spec : Spec) (cs : List StoreCall)
      → Represents s spec
      → Represents (store_calls s cs) (spec_calls spec cs)
  unfolding store_calls
  store_calls-Represents s spec [] h = h
  store_calls-Represents s spec (c ∷ cs) h =
      store_calls-Represents (store_call s c) (spec_call spec c) cs
        (store_call-Represents s spec c h)

  hashes_to-image :
      (injective : (a b : String) → hash a ≡ hash b → a ≡ b) (o : Option (String × SessionRecord))
      (bearer : String)
      → hashes_to hash bearer (image o) ≡ allows o bearer
  unfolding hashes_to
  hashes_to-image injective none bearer = refl
  hashes_to-image injective (some (b, r)) bearer = ground (
    arith,
    eq_iff (hash bearer) (hash b),
    eq_iff bearer b,
    injective bearer b,
    λ (e : bearer ≡ b). ap hash e,
  )

  entry_of-image : (o : Option (String × SessionRecord)) → entry_of (image o) ≡ record_of o
  unfolding entry_of
  entry_of-image none = refl
  entry_of-image (some (b, r)) = refl

  -- After any calls on a new store, if no two bearers have one hash: a bearer is valid for a session
  -- just when the last call for that session's id gave it this bearer, and the record looked up is
  -- the one that that call made; a revoked session has neither.
  pub store_calls-refines :
      (injective : (a b : String) → hash a ≡ hash b → a ≡ b) (cs : List StoreCall)
      (session_id bearer : String)
      → let s = store_calls new cs in
        let promised = spec_calls no_sessions cs session_id in
        (validate hash s session_id bearer ≡ allows promised bearer)
        × (get_record s session_id ≡ record_of promised)
  unfolding validate get_record new
  store_calls-refines injective cs session_id bearer =
      let h = store_calls-Represents new no_sessions cs (λ j. get-empty j) session_id in
      (
        ap (hashes_to hash bearer) h
            ∙ hashes_to-image injective (spec_calls no_sessions cs session_id) bearer,
        ap entry_of h ∙ entry_of-image (spec_calls no_sessions cs session_id),
      )
