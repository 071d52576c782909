-- ===== src/Permission/SessionStore/Tests.antt =====
-- Runs of the session store, and inputs at which its theorems apply.
use soa_harness_impl.Base.{◌≡◌, refl, String, Bool, true, false, none, some, List, [], ◌∷◌, Option}
use soa_harness_impl.Permission.{danger_full_access}
use soa_harness_impl.Permission.SessionStore.{
  CreateSessionInput, SessionRecord, InMemorySessionStore, new, validate, get_record, any_session,
}
use soa_harness_impl.Permission.SessionStore.Refinement.{
  StoreCall, create_call, store_call, revoke_call, no_sessions, spec_calls, allows, record_of,
  store_calls, store_calls-refines,
}

abbrev id : String → String
id s = s

abbrev wanted : CreateSessionInput
wanted = record {
  active_mode = danger_full_access;
  user_sub = "alice";
  ttl_seconds = 60;
  now = 1000;
  bearer = none;
  can_decide = some true;
  billing_tag = none;
}

abbrev calls : List StoreCall
calls =
    create_call wanted "ses_a" "bearer_a"
    ∷ create_call wanted "ses_b" "bearer_b"
    ∷ revoke_call "ses_a"
    ∷ []

validate_revoked : validate id (store_calls id new calls) "ses_a" "bearer_a" ≡ false
unfolding validate store_calls store_call new soa_harness_impl.Base.Dict.get
    soa_harness_impl.Permission.SessionStore.revoke soa_harness_impl.Base.Dict.delete
    soa_harness_impl.Permission.SessionStore.create soa_harness_impl.Base.Dict.set
validate_revoked = refl

validate_live : validate id (store_calls id new calls) "ses_b" "bearer_b" ≡ true
unfolding validate store_calls store_call new soa_harness_impl.Base.Dict.get
    soa_harness_impl.Permission.SessionStore.revoke soa_harness_impl.Base.Dict.delete
    soa_harness_impl.Permission.SessionStore.create soa_harness_impl.Base.Dict.set
validate_live = refl

any_session_live : any_session id (store_calls id new calls) "bearer_b" ≡ true
unfolding any_session store_calls store_call new soa_harness_impl.Base.Dict.values
    soa_harness_impl.Permission.SessionStore.revoke soa_harness_impl.Base.Dict.delete
    soa_harness_impl.Permission.SessionStore.create soa_harness_impl.Base.Dict.set
any_session_live = refl

store_calls-refines_example :
    let s = store_calls id new calls in
    let promised = spec_calls no_sessions calls "ses_b" in
    (validate id s "ses_b" "bearer_b" ≡ allows promised "bearer_b")
    × (get_record s "ses_b" ≡ record_of promised)
store_calls-refines_example = store_calls-refines id (λ a b h. h) calls "ses_b" "bearer_b"
