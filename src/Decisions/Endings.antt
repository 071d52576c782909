-- ===== src/Decisions/Endings.antt =====
-- Sessions that the handler ends: a budget that is used up, and a hook that calls back.
use soa_harness_impl.Base.{
  ℕ, ap, ap₂, ◌+◌, ◌≤◌, ◌<◌, leb, ◌∙◌, String, ◌≡◌, ◌⊎◌, sym, subst, refl, false, none, some, arith,
  Key, Bool-cases, inl, inr, string_key, option_or,
}
use soa_harness_impl.Base.Dict.{get-delete_self}
use soa_harness_impl.Permission.SessionStore
use soa_harness_impl.Permission.SessionStore.{InMemorySessionStore}
use soa_harness_impl.Audit.Chain.{Crypto}
use soa_harness_impl.Budget
use soa_harness_impl.Budget.{BudgetTracker, TurnRecord, state_or_fresh, get_projection}
use soa_harness_impl.Budget.Windows.{record_turn-get_projection}
use soa_harness_impl.Decisions.Types.{
  BracketFiles, World, Options, Request, refused, Draw, overrun_event, reentrancy_event,
}
use soa_harness_impl.Decisions.Checks.{
  end_session, emit, terminate_for_budget_exhausted, owning_session, denial,
}
use soa_harness_impl.Decisions.Recording.{charge, charge_turn, over}
use soa_harness_impl.Decisions.Handler.{unless_reentrant, handle}

revoke-exists :
    (s : InMemorySessionStore) (id : String)
    → SessionStore.exists (SessionStore.revoke s id) id ≡ false
unfolding SessionStore.exists SessionStore.revoke
revoke-exists s id = ground (arith, get-delete_self s.records id)

module _ {D F : Type 0} where
  end_session-exists :
      (w : World D F) (r : Request) (draw : Draw) (id stop_reason : String)
      → SessionStore.exists (end_session w r draw id stop_reason).sessions id ≡ false
  unfolding end_session emit
  end_session-exists w r draw id stop_reason = revoke-exists w.sessions id

  -- The session is revoked, or it has used this many tokens, which are fewer than a run may use.
  abbrev pub IsWithin : World D F → String → (used limit : ℕ) → Type 0
  IsWithin w id used limit =
      ((SessionStore.exists w.sessions id ≡ false) × (limit ≤ used))
      ⊎ ((t : BudgetTracker) × (w.budget ≡ some t)
          × ((state_or_fresh t id).cumulative_tokens_consumed ≡ used)
          × (used < limit))

used_up :
    (t : BudgetTracker) (id : String) (turn : TurnRecord)
    → let used = (state_or_fresh t id).cumulative_tokens_consumed + turn.actual_total_tokens in
      let charged = Budget.record_turn t id turn in
      ((state_or_fresh charged id).cumulative_tokens_consumed ≡ used)
      × (over (get_projection charged id 0) ≡ leb t.max_tokens_per_run used)
unfolding over
used_up t id turn =
    let told = record_turn-get_projection t id turn in
    (told.0, ap over told.2 ∙ ap₂ leb told.3 told.4)

module _ (crypto : Crypto) ⦃same_hash : Key crypto.Digest⦄ {F K : Type 0}
    (files : BracketFiles crypto.Digest F) (opts : Options K) where
  -- The turn that is charged.
  abbrev pub charged_turn : TurnRecord
  charged_turn = record {
    actual_total_tokens = option_or opts.budget_per_turn_estimate 512;
    prompt_tokens_cached = some (option_or opts.synthetic_cache_hit 0);
    completion_tokens_cached = some (option_or opts.synthetic_cache_hit 0);
    recorded_at = none;
  }

  charge-IsWithin :
      (w : World crypto.Digest F) (r : Request) (id : String) (t : BudgetTracker)
      → IsWithin
          (charge crypto files opts w r id (some t))
          id
          ((state_or_fresh t id).cumulative_tokens_consumed
            + option_or opts.budget_per_turn_estimate 512)
          t.max_tokens_per_run
  unfolding charge terminate_for_budget_exhausted
  charge-IsWithin w r id t =
      let charged = Budget.record_turn t id charged_turn in
      let (total, spent) = used_up t id charged_turn in
      elim (Bool-cases (over (get_projection charged id 0))) [
        | inl e ↦ rw e (
            inl (
              end_session-exists (record w { budget = some charged }) r overrun_event id
                  "BudgetExhausted",
              ground (arith, sym spent ∙ e),
            ))
        | inr e ↦ rw e (inr (charged, refl, total, ground (arith, sym spent ∙ e)))
      ]

  -- Where a budget is tracked, a charged turn adds its estimate, or 512 tokens without one, to what
  -- its session has used; the session's bearer is revoked and the limit of a run is reached, or the
  -- tracker holds that sum and it is below the limit.
  pub charge_turn-IsWithin :
      (w : World crypto.Digest F) (r : Request) (id : String) (t : BudgetTracker)
      → w.budget ≡ some t
      → IsWithin
          (charge_turn crypto files opts w r id)
          id
          ((state_or_fresh t id).cumulative_tokens_consumed
            + option_or opts.budget_per_turn_estimate 512)
          t.max_tokens_per_run
  unfolding charge_turn
  charge_turn-IsWithin w r id t h =
      subst
        (λ o.
          IsWithin (charge crypto files opts w r id o) id
            ((state_or_fresh t id).cumulative_tokens_consumed
              + option_or opts.budget_per_turn_estimate 512)
            t.max_tokens_per_run)
        (sym h) (charge-IsWithin w r id t)

  -- A request from a hook that is in flight ends the session that the hook runs for: it is refused,
  -- before anything else is looked at, with that session revoked and the audit chain as it was.
  pub handle-reentrant :
      (digest_text : crypto.Digest → String) (w : World crypto.Digest F) (r : Request)
      (owner : String)
      → owning_session w r ≡ some owner
      → let (next, response) = handle crypto files opts digest_text w r in
        (response ≡ refused 403 "PermissionDenied" (some "hook-reentrancy"))
        × (SessionStore.exists next.sessions owner ≡ false)
        × (next.chain ≡ w.chain)
  unfolding handle unless_reentrant denial end_session emit
  handle-reentrant digest_text w r owner h =
      rw h (refl, end_session-exists w r reentrancy_event owner "HookReentrancy", refl)
