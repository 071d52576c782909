-- ===== src/Audit/Sink/States.antt =====
-- The states of the sink: what they refuse, what is remembered in each, and how the events tell.
use mathlib.Core.List.{foldl, foldl-append}
use soa_harness_impl.Base.{
  ℕ, String, ◌≡◌, ◌≢◌, ◌⊎◌, ◌↔◌, inl, inr, Bool-cases, length, refl, Bool, true, Option, none, some,
  List, [], ◌∷◌, ◌++◌, arith, Key,
}
use soa_harness_impl.Registry.{RiskClass, mutating, destructive}
use soa_harness_impl.Audit.{AuditRecord}
use soa_harness_impl.Audit.Sink.{
  AuditSinkState, healthy, degraded_buffering, unreachable_halt, AuditSinkEventType,
  audit_sink_degraded, audit_sink_unreachable, audit_sink_recovered, AuditSinkEvent, AuditSink,
  same_state, enter, transition_to, cold, new, should_refuse_mutating, record_audit_row,
  finish_flush, flush_and_recover, ship_all,
}

-- The state that an event announces.
abbrev pub announced : AuditSinkEventType → AuditSinkState
announced audit_sink_degraded = degraded_buffering
announced audit_sink_unreachable = unreachable_halt
announced audit_sink_recovered = healthy

-- The state that an observer of /audit/sink-events infers.
pub observed : List AuditSinkEvent → AuditSinkState
observed = foldl (λ _ e. announced e.type) healthy

pub record IsCoherent {D : Type 0} (s : AuditSink D) : Type 0 where
  pub events_tell : observed s.events ≡ s.state
  pub healthy_forgets :
      s.state ≡ healthy → (s.first_failed_at ≡ none) × (s.unreachable_since ≡ none)
  pub degraded_since : s.state ≡ degraded_buffering → s.first_failed_at ≢ none
  pub halted_since : s.state ≡ unreachable_halt → s.unreachable_since ≢ none

-- The calls that change a sink.
pub data SinkCall (D : Type 0) : Type 0 where
  transition : AuditSinkState → (reason : String) → SinkCall D
  audit_row : AuditRecord D → SinkCall D
  flush : (AuditRecord D → Bool) → SinkCall D

observed-append :
    (es : List AuditSinkEvent) (e : AuditSinkEvent) → observed (es ++ e ∷ []) ≡ announced e.type
unfolding observed
observed-append es e = rw foldl-append

module _ {D : Type 0} where
  cold-IsCoherent : IsCoherent (cold {D = D})
  unfolding cold observed
  cold-IsCoherent = record {
    events_tell = refl;
    healthy_forgets = λ h. (refl, refl);
    degraded_since = λ h. cc;
    halted_since = λ h. cc;
  }

  enter-IsCoherent :
      (s : AuditSink D) (next : AuditSinkState) (reason : String) (now : ℕ) (event_id : String)
      → IsCoherent (enter s next reason now event_id).0
  unfolding enter
  enter-IsCoherent s healthy reason now event_id = record {
    events_tell = observed-append s.events _;
    healthy_forgets = λ h. (refl, refl);
    degraded_since = λ h. cc;
    halted_since = λ h. cc;
  }
  enter-IsCoherent s degraded_buffering reason now event_id = record {
    events_tell = observed-append s.events _;
    healthy_forgets = λ h. cc;
    degraded_since = λ h. λ k. cc;
    halted_since = λ h. cc;
  }
  enter-IsCoherent s unreachable_halt reason now event_id = record {
    events_tell = observed-append s.events _;
    healthy_forgets = λ h. cc;
    degraded_since = λ h. cc;
    halted_since = λ h. λ k. cc;
  }

  transition_to-IsCoherent :
      (s : AuditSink D) (next : AuditSinkState) (reason : String) (now : ℕ) (event_id : String)
      → IsCoherent s
      → IsCoherent (transition_to s next reason now event_id).0
  unfolding transition_to
  transition_to-IsCoherent s next reason now event_id h =
      elim (Bool-cases (same_state s.state next)) [
        | inl same ↦ rw same h
        | inr other ↦ rw other (enter-IsCoherent s next reason now event_id)
      ]

  finish_flush-IsCoherent :
      (s : AuditSink D) (flushed now : ℕ) (event_id : String)
      → IsCoherent s
      → IsCoherent (finish_flush s flushed now event_id).0
  unfolding finish_flush
  finish_flush-IsCoherent s flushed now event_id h =
      elim (Bool-cases (same_state s.state healthy)) [
        | inl same ↦ rw same (record {
          events_tell = h.events_tell;
          healthy_forgets = h.healthy_forgets;
          degraded_since = h.degraded_since;
          halted_since = h.halted_since;
        })
        | inr other ↦ rw other (record {
          events_tell = observed-append s.events _;
          healthy_forgets = λ _. (refl, refl);
          degraded_since = λ k. cc;
          halted_since = λ k. cc;
        })
      ]

  flush_and_recover-IsCoherent :
      (ship : AuditRecord D → Bool) (s : AuditSink D) (now : ℕ) (event_id : String)
      → IsCoherent s
      → IsCoherent (flush_and_recover ship s now event_id).0
  unfolding flush_and_recover
  flush_and_recover-IsCoherent ship s now event_id h =
      elim (Bool-cases (ship_all ship s.buffer).1) [
        | inl done ↦ rw done (finish_flush-IsCoherent s (length s.buffer) now event_id h)
        | inr failed ↦ rw failed h
      ]

module _ {D : Type 0} ⦃e : Key D⦄ where
  record_audit_row-IsCoherent :
      (s : AuditSink D) (r : AuditRecord D) → IsCoherent s → IsCoherent (record_audit_row s r)
  unfolding record_audit_row
  record_audit_row-IsCoherent s r h = elim (Bool-cases (same_state s.state healthy)) [
    | inl same ↦ rw same h
    | inr other ↦ rw other (record {
      events_tell = h.events_tell;
      healthy_forgets = h.healthy_forgets;
      degraded_since = h.degraded_since;
      halted_since = h.halted_since;
    })
  ]

  -- One call, at an instant, with a fresh event id.
  pub call : AuditSink D → SinkCall D × ℕ × String → AuditSink D
  call s (transition next reason, now, event_id) = (transition_to s next reason now event_id).0
  call s (audit_row r, now, event_id) = record_audit_row s r
  call s (flush ship, now, event_id) = (flush_and_recover ship s now event_id).0

  pub calls : AuditSink D → List (SinkCall D × ℕ × String) → AuditSink D
  calls s [] = s
  calls s (c ∷ cs) = calls (call s c) cs

  call-IsCoherent :
      (s : AuditSink D) (c : SinkCall D × ℕ × String) → IsCoherent s → IsCoherent (call s c)
  unfolding call
  call-IsCoherent s (transition next reason, now, event_id) h =
      transition_to-IsCoherent s next reason now event_id h
  call-IsCoherent s (audit_row r, now, event_id) h = record_audit_row-IsCoherent s r h
  call-IsCoherent s (flush ship, now, event_id) h =
      flush_and_recover-IsCoherent ship s now event_id h

  calls-IsCoherent :
      (s : AuditSink D) (cs : List (SinkCall D × ℕ × String))
      → IsCoherent s
      → IsCoherent (calls s cs)
  unfolding calls
  calls-IsCoherent s [] h = h
  calls-IsCoherent s (c ∷ cs) h = calls-IsCoherent (call s c) cs (call-IsCoherent s c h)

  new-IsCoherent :
      (initial : Option AuditSinkState) (reason : Option String) (now : ℕ) (event_id : String)
      → IsCoherent (new {D = D} initial reason now event_id)
  unfolding new
  new-IsCoherent none reason now event_id = cold-IsCoherent
  new-IsCoherent (some healthy) reason now event_id = cold-IsCoherent
  new-IsCoherent (some degraded_buffering) none now event_id =
      transition_to-IsCoherent cold degraded_buffering "boot" now event_id cold-IsCoherent
  new-IsCoherent (some degraded_buffering) (some r) now event_id =
      transition_to-IsCoherent cold degraded_buffering r now event_id cold-IsCoherent
  new-IsCoherent (some unreachable_halt) none now event_id =
      transition_to-IsCoherent cold unreachable_halt "boot" now event_id cold-IsCoherent
  new-IsCoherent (some unreachable_halt) (some r) now event_id =
      transition_to-IsCoherent cold unreachable_halt r now event_id cold-IsCoherent

  -- After any calls on a new sink, in any order, the last event tells the state, a healthy sink
  -- remembers no failure, a degraded one remembers since when it fails, and a halted one since when
  -- it is unreachable.
  pub calls-new-IsCoherent :
      (initial : Option AuditSinkState) (reason : Option String) (now : ℕ) (event_id : String)
      (cs : List (SinkCall D × ℕ × String))
      → IsCoherent (calls (new initial reason now event_id) cs)
  calls-new-IsCoherent initial reason now event_id cs =
      calls-IsCoherent _ cs (new-IsCoherent initial reason now event_id)

-- In a coherent sink an invocation is refused exactly when the events tell that the sink is
-- unreachable and the tool is Mutating or Destructive.
pub should_refuse_mutating_iff :
    {D : Type 0} (s : AuditSink D) (risk : RiskClass)
    → IsCoherent s
    → (should_refuse_mutating s risk ≡ true)
      ↔ ((observed s.events ≡ unreachable_halt) × ((risk ≡ mutating) ⊎ (risk ≡ destructive)))
unfolding should_refuse_mutating
should_refuse_mutating_iff s risk h = ground (arith, h.events_tell)
