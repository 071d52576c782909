-- ===== src/Audit/Sink.antt =====
-- packages/runner/src/audit/sink.ts: the three-state audit sink. The random event id and the
-- instant of the clock are arguments. A file of the pending directory is named by its record's hash,
-- and its writing does not fail.
pub mod States
pub mod Recovery
mod Tests
use soa_harness_impl.Base.{
  ℕ, String, Bool, true, false, not, ◌&&◌, ◌||◌, Option, none, some, List, [], ◌∷◌, ◌++◌, length,
  Key, ◌==◌, if◌then◌else◌, includes, string_key,
}
use soa_harness_impl.Base.Result.{Result, ok, err}
use soa_harness_impl.Base.Dict
use soa_harness_impl.Registry.{RiskClass, mutating, destructive}
use soa_harness_impl.Audit.{Value, AuditRecord}
use soa_harness_impl.Audit.Chain.{RecordId, record_id_of}

pub data AuditSinkState : Type 0 where
  healthy degraded_buffering unreachable_halt : AuditSinkState

pub data AuditSinkEventType : Type 0 where
  audit_sink_degraded audit_sink_unreachable audit_sink_recovered : AuditSinkEventType

-- `at` is first_failed_at, unreachable_since or recovered_at, by the type; `records` is
-- buffered_records or flushed_records.
pub record AuditSinkEvent : Type 0 where
  pub event_id : String
  pub type : AuditSinkEventType
  pub transition_at : ℕ
  pub at : ℕ
  pub records : ℕ
  pub reason : String

pub record AuditSink (D : Type 0) : Type 0 where
  pub state : AuditSinkState
  pub events : List AuditSinkEvent
  pub buffer : List (AuditRecord D)
  pub pending : List D
  pub first_failed_at : Option ℕ
  pub unreachable_since : Option ℕ
  pub buffer_write_markers : List (RecordId D)

pub same_state : AuditSinkState → AuditSinkState → Bool
same_state healthy healthy = true
same_state degraded_buffering degraded_buffering = true
same_state unreachable_halt unreachable_halt = true
same_state _ _ = false

event : AuditSinkEventType → String → ℕ → ℕ → String → AuditSinkEvent
event type event_id now records reason = record {
  event_id = event_id;
  type = type;
  transition_at = now;
  at = now;
  records = records;
  reason = reason;
}

module _ {D : Type 0} where
  -- The body of `transitionTo` once the states differ.
  enter : AuditSink D → AuditSinkState → String → ℕ → String → AuditSink D × Option AuditSinkEvent
  unfolding event
  enter s degraded_buffering reason now event_id =
      let e = event audit_sink_degraded event_id now (length s.buffer) reason in
      (
        record s {
          state = degraded_buffering;
          events = s.events ++ e ∷ [];
          first_failed_at = some now;
        },
        some e,
      )
  enter s unreachable_halt reason now event_id =
      let e = event audit_sink_unreachable event_id now (length s.buffer) reason in
      (
        record s {
          state = unreachable_halt;
          events = s.events ++ e ∷ [];
          unreachable_since = some now;
        },
        some e,
      )
  enter s healthy reason now event_id =
      let e = event audit_sink_recovered event_id now (length s.buffer) reason in
      (
        record s {
          state = healthy;
          events = s.events ++ e ∷ [];
          first_failed_at = none;
          unreachable_since = none;
        },
        some e,
      )

  -- transitionTo
  pub transition_to :
      AuditSink D → AuditSinkState → String → ℕ → String → AuditSink D × Option AuditSinkEvent
  unfolding same_state enter
  transition_to s next reason now event_id =
      if same_state s.state next then (s, none) else enter s next reason now event_id

  pub cold : AuditSink D
  cold = record {
    state = healthy;
    events = [];
    buffer = [];
    pending = [];
    first_failed_at = none;
    unreachable_since = none;
    buffer_write_markers = [];
  }

  -- new AuditSink(opts), with the reason `boot` where none is given
  pub new : Option AuditSinkState → Option String → ℕ → String → AuditSink D
  unfolding transition_to cold
  new none reason now event_id = cold
  new (some healthy) reason now event_id = cold
  new (some next) none now event_id = (transition_to cold next "boot" now event_id).0
  new (some next) (some reason) now event_id = (transition_to cold next reason now event_id).0

  pub should_refuse_mutating : AuditSink D → RiskClass → Bool
  unfolding same_state
  should_refuse_mutating s mutating = same_state s.state unreachable_halt
  should_refuse_mutating s destructive = same_state s.state unreachable_halt
  should_refuse_mutating s _ = false

  -- Whether /ready answers `audit-sink-unreachable`.
  pub readiness_blocked : AuditSink D → Bool
  unfolding same_state
  readiness_blocked s = same_state s.state unreachable_halt

module _ {D : Type 0} ⦃e : Key D⦄ where
  -- A write to a file that is there replaces it.
  write_pending : List D → D → List D
  write_pending files h = if includes files h then files else files ++ h ∷ []

  -- recordAuditRow
  pub record_audit_row : AuditSink D → AuditRecord D → AuditSink D
  unfolding same_state write_pending record_id_of
  record_audit_row s r = if same_state s.state healthy then s else record s {
    buffer = s.buffer ++ r ∷ [];
    pending = write_pending s.pending r.this_hash;
    buffer_write_markers =
        s.buffer_write_markers ++ record_id_of (Dict.get r.extra "id") r.this_hash ∷ [];
  }

module _ {D : Type 0} where
  -- The transition at the end of `flushAndRecover`, whose event counts the snapshot.
  recovered : AuditSink D → ℕ → ℕ → String → AuditSink D × Option AuditSinkEvent
  unfolding transition_to
  recovered s flushed now event_id = if same_state s.state healthy then (s, none) else (
    record s {
      state = healthy;
      events = s.events ++ event audit_sink_recovered event_id now flushed "sink-recovered" ∷ [];
      first_failed_at = none;
      unreachable_since = none;
    },
    some (event audit_sink_recovered event_id now flushed "sink-recovered"),
  )

  -- The end of `flushAndRecover`, after the last record of its snapshot was shipped: the buffer is
  -- emptied, and every pending file removed.
  finish_flush : AuditSink D → ℕ → ℕ → String → AuditSink D × Option AuditSinkEvent
  unfolding recovered
  finish_flush s flushed now event_id =
      recovered (record s { buffer = []; pending = [] }) flushed now event_id

  -- The shipping loop, with the outcome of each call: the records that the external sink accepted,
  -- and whether the loop ran to its end.
  ship_all : (AuditRecord D → Bool) → List (AuditRecord D) → List (AuditRecord D) × Bool
  ship_all ship [] = ([], true)
  ship_all ship (r ∷ rs) =
      let (shipped, done) = ship_all ship rs in if ship r then (r ∷ shipped, done) else ([], false)

  -- flushAndRecover with nothing else running: the sink, what was shipped, and the event; a record
  -- that cannot be shipped ends it with the sink as it was.
  pub flush_and_recover :
      (AuditRecord D → Bool)
      → AuditSink D
      → ℕ
      → String
      → AuditSink D × List (AuditRecord D) × Option (Option AuditSinkEvent)
  unfolding ship_all finish_flush
  flush_and_recover ship s now event_id =
      let (shipped, done) = ship_all ship s.buffer in
      let (s', event') = finish_flush s (length s.buffer) now event_id in
      if done then (s', shipped, some event') else (s, shipped, none)

-- parseAuditSinkFailureModeEnv
pub parse_audit_sink_failure_mode_env : Option String → Result String (Option AuditSinkState)
parse_audit_sink_failure_mode_env none = ok none
parse_audit_sink_failure_mode_env (some v) =
    if v == ""
    then ok none
    else if v == "healthy"
    then ok (some healthy)
    else if v == "degraded-buffering"
    then ok (some degraded_buffering)
    else if v == "unreachable-halt"
    then ok (some unreachable_halt)
    else err v
