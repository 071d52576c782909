-- ===== src/Stream.antt =====
-- packages/runner/src/stream/emitter.ts: the in-process emitter of stream events. The random event
-- id and the instant of the clock come with each call.
pub mod Sequences
mod Tests
use soa_harness_impl.Base.{
  ℕ, suc, ◌+◌, String, Bool, Option, none, some, List, [], ◌∷◌, length, ◌==◌, if◌then◌else◌, not,
  string_key, includes, option_or,
}
use soa_harness_impl.Base.Result.{Result, ok, err}
use soa_harness_impl.Base.Dict
use soa_harness_impl.Base.Dict.{Dict}
use soa_harness_impl.Base.Rings.{ring, push_ring}
use soa_harness_impl.Audit.{Value}

-- STREAM_EVENT_TYPES
pub stream_event_types : List String
stream_event_types =
    "SessionStart" ∷ "SessionEnd" ∷ "MessageStart" ∷ "MessageEnd" ∷ "ContentBlockStart"
    ∷ "ContentBlockDelta" ∷ "ContentBlockEnd" ∷ "ToolInputStart" ∷ "ToolInputDelta" ∷ "ToolInputEnd"
    ∷ "ToolResult" ∷ "ToolError" ∷ "PermissionPrompt" ∷ "PermissionDecision" ∷ "CompactionStart"
    ∷ "CompactionEnd" ∷ "MemoryLoad" ∷ "HandoffStart" ∷ "HandoffComplete" ∷ "HandoffFailed"
    ∷ "SelfImprovementStart" ∷ "SelfImprovementAccepted" ∷ "SelfImprovementRejected"
    ∷ "SelfImprovementOrphaned" ∷ "CrashEvent" ∷ "PreToolUseOutcome" ∷ "PostToolUseOutcome" ∷ []

pub is_stream_event_type : String → Bool
is_stream_event_type type = includes stream_event_types type

pub record EmittedEvent : Type 0 where
  pub event_id : String
  pub sequence : ℕ
  pub type : String
  pub session_id : String
  pub emitted_at : ℕ
  pub workflow_state_id : Option String
  pub payload : Dict String Value

-- The parameters of a call, with what it draws from the clock and the random source.
pub record EmitParams : Type 0 where
  pub session_id : String
  pub type : String
  pub payload : Dict String Value
  pub workflow_state_id : Option String
  pub now : ℕ
  pub event_id : String

pub data EmitError : Type 0 where
  stream_event_type_invalid : String → EmitError

pub record StreamEventEmitter : Type 0 where
  pub events : Dict String (List EmittedEvent)
  pub sequences : Dict String ℕ
  pub max_per_session : ℕ

pub new : Option ℕ → StreamEventEmitter
new max_events = record {
  events = Dict.empty;
  sequences = Dict.empty;
  max_per_session = option_or max_events 1000;
}

-- `(sequences.get(session_id) ?? -1) + 1`
next_sequence : Option ℕ → ℕ
next_sequence none = 0
next_sequence (some n) = n + 1

event_of : EmitParams → ℕ → EmittedEvent
event_of p sequence = record {
  event_id = p.event_id;
  sequence = sequence;
  type = p.type;
  session_id = p.session_id;
  emitted_at = p.now;
  workflow_state_id = p.workflow_state_id;
  payload = p.payload;
}

-- emit
pub emit : StreamEventEmitter → EmitParams → Result EmitError (StreamEventEmitter × EmittedEvent)
unfolding next_sequence event_of is_stream_event_type
emit m p =
    if not (is_stream_event_type p.type)
    then err (stream_event_type_invalid p.type)
    else (let sequence = next_sequence (Dict.get m.sequences p.session_id) in
        let event = event_of p sequence in
        ok (
          record m {
            sequences = Dict.set m.sequences p.session_id sequence;
            events = push_ring m.max_per_session m.events p.session_id event;
          },
          event,
        ))

pub snapshot : StreamEventEmitter → String → List EmittedEvent
snapshot m session_id = ring m.events session_id

sum_lengths : List (List EmittedEvent) → ℕ
sum_lengths [] = 0
sum_lengths (arr ∷ rest) = length arr + sum_lengths rest

pub count_all : StreamEventEmitter → ℕ
unfolding sum_lengths
count_all m = sum_lengths (Dict.values m.events)

pub has_session : StreamEventEmitter → String → Bool
has_session m session_id = Dict.has m.events session_id

pub session_ids : StreamEventEmitter → List String
session_ids m = Dict.keys m.events
