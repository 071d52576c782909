-- ===== src/Attestation/Escalation.antt =====
-- packages/runner/src/attestation/escalation.ts: the coordinator that waits for a responder's file or
-- a timeout. `is_blank` and `parse` stand for `trim` and `JSON.parse`; the timer callbacks arrive as
-- events in their order.
pub mod Responses
mod Tests
use soa_harness_impl.Base.{
  ℕ, String, Bool, true, false, Option, none, some, List, [], ◌∷◌, ◌==◌, string_key, if◌then◌else◌,
}
use soa_harness_impl.Attestation.HandlerKey.{
  HandlerKeyRegistry, HandlerRole, interactive, coordinator, autonomous, HandlerKeyEntry,
}
use soa_harness_impl.Attestation.HandlerKey

pub data OutcomeDetail : Type 0 where
  autonomous_insufficient coordinator_insufficient : OutcomeDetail

-- EscalationOutcome, by its kind; the instant is `at`.
pub data EscalationOutcome : Type 0 where
  approved denied : (kid : String) (at : ℕ) → EscalationOutcome
  timeout : (at : ℕ) → EscalationOutcome
  hitl_required : (kid : String) (detail : OutcomeDetail) (at : ℕ) → EscalationOutcome

-- What parsing the file gives: no JSON, the value null, or the two fields, none where they are no
-- strings.
pub data ResponderFile : Type 0 where
  unparsable null_value : ResponderFile
  fields : (kid response : Option String) → ResponderFile

-- One reading: what it returns, or the TypeError of reading a field of null.
pub data Reading : Type 0 where
  nothing type_error : Reading
  answer : EscalationOutcome → Reading

pub role_of : Option HandlerKeyEntry → Option HandlerRole
role_of none = none
role_of (some entry) = entry.role

-- A response of a kid, by the role that is known of it.
classify : Option HandlerRole → String → String → ℕ → Reading
classify (some autonomous) kid response at = answer (hitl_required kid autonomous_insufficient at)
classify (some coordinator) kid response at = answer (hitl_required kid coordinator_insufficient at)
classify _ kid response at =
    if response == "approve"
    then answer (approved kid at)
    else if response == "deny"
    then answer (denied kid at)
    else nothing

classify_kid : HandlerKeyRegistry → Option String → String → ℕ → Reading
unfolding classify role_of
classify_kid reg none response at = nothing
classify_kid reg (some kid) response at =
    classify (role_of (HandlerKey.get reg kid)) kid response at

-- `response === "silence"` comes before the test of the kid; a missing response is neither.
classify_fields : HandlerKeyRegistry → Option String → Option String → ℕ → Reading
unfolding classify_kid
classify_fields reg kid none at = classify_kid reg kid "" at
classify_fields reg kid (some response) at =
    let known = classify_kid reg kid response at in if response == "silence" then nothing else known

read_parsed : HandlerKeyRegistry → String → ResponderFile → ℕ → String × Reading
unfolding classify_fields
read_parsed reg content unparsable at = (content, nothing)
read_parsed reg content null_value at = (content, type_error)
read_parsed reg content (fields kid response) at = ("", classify_fields reg kid response at)

module _ (is_blank : String → Bool) (parse : String → ResponderFile) where
  -- tryReadResponder: the file's content after the reading, and the reading. A file that is missing
  -- or cannot be read is none, and a parsed file is truncated; its writing does not fail.
  unfoldable pub try_read_responder :
      HandlerKeyRegistry → Option String → ℕ → Option String × Reading
  unfolding read_parsed
  try_read_responder reg none at = (none, nothing)
  try_read_responder reg (some content) at =
      let (left, reading) = read_parsed reg content (parse content) at in
      if is_blank content then (some content, nothing) else (some left, reading)

  -- What happens while the coordinator waits, each with its instant: a tick finds the file with some
  -- content, or the timeout fires.
  pub data Event : Type 0 where
    tick : Option String → ℕ → Event
    timer : ℕ → Event

  -- The promise: still waiting, resolved, or broken by an error that escapes a tick.
  pub data Promise : Type 0 where
    waiting crashed : Promise
    resolved : EscalationOutcome → Promise

  after_reading : Reading → Promise
  after_reading nothing = waiting
  after_reading type_error = crashed
  after_reading (answer outcome) = resolved outcome

  -- A callback; `finish` clears the timers, and does nothing once done.
  unfoldable pub fire : HandlerKeyRegistry → Promise → Event → Promise
  unfolding after_reading
  fire reg waiting (tick file at) = after_reading (try_read_responder reg file at).1
  fire reg waiting (timer at) = resolved (timeout at)
  fire reg crashed e = crashed
  fire reg (resolved outcome) e = resolved outcome

  -- awaitResponder: the first tick is at once, where there is a file's path.
  unfoldable pub await_responder : HandlerKeyRegistry → Promise → List Event → Promise
  unfolding fire
  await_responder reg p [] = p
  await_responder reg p (e ∷ es) = await_responder reg (fire reg p e) es
