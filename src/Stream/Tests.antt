-- ===== src/Stream/Tests.antt =====
-- Inputs at which the theorems of the event stream apply.
use soa_harness_impl.Base.{◌≡◌, String, none, some, List, [], ◌∷◌, take_last, string_key}
use soa_harness_impl.Base.Dict
use soa_harness_impl.Stream.{EmitParams, new, snapshot}
use soa_harness_impl.Stream.Sequences.{emit_all, numbered, accepted, emit_all-snapshot}

abbrev call : String → String → EmitParams
call session_id type = record {
  session_id = session_id;
  type = type;
  payload = Dict.empty;
  workflow_state_id = none;
  now = 1;
  event_id = "e";
}

abbrev some_calls : List EmitParams
some_calls =
    call "ses_1" "SessionStart"
    ∷ call "ses_2" "SessionStart"
    ∷ call "ses_1" "NoSuchEvent"
    ∷ call "ses_1" "SessionEnd"
    ∷ []

emit_all-snapshot_example :
    snapshot (emit_all (new (some 1)) some_calls) "ses_1"
    ≡ take_last (new (some 1)).max_per_session (numbered 0 (accepted "ses_1" some_calls))
emit_all-snapshot_example = emit_all-snapshot (some 1) "ses_1" some_calls
