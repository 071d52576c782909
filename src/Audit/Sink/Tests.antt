-- ===== src/Audit/Sink/Tests.antt =====
-- Inputs at which the theorems of the audit sink apply.
use soa_harness_impl.Base.{
  ℕ, ◌≡◌, refl, String, none, some, List, [], ◌∷◌, ◌++◌, string_key, nat_key,
}
use soa_harness_impl.Base.Dict
use soa_harness_impl.Audit.{AuditRecord}
use soa_harness_impl.Audit.Sink.{AuditSink, healthy, degraded_buffering, unreachable_halt, new}
use soa_harness_impl.Audit.Sink.States.{
  IsCoherent, SinkCall, transition, audit_row, calls, calls-new-IsCoherent,
}
use soa_harness_impl.Audit.Sink.Recovery.{
  ship_awaiting, all_rows, flush_awaiting, flush_awaiting-drops,
}

abbrev row : ℕ → AuditRecord ℕ
row n = record { extra = Dict.empty; timestamp = n; prev_hash = n; this_hash = n }

abbrev outage : List (SinkCall ℕ × ℕ × String)
outage =
    (transition degraded_buffering "timeout", 1, "e1")
    ∷ (audit_row (row 5), 2, "e2")
    ∷ (transition unreachable_halt "down", 3, "e3")
    ∷ []

calls-new-IsCoherent_example : IsCoherent (calls (new none none 0 "e0") outage)
calls-new-IsCoherent_example = calls-new-IsCoherent none none 0 "e0" outage

abbrev buffering : AuditSink ℕ
buffering = record {
  state = degraded_buffering;
  events = [];
  buffer = row 5 ∷ [];
  pending = 5 ∷ [];
  first_failed_at = some 1;
  unreachable_since = none;
  buffer_write_markers = [];
}

flush_awaiting-drops_example :
    ((ship_awaiting buffering buffering.buffer ((row 6 ∷ []) ∷ [])).0.buffer
      ≡ buffering.buffer ++ all_rows ((row 6 ∷ []) ∷ []))
    × ((flush_awaiting buffering ((row 6 ∷ []) ∷ []) (row 7 ∷ []) [] 9 "e9").1 ≡ row 5 ∷ [])
    × ((flush_awaiting buffering ((row 6 ∷ []) ∷ []) (row 7 ∷ []) [] 9 "e9").0.state ≡ healthy)
    × ((flush_awaiting buffering ((row 6 ∷ []) ∷ []) (row 7 ∷ []) [] 9 "e9").0.buffer
        ≡ (row 7 ∷ []) ++ [])
flush_awaiting-drops_example =
    flush_awaiting-drops buffering ((row 6 ∷ []) ∷ []) (row 7 ∷ []) [] 9 "e9" (λ e. cc) refl
