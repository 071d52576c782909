-- ===== src/SystemLog.antt =====
-- packages/runner/src/system-log/buffer.ts: the System Event Log. The random record id and the
-- instant of the clock come with each call; a message is the list of its UTF-16 code units.
pub mod Retention
mod Tests
use soa_harness_impl.Base.{
  ℕ, ◌+◌, String, Bool, Option, none, some, List, [], ◌∷◌, length, take, ltb, if◌then◌else◌, not,
  string_key, includes, option_or, filter_by,
}
use soa_harness_impl.Base.Result.{Result, ok, err}
use soa_harness_impl.Base.Dict
use soa_harness_impl.Base.Dict.{Dict}
use soa_harness_impl.Base.Rings.{ring, push_ring}
use soa_harness_impl.Audit.{Value}

-- SYSTEM_LOG_CATEGORIES
pub system_log_categories : List String
system_log_categories =
    "ContextLoad" ∷ "MemoryLoad" ∷ "MemoryDegraded" ∷ "Permission" ∷ "Routing" ∷ "Config" ∷ "Card"
    ∷ "SelfImprovement" ∷ "Audit" ∷ "Budget" ∷ "Handoff" ∷ "Error" ∷ []

pub is_system_log_category : String → Bool
is_system_log_category category = includes system_log_categories category

pub data SystemLogLevel : Type 0 where
  info warn error : SystemLogLevel

pub record SystemLogRecord : Type 0 where
  pub record_id : String
  pub ts : ℕ
  pub session_id : String
  pub category : String
  pub level : SystemLogLevel
  pub code : String
  pub message : List ℕ
  pub body : Option (Dict String Value)

pub record WriteParams : Type 0 where
  pub session_id : String
  pub category : String
  pub level : SystemLogLevel
  pub code : String
  pub message : List ℕ
  pub body : Option (Dict String Value)
  pub now : ℕ
  pub record_id : String

pub data WriteError : Type 0 where
  system_log_category_invalid : String → WriteError

pub record SystemLogBuffer : Type 0 where
  pub records : Dict String (List SystemLogRecord)
  pub max_per_session : ℕ

pub new : Option ℕ → SystemLogBuffer
new max_records = record { records = Dict.empty; max_per_session = option_or max_records 1000 }

pub record_of : WriteParams → SystemLogRecord
record_of p = record {
  record_id = p.record_id;
  ts = p.now;
  session_id = p.session_id;
  category = p.category;
  level = p.level;
  code = p.code;
  message = if ltb 1024 (length p.message) then take 1024 p.message else p.message;
  body = p.body;
}

-- write
pub write : SystemLogBuffer → WriteParams → Result WriteError (SystemLogBuffer × SystemLogRecord)
unfolding record_of
write b p =
    if not (is_system_log_category p.category)
    then err (system_log_category_invalid p.category)
    else ok (
      record b { records = push_ring b.max_per_session b.records p.session_id (record_of p) },
      record_of p,
    )

filtered : List SystemLogRecord → Option (List String) → List SystemLogRecord
filtered arr none = arr
filtered arr (some []) = arr
filtered arr (some (c ∷ cs)) = filter_by (λ r. includes (c ∷ cs) r.category) arr

-- snapshot
pub snapshot : SystemLogBuffer → String → Option (List String) → List SystemLogRecord
unfolding filtered
snapshot b session_id categories = filtered (ring b.records session_id) categories

sum_lengths : List (List SystemLogRecord) → ℕ
sum_lengths [] = 0
sum_lengths (arr ∷ rest) = length arr + sum_lengths rest

pub count_all : SystemLogBuffer → ℕ
unfolding sum_lengths
count_all b = sum_lengths (Dict.values b.records)
