-- ===== src/SystemLog/Tests.antt =====
-- Inputs at which the theorems of the system log apply.
use soa_harness_impl.Base.{◌≡◌, String, none, some, List, [], ◌∷◌, take_last, string_key}
use soa_harness_impl.SystemLog.{WriteParams, info, new, snapshot}
use soa_harness_impl.SystemLog.Retention.{write_all, log_of, write_all-snapshot}

abbrev entry : String → String → WriteParams
entry session_id category = record {
  session_id = session_id;
  category = category;
  level = info;
  code = "c";
  message = 104 ∷ 105 ∷ [];
  body = none;
  now = 1;
  record_id = "r";
}

abbrev entries : List WriteParams
entries =
    entry "ses_1" "Permission"
    ∷ entry "ses_2" "Error"
    ∷ entry "ses_1" "NoSuchCategory"
    ∷ entry "ses_1" "Error"
    ∷ []

write_all-snapshot_example :
    snapshot (write_all (new (some 1)) entries) "ses_1" none ≡ take_last 1 (log_of "ses_1" entries)
write_all-snapshot_example = write_all-snapshot (some 1) "ses_1" entries
