-- ===== src/Registry/Tests.antt =====
-- Runs of the registry, and inputs at which its theorems apply.
use soa_harness_impl.Base.{
  ◌≡◌, refl, String, not, ◌&&◌, none, some, [], ◌∷◌, is_some, includes, string_key,
}
use soa_harness_impl.Base.Dict
use soa_harness_impl.Base.Dict.{Dict, empty}
use soa_harness_impl.Registry.{
  RawTool, ToolEntry, read_only, destructive, auto_allow, prompt, mcp_dynamic, ToolRegistry,
  check_enums, risk_class_of, control_of, classification_ok, assert_idempotency_classification,
  insert_tool, insert_all, build, lookup, allowed, as_load_error, load_tool_registry,
}
use soa_harness_impl.Registry.Laws.{IsSound, build-IsSound}
use soa_harness_impl.Registry.Loading.{raw_names, load_tool_registry_lem}

abbrev read_file : RawTool
read_file = record {
  name = "read_file";
  risk_class = "ReadOnly";
  default_control = "AutoAllow";
  description = none;
  idempotency_retention_seconds = none;
  registered_at = none;
  registration_source = none;
}

abbrev drop_table : RawTool
drop_table = record {
  name = "drop_table";
  risk_class = "Destructive";
  default_control = "Prompt";
  description = none;
  idempotency_retention_seconds = some 60;
  registered_at = none;
  registration_source = none;
}

abbrev read_entry : ToolEntry
read_entry = record {
  name = "read_file";
  risk_class = read_only;
  default_control = auto_allow;
  description = none;
  idempotency_retention_seconds = none;
  registered_at = none;
  registration_source = none;
}

abbrev drop_entry : ToolEntry
drop_entry = record {
  name = "drop_table";
  risk_class = destructive;
  default_control = prompt;
  description = none;
  idempotency_retention_seconds = some 60;
  registered_at = none;
  registration_source = none;
}

abbrev dropped_at_7 : ToolEntry
dropped_at_7 = record drop_entry { registered_at = some 7; registration_source = some mcp_dynamic }

abbrev both : ToolRegistry
both = record {
  by_name = record { entries = ("read_file", read_entry) ∷ ("drop_table", drop_entry) ∷ [] };
}

abbrev reader : ToolRegistry
reader = record { by_name = record { entries = ("read_file", read_entry) ∷ [] } }

abbrev reader_and_dropper : ToolRegistry
reader_and_dropper = record {
  by_name = record { entries = ("read_file", read_entry) ∷ ("drop_table", dropped_at_7) ∷ [] };
}

build-IsSound_example : IsSound both
unfolding build insert_all insert_tool check_enums risk_class_of control_of
    assert_idempotency_classification classification_ok Dict.get Dict.set
build-IsSound_example = build-IsSound (read_file ∷ drop_table ∷ []) both refl

reader-IsSound : IsSound reader
unfolding build insert_all insert_tool check_enums risk_class_of control_of
    assert_idempotency_classification classification_ok Dict.get Dict.set
reader-IsSound = build-IsSound (read_file ∷ []) reader refl

load_tool_registry_lem_example :
    IsSound reader
    × (is_some (lookup reader "drop_table") ≡ (
        includes {A = String} (raw_names (read_file ∷ drop_table ∷ [])) "drop_table"
        && not (includes {A = String} ("drop_table" ∷ []) "drop_table")))
unfolding load_tool_registry allowed as_load_error build insert_all insert_tool check_enums
    risk_class_of control_of assert_idempotency_classification classification_ok Dict.get Dict.set
load_tool_registry_lem_example =
    load_tool_registry_lem (read_file ∷ drop_table ∷ []) ("drop_table" ∷ []) reader "drop_table"
      refl
