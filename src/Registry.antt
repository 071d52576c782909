-- ===== src/Registry.antt =====
-- packages/runner/src/registry/types.ts and registry.ts: the Tool Registry. An entry read from JSON
-- carries its two classifications as texts; an entry that the constructor accepted carries them as
-- values of the closed enums. A retention time is a natural number of seconds, and an ISO timestamp
-- is the instant that it denotes.
pub mod Laws
pub mod Loading
mod Tests
use soa_harness_impl.Base.{
  ℕ, String, Bool, true, false, not, ◌&&◌, Option, none, some, List, [], ◌∷◌, leb, ◌==◌,
  if◌then◌else◌, includes, filter_by, length, string_key,
}
use soa_harness_impl.Base.Result.{Result, ok, err, ◌>>=◌, ◌>>◌, ensure, or_throw}
use soa_harness_impl.Base.Dict
use soa_harness_impl.Base.Dict.{Dict}

pub data RiskClass : Type 0 where
  read_only mutating egress destructive : RiskClass

pub data Control : Type 0 where
  auto_allow prompt deny : Control

pub data RegistrationSource : Type 0 where
  static_fixture mcp_dynamic : RegistrationSource

-- One row of `tools.json`, before its enums are checked.
pub record RawTool : Type 0 where
  pub name : String
  pub risk_class : String
  pub default_control : String
  pub description : Option String
  pub idempotency_retention_seconds : Option ℕ
  pub registered_at : Option ℕ
  pub registration_source : Option RegistrationSource

pub record ToolEntry : Type 0 where
  pub name : String
  pub risk_class : RiskClass
  pub default_control : Control
  pub description : Option String
  pub idempotency_retention_seconds : Option ℕ
  pub registered_at : Option ℕ
  pub registration_source : Option RegistrationSource

pub data RegistryError : Type 0 where
  unknown_risk_class unknown_default_control duplicate_name unregistered_tool :
      String → RegistryError
  idempotency_retention_insufficient : String → RegistryError

-- RISK_CLASSES.includes
unfoldable pub risk_class_of : String → Option RiskClass
risk_class_of s =
    if s == "ReadOnly"
    then some read_only
    else if s == "Mutating"
    then some mutating
    else if s == "Egress"
    then some egress
    else if s == "Destructive"
    then some destructive
    else none

-- CONTROLS.includes
unfoldable pub control_of : String → Option Control
control_of s =
    if s == "AutoAllow"
    then some auto_allow
    else if s == "Prompt"
    then some prompt
    else if s == "Deny"
    then some deny
    else none

abbrev pub min_idempotency_retention_seconds : ℕ
min_idempotency_retention_seconds = 3600

abbrev pub is_destructive : RiskClass → Bool
is_destructive destructive = true
is_destructive _ = false

abbrev pub is_prompt : Control → Bool
is_prompt prompt = true
is_prompt _ = false

-- The two enum checks, which stand first in the constructor and in `addDynamic`.
pub check_enums : RawTool → Result RegistryError ToolEntry
check_enums t = do
  risk ← or_throw (risk_class_of t.risk_class) (unknown_risk_class t.name)
  control ← or_throw (control_of t.default_control) (unknown_default_control t.name)
  ok (record {
    name = t.name;
    risk_class = risk;
    default_control = control;
    description = t.description;
    idempotency_retention_seconds = t.idempotency_retention_seconds;
    registered_at = t.registered_at;
    registration_source = t.registration_source;
  })

pub classification_ok : ToolEntry → Option ℕ → Bool
classification_ok t none = true
classification_ok t (some retention) =
    if leb min_idempotency_retention_seconds retention
    then true
    else is_destructive t.risk_class && is_prompt t.default_control

-- assertIdempotencyClassification
assert_idempotency_classification : ToolEntry → Result RegistryError (Unit {0})
unfolding classification_ok
assert_idempotency_classification t =
    ensure (classification_ok t t.idempotency_retention_seconds)
      (idempotency_retention_insufficient t.name)

pub record ToolRegistry : Type 0 where
  pub by_name : Dict String ToolEntry

abbrev pub no_tools : ToolRegistry
no_tools = record { by_name = Dict.empty }

-- One round of the constructor's loop.
pub insert_tool : ToolRegistry → RawTool → Result RegistryError ToolRegistry
insert_tool reg t = do
  entry ← check_enums t
  ensure (not (Dict.has reg.by_name t.name)) (duplicate_name t.name)
  assert_idempotency_classification entry
  ok (record { by_name = Dict.set reg.by_name t.name entry })

pub insert_all : ToolRegistry → List RawTool → Result RegistryError ToolRegistry
insert_all reg [] = ok reg
insert_all reg (t ∷ ts) = do reg' ← insert_tool reg t; insert_all reg' ts

-- new ToolRegistry(tools)
pub build : List RawTool → Result RegistryError ToolRegistry
unfolding insert_all
build tools = insert_all no_tools tools

unfoldable pub lookup : ToolRegistry → String → Option ToolEntry
lookup reg name = Dict.get reg.by_name name

unfoldable pub must_lookup : ToolRegistry → String → Result RegistryError ToolEntry
unfolding lookup
must_lookup reg name = or_throw (lookup reg name) (unregistered_tool name)

-- addDynamic
pub add_dynamic : ToolRegistry → RawTool → ℕ → Result RegistryError (ToolRegistry × Bool)
add_dynamic reg t now = do
  entry ← check_enums t
  if Dict.has reg.by_name t.name then ok (reg, false) else do
    assert_idempotency_classification entry
    let stamped = record entry { registered_at = some now; registration_source = some mcp_dynamic }
    ok (record { by_name = Dict.set reg.by_name t.name stamped }, true)

unfoldable pub names : ToolRegistry → List String
names reg = Dict.keys reg.by_name

unfoldable pub size : ToolRegistry → ℕ
unfolding names
size reg = length (names reg)

-- The file `tools.json`: absent, without an array `tools`, or with its rows.
pub data ToolsFile : Type 0 where
  not_found no_tools_array : ToolsFile
  tools : List RawTool → ToolsFile

pub data LoadError : Type 0 where
  file_not_found file_without_tools : LoadError
  rejected : RegistryError → LoadError

as_load_error : Result RegistryError ToolRegistry → Result LoadError ToolRegistry
as_load_error (ok reg) = ok reg
as_load_error (err e) = err (rejected e)

-- `tools.filter` by the deny-list of AGENTS.md; an empty or absent list filters nothing.
pub allowed : List String → List RawTool → List RawTool
allowed denied ts = filter_by (λ t. not (includes denied t.name)) ts

-- loadToolRegistry
pub load_tool_registry : ToolsFile → List String → Result LoadError ToolRegistry
load_tool_registry not_found denied = err file_not_found
load_tool_registry no_tools_array denied = err file_without_tools
load_tool_registry (tools ts) denied = as_load_error (build (allowed denied ts))
