-- ===== src/Card.antt =====
-- packages/runner/src/card/precedence-guard.ts: the guard that compares the Agent Card with
-- AGENTS.md and the Tool Registry before the Runner reports ready. `toolRequirements` is its list of
-- entries, a set is a list without repetitions, and the message texts are left out.
pub mod Precedence
mod Tests
use soa_harness_impl.Base.{
  ℕ, String, Bool, true, false, not, ◌&&◌, ◌||◌, Option, none, some, List, [], ◌∷◌, ◌++◌, ltb, ◌==◌,
  if◌then◌else◌, string_key, includes, length,
}
use soa_harness_impl.Base.Dict
use soa_harness_impl.Base.Dict.{Dict}
use soa_harness_impl.Registry.{Control, control_of}
use soa_harness_impl.Permission.{is_control_tightening_or_equal}

abbrev pub Requirements : Type 0
Requirements = List (String × String)

pub record CardPermissions : Type 0 where
  pub active_mode : Option String
  pub tool_requirements : Option Requirements

pub record CardPrecedenceSnapshot : Type 0 where
  pub agent_type : Option String
  pub permissions : Option CardPermissions

pub record Loosened : Type 0 where
  pub tool : String
  pub default_control : Control
  pub requirement : String

-- One constructor for each axis, with the fields of its `detail`.
pub data CardPrecedenceViolation : Type 0 where
  agent_type_active_mode : String → CardPrecedenceViolation
  denylist_tool_requirement :
      (denied_tools : List String) (deny_count requirement_count : ℕ) → CardPrecedenceViolation
  tool_requirement_loosens_default : List Loosened → CardPrecedenceViolation

pub record CardPrecedenceCheckInput : Type 0 where
  pub card : CardPrecedenceSnapshot
  pub agents_md_denied : Option (List String)
  pub tool_default_controls : Option (Dict String Control)

abbrev pub active_mode_of : Option CardPermissions → Option String
active_mode_of none = none
active_mode_of (some p) = p.active_mode

abbrev pub requirements_of : Option CardPermissions → Option Requirements
requirements_of none = none
requirements_of (some p) = p.tool_requirements

-- Axis 1.
explore_violation : Option String → Option String → List CardPrecedenceViolation
explore_violation (some agent) (some mode) =
    if agent == "explore" && not (mode == "ReadOnly") then agent_type_active_mode mode ∷ [] else []
explore_violation _ _ = []

collisions : List String → Requirements → List String
collisions denied [] = []
collisions denied ((name, requirement) ∷ rest) =
    let more = collisions denied rest in if includes denied name then name ∷ more else more

denylist_found : List String → Requirements → List String → List CardPrecedenceViolation
denylist_found denied reqs [] = []
denylist_found denied reqs (t ∷ ts) =
    denylist_tool_requirement (t ∷ ts) (length denied) (length reqs) ∷ []

-- Axis 2.
denylist_violation : Option (List String) → Option Requirements → List CardPrecedenceViolation
unfolding collisions denylist_found
denylist_violation (some denied) (some reqs) =
    if ltb 0 (length denied) then denylist_found denied reqs (collisions denied reqs) else []
denylist_violation _ _ = []

-- The entry that one requirement adds to the loosened ones: none if the tool is not registered, if
-- the requirement is no control, or if it does not loosen.
loosened_by : String → String → Option Control → Option Control → List Loosened
loosened_by name requirement none _ = []
loosened_by name requirement (some default) none = []
loosened_by name requirement (some default) (some control) =
    if not (is_control_tightening_or_equal default control)
    then record { tool = name; default_control = default; requirement = requirement } ∷ []
    else []

loosenings : Dict String Control → Requirements → List Loosened
unfolding loosened_by
loosenings defaults [] = []
loosenings defaults ((name, requirement) ∷ rest) =
    loosened_by name requirement (Dict.get defaults name) (control_of requirement)
    ++ loosenings defaults rest

loosened_found : List Loosened → List CardPrecedenceViolation
loosened_found [] = []
loosened_found (l ∷ ls) = tool_requirement_loosens_default (l ∷ ls) ∷ []

-- Axis 3.
loosening_violation :
    Option (Dict String Control) → Option Requirements → List CardPrecedenceViolation
unfolding loosenings loosened_found
loosening_violation (some defaults) (some reqs) = loosened_found (loosenings defaults reqs)
loosening_violation _ _ = []

-- checkCardPrecedence
pub check_card_precedence : CardPrecedenceCheckInput → List CardPrecedenceViolation
unfolding explore_violation denylist_violation loosening_violation
check_card_precedence input =
    explore_violation input.card.agent_type (active_mode_of input.card.permissions)
    ++ (denylist_violation input.agents_md_denied (requirements_of input.card.permissions)
        ++ loosening_violation input.tool_default_controls (requirements_of input.card.permissions))
