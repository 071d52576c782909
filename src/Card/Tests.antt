-- ===== src/Card/Tests.antt =====
-- Inputs at which the theorems of the precedence guard apply.
use soa_harness_impl.Base.{◌≡◌, ◌≢◌, ◌↔◌, refl, String, none, some, [], ◌∷◌, string_key}
use soa_harness_impl.Base.Dict
use soa_harness_impl.Base.Dict.{Dict}
use soa_harness_impl.Base.Result.{err}
use soa_harness_impl.Registry.{ToolEntry, Control, destructive, prompt, deny, control_of}
use soa_harness_impl.Permission.{
  ResolveInput, ConfigPrecedenceViolation, danger_full_access, interactive, resolve_permission,
  is_control_tightening_or_equal,
}
use soa_harness_impl.Card.{Requirements, CardPrecedenceCheckInput, check_card_precedence}
use soa_harness_impl.Card.{
  explore_violation, collisions, denylist_found, denylist_violation, loosened_by, loosenings,
  loosened_found, loosening_violation,
}
use soa_harness_impl.Card.Precedence.{
  IsConsistent, check_card_precedence-nil, requirement_for, guard-excludes-throw,
}

abbrev defaults : Dict String Control
defaults = record { entries = ("drop_table", prompt) ∷ [] }

abbrev tightening : Requirements
tightening = ("drop_table", "Deny") ∷ []

abbrev explorer : CardPrecedenceCheckInput
explorer = record {
  card = record {
    agent_type = some "explore";
    permissions =
        some (record { active_mode = some "ReadOnly"; tool_requirements = some tightening });
  };
  agents_md_denied = some ("send_mail" ∷ []);
  tool_default_controls = some defaults;
}

abbrev drop_table : ToolEntry
drop_table = record {
  name = "drop_table";
  risk_class = destructive;
  default_control = prompt;
  description = none;
  idempotency_retention_seconds = none;
  registered_at = none;
  registration_source = none;
}

abbrev dropping : ResolveInput
dropping = record {
  tool = drop_table;
  capability = danger_full_access;
  handler = interactive;
  tool_requirement = some deny;
  verified_pda = none;
}

abbrev refusal : ConfigPrecedenceViolation
refusal = record { tool_name = "drop_table"; registry_control = prompt; attempted_control = deny }

check_card_precedence-nil_example : (check_card_precedence explorer ≡ []) ↔ IsConsistent explorer
check_card_precedence-nil_example = check_card_precedence-nil explorer

guard-excludes-throw_example : resolve_permission dropping ≢ err refusal
unfolding check_card_precedence explore_violation collisions denylist_found denylist_violation
    loosened_by loosenings loosened_found loosening_violation is_control_tightening_or_equal
    control_of requirement_for Dict.get
guard-excludes-throw_example =
    guard-excludes-throw explorer defaults tightening refl refl refl dropping "Deny" refusal refl
      refl refl
