-- ===== src/Decisions/Tests.antt =====
-- A run of the handler, and inputs at which its theorems apply.
use soa_harness_impl.Base.{
  ◌+◌, option_or, ℕ, ◌≡◌, refl, String, Bool, true, false, Option, none, some, [], ◌∷◌, ◌==◌,
  string_key, same_self, if◌then◌else◌,
}
use soa_harness_impl.Base.Result.{Result, ok, err}
use soa_harness_impl.Base.Dict
use soa_harness_impl.Base.Dict.{Dict}
use soa_harness_impl.Registry.{ToolRegistry, ToolEntry, read_only, auto_allow}
use soa_harness_impl.Permission.{workspace_write, auto_allow_decision}
use soa_harness_impl.Permission.SessionStore.{SessionRecord, InMemorySessionStore}
use soa_harness_impl.Audit.Chain.Trees.{Tree, root, trees, tree_key}
use soa_harness_impl.Budget.{BudgetTracker}
use soa_harness_impl.Hook.{pre_tool_use, allow}
use soa_harness_impl.Attestation.Pda.{PdaPlatform}
use soa_harness_impl.Attestation.Escalation.{timeout}
use soa_harness_impl.Decisions.Types.{
  BracketFiles, BracketSession, World, Options, Request, RequestBody, HookRun, ReadError,
  file_missing, Response, refused, created, CreatedBody,
}
use soa_harness_impl.Hook.Reentrancy.{session_for_pid}
use soa_harness_impl.Decisions.Recording.{charge_turn}
use soa_harness_impl.Decisions.Rows.{IsLinked, handle-Linked}
use soa_harness_impl.Decisions.Stages.{IsAuthorized}
use soa_harness_impl.Decisions.Answers.{IsDecided, handle-IsDecided}
use soa_harness_impl.Decisions.Retries.{IsReplay, handle-replays}
use soa_harness_impl.Decisions.Endings.{IsWithin, charge_turn-IsWithin, handle-reentrant}
use soa_harness_impl.Registry
use soa_harness_impl.Budget
use soa_harness_impl.Budget.{state_or_fresh}
use soa_harness_impl.Permission.SessionStore
use soa_harness_impl.Decisions.Limiter.{consume, fresh_at, consumed}
use soa_harness_impl.Decisions.Checks.{
  owning_session, owner_of, owner_in, check_request, check_session, check_tool, can_decide,
  is_explore, is_read_only, sink_refuses, Checked,
}
use soa_harness_impl.Decisions.Guards.{
  check_residency, residency_pinned, check_budget, exhausts, run_pre_hook,
}
use soa_harness_impl.Decisions.Bracket.{
  open_bracket, open_in, open_loaded, open_unless, open_new, load, hit_in, find_hit, synthesized,
}
use soa_harness_impl.Decisions.Verdict.{verdict_of, signed, unsigned}
use soa_harness_impl.Decisions.Handler.{
  created_body, handle, unless_reentrant, when_ready, with_bearer, admitted, and_then, guard,
  after_residency_check, after_budget, decide, after_bracket, conclude,
}

abbrev key : SessionRecord
key = record {
  session_id = "ses";
  active_mode = workspace_write;
  user_sub = "alice";
  created_at = 0;
  expires_at = 60000;
  can_decide = true;
  billing_tag = none;
}

abbrev tool : ToolEntry
tool = record {
  name = "search";
  risk_class = read_only;
  default_control = auto_allow;
  description = none;
  idempotency_retention_seconds = none;
  registered_at = none;
  registration_source = none;
}

-- A disk that holds one session file.
abbrev Disk : Type 0
Disk = Option (BracketSession Tree)

abbrev read : Disk → String → Result ReadError (BracketSession Tree)
read none id = err file_missing
read (some s) id = if s.session_id == id then ok s else err file_missing

read-write : (disk : Disk) (s : BracketSession Tree) → read (some s) s.session_id ≡ ok s
read-write disk s = rw (same_self s.session_id) refl

abbrev files : BracketFiles Tree Disk
files = record { read_session = read; write_session = λ disk s. some s; read-write = read-write }

abbrev platform : PdaPlatform ℕ
platform = record {
  split_dots = λ s. [];
  decode_header = λ s. none;
  decode_payload = λ s. none;
  valid_schema = λ p. true;
  parse_date = λ s. none;
  verifies = λ s k. true;
}

abbrev options : Options ℕ
options = record {
  registry = record { by_name = record { entries = ("search", tool) ∷ [] } };
  agent_type = none;
  tool_requirements = none;
  policy_endpoint = none;
  platform = platform;
  resolve_pda_verify_key = none;
  is_pda_kid_revoked = none;
  parse_date = λ s. none;
  handler_key_registry = none;
  has_escalation_coordinator = false;
  runner_version = "1.0";
  has_pre_tool_use_command = false;
  has_post_tool_use_command = false;
  budget_per_turn_estimate = none;
  synthetic_cache_hit = none;
  data_residency = none;
  tool_residency = none;
  sha256 = λ s. s;
  jcs_digest = λ v. "";
}

abbrev world : World Tree Disk
world = record {
  sessions = record {
    records = record { entries = ("ses", record { enrolled = key; bearer_hash = "b" }) ∷ [] };
  };
  limiter = record { limit = 2; windows = Dict.empty };
  chain = record { records = []; tail = root; sink_mode = none; append_done_markers = [] };
  sink = none;
  budget = some (record { projection_window = 10; max_tokens_per_run = 9000; states = Dict.empty });
  emitter = none;
  reentrancy = some (record {
    sessions_by_pid = record { entries = (7, "ses") ∷ [] };
    pids_by_session = Dict.empty;
  });
  bracket = some (record { disk = none; marks = []; tool_pool_hash = "pool"; card_version = "1" });
  spans = none;
}

abbrev no_hook : HookRun
no_hook = record {
  pid = none;
  outcome = record {
    kind = pre_tool_use;
    decision = allow;
    exit_code = some 0;
    stdout = none;
    stderr_sample = [];
    timed_out = false;
    crashed = false;
    reason = none;
  };
}

abbrev asked : RequestBody
asked = record { tool = "search"; session_id = "ses"; args_digest = "d"; pda = none }

abbrev request : Option ℕ → Request
request pid = record {
  hook_pid = pid;
  not_ready = none;
  bearer = some "b";
  body = some asked;
  idempotency_key = some "k";
  pre_hook = no_hook;
  post_hook = no_hook;
  escalation = timeout 0;
  clock = λ m. 5;
  draw = λ d. "drawn";
}

abbrev is_created : Response Tree → Bool
is_created (created b) = true
is_created _ = false

abbrev digest_text : Tree → String
digest_text t = ""

abbrev run : World Tree Disk × Response Tree
run = handle trees ⦃same_hash = tree_key⦄ files options digest_text world (request none)

answers : is_created run.1 ≡ true
unfolding handle unless_reentrant when_ready with_bearer admitted and_then guard
    after_residency_check after_budget decide after_bracket conclude owning_session owner_of
    owner_in consume fresh_at consumed check_request check_session check_tool can_decide is_explore
    is_read_only sink_refuses SessionStore.exists SessionStore.validate SessionStore.get_record
    SessionStore.entry_of SessionStore.hashes_to Registry.lookup Dict.get Dict.set check_residency
    residency_pinned check_budget exhausts Budget.has run_pre_hook open_bracket open_in open_loaded
    open_unless open_new load hit_in find_hit synthesized verdict_of signed unsigned
answers = refl

abbrev body_of : Response Tree → CreatedBody Tree → CreatedBody Tree
body_of (created b) otherwise = b
body_of _ otherwise = otherwise

abbrev nobody : CreatedBody Tree
nobody = record {
  decision = auto_allow_decision;
  resolved_capability = workspace_write;
  resolved_control = auto_allow;
  reason = "";
  audit_record_id = "";
  audit_this_hash = root;
  handler_accepted = true;
  runner_version = "";
  recorded_at = 0;
  idempotency_key = none;
  replayed = false;
}

handled : run ≡ (run.0, created (body_of run.1 nobody))
unfolding handle unless_reentrant when_ready with_bearer admitted and_then guard
    after_residency_check after_budget decide after_bracket conclude owning_session owner_of
    owner_in consume fresh_at consumed check_request check_session check_tool can_decide is_explore
    is_read_only sink_refuses SessionStore.exists SessionStore.validate SessionStore.get_record
    SessionStore.entry_of SessionStore.hashes_to Registry.lookup Dict.get Dict.set check_residency
    residency_pinned check_budget exhausts Budget.has run_pre_hook open_bracket open_in open_loaded
    open_unless open_new load hit_in find_hit synthesized verdict_of signed unsigned created_body
handled = refl

abbrev checked : Checked
checked = record { tool = tool; session = key; session_id = "ses"; args_digest = "d"; pda = none }

-- A retry, with another clock.
abbrev later : Request
later = record (request none) { clock = λ m. 9 }

handle-Linked_example : IsLinked trees files options run.0
handle-Linked_example =
    handle-Linked trees files options ⦃same_hash = tree_key⦄ digest_text world (request none) refl

not_replayed : (body_of run.1 nobody).replayed ≡ false
unfolding handle unless_reentrant when_ready with_bearer admitted and_then guard
    after_residency_check after_budget decide after_bracket conclude owning_session owner_of
    owner_in consume fresh_at consumed check_request check_session check_tool can_decide is_explore
    is_read_only sink_refuses SessionStore.exists SessionStore.validate SessionStore.get_record
    SessionStore.entry_of SessionStore.hashes_to Registry.lookup Dict.get Dict.set check_residency
    residency_pinned check_budget exhausts Budget.has run_pre_hook open_bracket open_in open_loaded
    open_unless open_new load hit_in find_hit synthesized verdict_of signed unsigned created_body
not_replayed = refl

owned : owning_session world (request (some 7)) ≡ some "ses"
unfolding owning_session owner_of owner_in session_for_pid Dict.get
owned = refl

handle-IsDecided_example :
    (bearer : String) × (c : Checked) × ((request none).bearer ≡ some bearer)
    × IsAuthorized options.sha256 options world (request none) bearer c
    × IsDecided trees ⦃same_hash = tree_key⦄ files options digest_text
        (request none)
        c
        run.0
        (body_of run.1 nobody)
handle-IsDecided_example =
    handle-IsDecided trees ⦃same_hash = tree_key⦄ files options digest_text world run.0
      (request none) (body_of run.1 nobody) handled not_replayed

handle-replays_example :
    IsReplay trees ⦃same_hash = tree_key⦄ files options digest_text
      (body_of run.1 nobody)
      run.0
      (handle trees ⦃same_hash = tree_key⦄ files options digest_text run.0 later)
handle-replays_example =
    handle-replays trees ⦃same_hash = tree_key⦄ files options digest_text world run.0 run.0
      (request none) later asked asked
      (record { disk = none; marks = []; tool_pool_hash = "pool"; card_version = "1" }) "k"
      (body_of run.1 nobody) refl tt refl refl handled not_replayed refl refl refl refl

abbrev tracked_budget : BudgetTracker
tracked_budget = record { projection_window = 10; max_tokens_per_run = 9000; states = Dict.empty }

charge_turn-IsWithin_example :
    IsWithin
      (charge_turn trees ⦃same_hash = tree_key⦄ files options world (request none) "ses")
      "ses"
      ((state_or_fresh tracked_budget "ses").cumulative_tokens_consumed
        + option_or options.budget_per_turn_estimate 512)
      9000
charge_turn-IsWithin_example =
    charge_turn-IsWithin trees ⦃same_hash = tree_key⦄ files options world (request none) "ses"
      tracked_budget refl

handle-reentrant_example :
    let (next, response) =
      handle trees ⦃same_hash = tree_key⦄ files options digest_text world (request (some 7)) in
    (response ≡ refused 403 "PermissionDenied" (some "hook-reentrancy"))
    × (SessionStore.exists next.sessions "ses" ≡ false)
    × (next.chain ≡ world.chain)
handle-reentrant_example =
    handle-reentrant trees ⦃same_hash = tree_key⦄ files options digest_text world (request (some 7))
      "ses" owned
