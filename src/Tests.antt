-- ===== src/Tests.antt =====
-- Concrete inputs for the witnesses of the children: tasks with subtasks, runtimes with their
-- health, policies, and a stand-in for the external planner.
mod Plans
mod Runs
mod Results
mod Waves
mod Executions
mod Gates
mod Experiments
mod Profiles
use adaptive_agent_orchestra.Base.{
  ℕ, Bool, true, false, Option, none, some, List, [], ◌∷◌, String, str_append,
}
use adaptive_agent_orchestra.Contracts.Runtime.{
  TaskRequirements, RuntimeCapabilities, default_capabilities, HealthStatus, RuntimeHealth,
  ComplexityLevel, TaskProfile,
}
use adaptive_agent_orchestra.Contracts.Selection.{RuntimeSelectionPolicy}
use adaptive_agent_orchestra.Contracts.Plan.{ExecutionModePolicy}
use adaptive_agent_orchestra.Contracts.Task.{
  TaskType, RiskLevel, SubtaskSpec, TaskContext, TaskContract, text,
}
use adaptive_agent_orchestra.Planning.Filter.{RuntimeCandidate}
use adaptive_agent_orchestra.Planning.Composer.{PlanOptions}
use adaptive_agent_orchestra.Planning.Hmc.{Council, HmcTaskProfile, PlannerRequest}
use adaptive_agent_orchestra.Planning.Pipeline.{PlanningInput}

abbrev pub parse_step : SubtaskSpec
parse_step = record {
  id = "parse";
  goal = "Fix  the parser";
  allowed_paths = "src/parse" ∷ [];
  dependencies = [];
  expected_output = "a patch";
}

abbrev pub print_step : SubtaskSpec
print_step = record {
  id = "print";
  goal = "Fix the printer";
  allowed_paths = [];
  dependencies = [];
  expected_output = "a patch";
}

abbrev pub join_step : SubtaskSpec
join_step = record {
  id = "join";
  goal = "Test both";
  allowed_paths = [];
  dependencies = "parse" ∷ "print" ∷ [];
  expected_output = "a report";
}

abbrev pub steps : List SubtaskSpec
steps = join_step ∷ parse_step ∷ print_step ∷ []

abbrev pub no_context : TaskContext
no_context = record {
  items = [];
  eval_base_sha = none;
  subtask_id = none;
  dependencies = none;
  expected_output = none;
  decomposition_mode = none;
  child_id = none;
}

abbrev pub fix_task : TaskContract
fix_task = record {
  id = "t1";
  task_type = TaskType.code_fix;
  goal = "Fix the round trip";
  context = no_context;
  allowed_paths = "src/parse" ∷ "src/print" ∷ [];
  forbidden_actions = [];
  success_criteria = text "tests pass" ∷ [];
  output_schema = [];
  risk = RiskLevel.high;
  complexity = 3;
  workspace = none;
  parent_task_id = none;
  subtasks = steps;
}

abbrev pub requirements : TaskRequirements
requirements = record {
  filesystem_read = true;
  filesystem_write = true;
  shell = true;
  tests = true;
  web = false;
  background_execution = false;
  persistent_tasks = false;
  human_in_loop = false;
}

abbrev pub shell_capabilities : RuntimeCapabilities
shell_capabilities = record default_capabilities {
  filesystem_read = true;
  filesystem_write = true;
  shell = true;
  tests = true;
  native_delegation = true;
}

abbrev pub health : String → HealthStatus → RuntimeHealth
health runtime status = record {
  runtime = runtime;
  status = status;
  reasons = [];
  checked_at = some 1;
}

-- Hermes is degraded, Codex is down, and the reader lacks the shell.
abbrev pub hermes : RuntimeCandidate
hermes = record {
  runtime = "hermes";
  capabilities = shell_capabilities;
  health = health "hermes" HealthStatus.degraded;
}

abbrev pub codex : RuntimeCandidate
codex = record {
  runtime = "codex";
  capabilities = shell_capabilities;
  health = health "codex" HealthStatus.unavailable;
}

abbrev pub reader : RuntimeCandidate
reader = record {
  runtime = "reader";
  capabilities = default_capabilities;
  health = health "reader" HealthStatus.available;
}

abbrev pub candidates : List RuntimeCandidate
candidates = codex ∷ reader ∷ hermes ∷ []

abbrev pub selection_policy : RuntimeSelectionPolicy
selection_policy = record {
  policy_version = "s1";
  runtime_priority = "codex" ∷ "hermes" ∷ [];
  allow_degraded_fallback = true;
}

abbrev pub mode_policy : ExecutionModePolicy
mode_policy = record { policy_version = "m1"; allow_delegate = true; allow_kanban = false }

abbrev pub profile : TaskProfile
profile = record {
  reasoning_complexity = ComplexityLevel.medium;
  execution_complexity = ComplexityLevel.high;
  persistent_execution = false;
  long_running = false;
  parallelizable = true;
  cross_role_dependencies = false;
  human_in_loop = false;
  decision_diversity = false;
  external_effects = true;
}

abbrev pub options : PlanOptions
options = record {
  plan_policy_version = "p1";
  planner = some "human";
  reviewer = some "codex_review";
  approval_required = true;
}

abbrev pub input : PlanningInput
input = record {
  task_profile = profile;
  requirements = requirements;
  candidates = candidates;
  selection_policy = selection_policy;
  execution_mode_policy = mode_policy;
  options = options;
}

-- A planner whose plan is a list of models and whose recommendation is the version of the request.
abbrev pub council : Council
council = record {
  ModelSpec = String;
  Plan = List String;
  Recommendation = String;
  contract_version = "hmc-planner-v1.0";
  default_version = "hmc-planner-v1.0";
  recommend_plans = λ profile models. models;
  plan_task = λ request plan. "hmc-planner-v1.0";
  planner_contract_version = λ version. version;
}
