-- ===== src/Tests/Experiments.antt =====
-- The theorems on the evidence of experiments at concrete inputs: two arms of one comparison.
use adaptive_agent_orchestra.Base.{
  ◌≡◌, ◌≢◌, refl, ◌↔◌, ◌⊎◌, is_some, true, false, none, some, [], ok, String,
}
use adaptive_agent_orchestra.Contracts.Task.{risk_value, Criterion, TaskContract}
use adaptive_agent_orchestra.Contracts.Experiment.Validators.{
  IsUnsubmitted, validate_lifecycle_ok_iff, validate_budget-budget_id,
}
use adaptive_agent_orchestra.Contracts.Experiment.TaskIdentity.{
  TaskNames, task_projection, build_task_identity, build_task_identity-task_contract_sha256,
}
use adaptive_agent_orchestra.Tests.{fix_task}
use adaptive_agent_orchestra.Budget.{default_config}
use adaptive_agent_orchestra.Contracts.Experiment.Profiles.{
  Json, text, null, number, object, items, ComparisonKind, ConfiguredProfile, ObservedProfile,
  configured_projection, effective_projection, missing_configured, missing_observed,
}
use adaptive_agent_orchestra.Contracts.Experiment.{
  ArmId, ExperimentBinding, ConfiguredBudget, EnforcedBudget, Lifecycle, ProfileIdentity, complete,
  profile_identity, build_experiment, validate_lifecycle, validate_budget, Terminal,
}
use adaptive_agent_orchestra.Contracts.Experiment.Identities.{
  IsConfigured, IsObserved, HasCompared, parts, profile_identity-complete_iff,
  build_experiment_ok_iff, profile_identity-configured_profile_id,
}

-- A digest that tells objects from other values.
abbrev digest : Json → String
digest null = "null"
digest (text s) = s
digest (number n) = "number"
digest (object fields) = "object"
digest (items values) = "items"

abbrev configured : ConfiguredProfile
configured = record {
  runtime = some "hermes";
  harness = some "aao";
  runtime_version = none;
  model = some "m1";
  provider = some "p1";
  execution_mode = some "direct";
  tools_config_sha256 = some "t";
  policy_config_sha256 = some "p";
  reasoning_config_sha256 = none;
  environment_config_sha256 = some "e";
  workspace_contract =
      some
        (record { starting_revision = "r0"; isolation_mode = "worktree"; fixture_revision = "f0" });
  network_policy_identity = none;
  sandbox_policy_identity = none;
  approval_policy_identity = some "a";
  budget_id = some "object";
}

abbrev observed : ObservedProfile
observed = record {
  runtime = some "hermes";
  runtime_version = none;
  model = some "m1";
  provider = some "p1";
  effective_workspace_revision = some "r0";
  effective_workspace_root = none;
  observed_isolation_level = some "workspace";
  observed_network_mode = none;
  observed_sandbox_mode = none;
  observed_approval_behavior = none;
  tool_evidence_completeness = some "complete";
  file_evidence_completeness = some "complete";
}

abbrev binding : ExperimentBinding
binding = record {
  experiment_id = "x";
  experiment_definition_revision = "1";
  experiment_definition_sha256 = "d";
  comparison_kind = ComparisonKind.model;
  pair_id = "pair";
  trial_id = 1;
  arm_id = ArmId.arm_a;
}

abbrev budget : ConfiguredBudget
budget = record { config = default_config; budget_id = "object" }

abbrev enforced : EnforcedBudget
enforced = record {
  calls_used = 1;
  calls_reserved = 0;
  retries_used = 0;
  children_used = 0;
  depth_used = 0;
  submission_prevented = none;
  retry_prevented = none;
  approval_required = some false;
  approval_granted = none;
}

abbrev lifecycle : Lifecycle
lifecycle = record {
  submission_attempted = true;
  runtime_adapter_invoked = true;
  runtime_run_id = some "r";
  terminal_status = some Terminal.completed;
  failure_phase = none;
  failure_reason = none;
}

abbrev identity : ProfileIdentity
identity = record {
  configured_profile_id = some "object";
  effective_profile_id = some "object";
  completeness = complete;
  incompleteness_reasons = [];
}

computed : profile_identity digest ComparisonKind.model configured observed ≡ ok identity
unfolding profile_identity configured_projection effective_projection missing_configured
    missing_observed
computed = refl

profile_identity-complete_iff_example : (identity.completeness ≡ complete) ↔ (
    IsConfigured configured
    × IsObserved observed
    × HasCompared ComparisonKind.model configured observed)
profile_identity-complete_iff_example =
    profile_identity-complete_iff digest ComparisonKind.model configured observed identity computed

build_experiment_ok_iff_example :
    (build_experiment digest binding configured observed budget enforced lifecycle
      ≡ ok (parts digest binding configured observed budget enforced lifecycle))
    ↔ ((configured.budget_id ≡ some budget.budget_id)
        × (lifecycle.runtime_run_id ≢ some binding.experiment_id)
        × (lifecycle.runtime_run_id ≢ some binding.pair_id))
build_experiment_ok_iff_example =
    build_experiment_ok_iff digest binding configured observed budget enforced lifecycle

profile_identity-configured_profile_id_example : configured ≡ configured
profile_identity-configured_profile_id_example =
    profile_identity-configured_profile_id digest ComparisonKind.model ComparisonKind.model
      configured configured observed observed identity identity computed computed refl refl
      (λ _. refl) refl

validate_lifecycle_ok_iff_example : (validate_lifecycle lifecycle ≡ ok lifecycle) ↔ (
    ((lifecycle.submission_attempted ≡ true) ⊎ IsUnsubmitted lifecycle)
    × ((lifecycle.runtime_adapter_invoked ≡ true) ⊎ (is_some lifecycle.runtime_run_id ≡ false)))
validate_lifecycle_ok_iff_example = validate_lifecycle_ok_iff lifecycle

budget_accepted : validate_budget digest budget ≡ ok budget
unfolding validate_budget
budget_accepted = refl

validate_budget-budget_id_example : budget.config ≡ budget.config
validate_budget-budget_id_example =
    validate_budget-budget_id digest budget budget budget_accepted budget_accepted (λ _. refl) refl

abbrev names : TaskNames
names = record {
  task_definition_id = "d";
  task_definition_revision = "1";
  prompt = "Fix it";
  dataset_or_fixture_revision = "f0";
  starting_revision = "r0";
}

-- The same task under another id and in another workspace.
abbrev renamed : TaskContract
renamed = record fix_task {
  id = "t2";
  workspace = some (record { path = "/tmp/w"; branch = none; child_id = none; repo_path = none });
}

abbrev criterion_json : Criterion → Json
criterion_json c = text "criterion"

same_projection :
    task_projection criterion_json fix_task names ≡ task_projection criterion_json renamed names
unfolding task_projection
same_projection = refl

same_digest :
    (build_task_identity criterion_json digest fix_task names).task_contract_sha256
    ≡ (build_task_identity criterion_json digest renamed names).task_contract_sha256
unfolding build_task_identity task_projection
same_digest = refl

build_task_identity-task_contract_sha256_example :
    (fix_task.goal ≡ renamed.goal)
    × (fix_task.allowed_paths ≡ renamed.allowed_paths)
    × (fix_task.forbidden_actions ≡ renamed.forbidden_actions)
    × (fix_task.output_schema ≡ renamed.output_schema)
    × (risk_value fix_task.risk ≡ risk_value renamed.risk)
    × (fix_task.complexity ≡ renamed.complexity)
    × (names ≡ names)
build_task_identity-task_contract_sha256_example =
    build_task_identity-task_contract_sha256 criterion_json digest fix_task renamed names names
      (λ _. same_projection) same_digest
