-- ===== src/Tests/Plans.antt =====
-- The theorems on plans, runtimes and modes at concrete inputs.
use adaptive_agent_orchestra.Base.{
  true, false, none, some, [], ◌∷◌, ok, ◌≡◌, refl, ◌↔◌, is_blank, ◌⊎◌, ◌≢◌, ◌≤◌, length, is_empty,
}
use adaptive_agent_orchestra.Contracts.Runtime.{ComplexityLevel, requires, offers}
use adaptive_agent_orchestra.Contracts.Selection.{
  RuntimeSelectionDecision, RuntimeSelectionDecisionCode, validate_selection_policy,
}
use adaptive_agent_orchestra.Contracts.Plan.{
  ExecutionMode, ExecutionModeDecision, ExecutionModeDecisionCode, RuntimePlan,
  is_known_arrangement, validate_plan,
}
use adaptive_agent_orchestra.Contracts.Task.{TaskType, validate_task_fields}
use adaptive_agent_orchestra.Contracts.Subtasks.{validate_subtask_plan}
use adaptive_agent_orchestra.Contracts.Subtasks.Acyclic.{IsPlan, validate_subtask_plan_iff}
use adaptive_agent_orchestra.Planning.Filter.{
  assess_candidate, assess_candidates, missing_in, is_missing,
}
use adaptive_agent_orchestra.Planning.Filter.Eligibility.{
  Covers, IsUsable, assess_candidate-eligible_iff, assess_candidate-rejection_codes,
}
use adaptive_agent_orchestra.Planning.Selector.{select_runtime}
use adaptive_agent_orchestra.Planning.Mode.{select_execution_mode}
use adaptive_agent_orchestra.Planning.Mode.Arrangement.{Arranges, select_execution_mode-Arranges}
use adaptive_agent_orchestra.Planning.Composer.{composed_plan, compose_runtime_plan}
use adaptive_agent_orchestra.Planning.Composer.Fields.{IsComposed, compose_runtime_plan-IsComposed}
use adaptive_agent_orchestra.Planning.Intake.{
  derive_task_profile, derive_task_requirements, intake_task,
}
use adaptive_agent_orchestra.Planning.Intake.Shape.{
  derive_task_profile-execution_complexity, derive_task_requirements-eligible, IsWrite, IsDependent,
  ready,
}
use adaptive_agent_orchestra.Planning.Hmc.{hmc_risk, HmcPlanningEvidence, build_hmc_planning}
use adaptive_agent_orchestra.Planning.Hmc.Mapping.{build_hmc_planning_ok}
use adaptive_agent_orchestra.Planning.Pipeline.{PlanningResult, planning_result, plan_runtime}
use adaptive_agent_orchestra.Planning.Pipeline.Sound.{IsJustified, plan_runtime-IsJustified}
use adaptive_agent_orchestra.Planning.Pipeline.Total.{
  IsWellFormed, Concludes, plan_runtime-Concludes,
}
use adaptive_agent_orchestra.Tests.{
  fix_task, hermes, codex, candidates, requirements, selection_policy, mode_policy, profile,
  options, input, council, steps, shell_capabilities,
}

abbrev selection : RuntimeSelectionDecision
selection = record {
  selected_runtime = some "hermes";
  policy_version = "s1";
  decision_code = RuntimeSelectionDecisionCode.selected_degraded_fallback;
  used_degraded_fallback = true;
  reasons =
      "no healthy eligible candidate remained"
      ∷ "selected highest-priority degraded eligible runtime as fallback: hermes" ∷ [];
}

abbrev mode : ExecutionModeDecision
mode = record {
  runtime = some "hermes";
  mode = some ExecutionMode.delegate;
  policy_version = "m1";
  decision_code = ExecutionModeDecisionCode.selected_delegate;
  reasons =
      "selected delegate execution because task is parallelizable and runtime supports native_delegation"
      ∷ [];
}

abbrev plan : RuntimePlan
plan = composed_plan selection mode options "hermes" ExecutionMode.delegate

abbrev result : PlanningResult council
result = planning_result council input none selection (some mode) (some plan)

validate_subtask_plan_iff_example :
    (validate_subtask_plan (λ s. s) steps ≡ ok tt) ↔ IsPlan (λ s. s) steps
validate_subtask_plan_iff_example = validate_subtask_plan_iff (λ s. s) steps

test_validate_subtask_plan : validate_subtask_plan (λ s. s) steps ≡ ok tt
unfolding validate_subtask_plan
test_validate_subtask_plan = refl

assess_candidate-eligible_iff_example :
    ((assess_candidate requirements hermes).eligible ≡ true)
    ↔ (Covers hermes.capabilities requirements × IsUsable hermes.health.status)
assess_candidate-eligible_iff_example = assess_candidate-eligible_iff requirements hermes

assess_candidate-rejection_codes_example :
    is_empty (assess_candidate requirements codex).rejection_codes
    ≡ (assess_candidate requirements codex).eligible
assess_candidate-rejection_codes_example = assess_candidate-rejection_codes requirements codex

policy_valid : validate_selection_policy selection_policy ≡ ok selection_policy
unfolding validate_selection_policy is_blank
policy_valid = refl

test_select_runtime :
    select_runtime (assess_candidates requirements candidates) selection_policy ≡ ok selection
unfolding select_runtime assess_candidates assess_candidate is_blank
test_select_runtime = refl

named : is_blank "hermes" ≡ false
unfolding is_blank
named = refl

select_execution_mode-Arranges_example :
    Arranges profile shell_capabilities mode_policy "hermes"
      (select_execution_mode profile selection shell_capabilities mode_policy)
select_execution_mode-Arranges_example =
    select_execution_mode-Arranges profile selection shell_capabilities mode_policy "hermes" refl
      named

composed : compose_runtime_plan selection mode options ≡ ok plan
unfolding compose_runtime_plan is_blank validate_plan is_known_arrangement
composed = refl

compose_runtime_plan-IsComposed_example : IsComposed selection mode options plan
compose_runtime_plan-IsComposed_example =
    compose_runtime_plan-IsComposed selection mode options plan composed

fix_task-eligible : (assess_candidate (derive_task_requirements fix_task) hermes).eligible ≡ true
unfolding derive_task_requirements assess_candidate missing_in is_missing requires offers
fix_task-eligible = refl

derive_task_requirements-eligible_example :
    (¬ (IsWrite fix_task.task_type)
      ⊎ ((hermes.capabilities.filesystem_read ≡ true)
          × (hermes.capabilities.filesystem_write ≡ true)
          × (hermes.capabilities.shell ≡ true)
          × (hermes.capabilities.tests ≡ true)))
    × ((fix_task.task_type ≢ TaskType.parallel_research) ⊎ (hermes.capabilities.web ≡ true))
derive_task_requirements-eligible_example =
    derive_task_requirements-eligible fix_task hermes fix_task-eligible

derive_task_profile-execution_complexity_example :
    (((derive_task_profile fix_task).cross_role_dependencies ≡ true)
      ↔ IsDependent fix_task.subtasks)
    × (((derive_task_profile fix_task).parallelizable ≡ true)
        ↔ (2 ≤ length (ready fix_task.subtasks)))
    × (((derive_task_profile fix_task).execution_complexity ≡ ComplexityLevel.high)
        ↔ (IsDependent fix_task.subtasks ⊎ (3 ≤ length fix_task.subtasks)))
    × (((derive_task_profile fix_task).execution_complexity ≡ ComplexityLevel.low) ↔ (
        (length fix_task.subtasks ≤ 1)
        × ¬ (IsDependent fix_task.subtasks)
        × (fix_task.task_type ≢ TaskType.multi_file_refactor)
        × (length fix_task.allowed_paths ≤ 1)))
derive_task_profile-execution_complexity_example = derive_task_profile-execution_complexity fix_task

task_valid : validate_task_fields fix_task ≡ ok fix_task
unfolding validate_task_fields
task_valid = refl

build_hmc_planning_ok_example :
    (evidence : HmcPlanningEvidence council) × (build_hmc_planning council fix_task
        ("model" ∷ [])
        none
      ≡ ok evidence)
    × (evidence.intake ≡ intake_task fix_task)
    × (evidence.context.request.task_profile.complexity ≡ 3)
    × (evidence.context.request.task_profile.risk ≡ hmc_risk fix_task.risk)
    × (evidence.context.planner_id ≡ "model_council")
build_hmc_planning_ok_example =
    build_hmc_planning_ok council fix_task ("model" ∷ []) none task_valid
      (refl, λ request plan. refl)

well_formed : IsWellFormed council input none
unfolding is_blank
well_formed = record {
  policy = policy_valid;
  distinct = refl;
  plan_version = refl;
  mode_version = refl;
  planner = refl;
  reviewer = refl;
  independent = (refl, (refl, tt));
}

plan_runtime-Concludes_example :
    (result : PlanningResult council) × (plan_runtime council input none ≡ ok result)
    × Concludes council result
plan_runtime-Concludes_example = plan_runtime-Concludes council input none well_formed

planned : plan_runtime council input none ≡ ok result
unfolding plan_runtime select_runtime assess_candidates assess_candidate is_blank
    select_execution_mode compose_runtime_plan validate_plan is_known_arrangement
planned = refl

plan_runtime-IsJustified_example : IsJustified input plan
plan_runtime-IsJustified_example =
    plan_runtime-IsJustified council input none result plan policy_valid planned refl
