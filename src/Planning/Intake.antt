-- ===== src/Planning/Intake.antt =====
-- orchestrator/task_intake.py: the typed planning inputs, from the structured fields of the contract.
pub mod Shape
use adaptive_agent_orchestra.Base.{
  ℕ, Bool, true, false, ◌&&◌, ◌||◌, not, leb, List, is_empty, any, filter, length, if◌then◌else◌,
}
use adaptive_agent_orchestra.Contracts.Task.{TaskType, SubtaskSpec, TaskContract}
use adaptive_agent_orchestra.Contracts.Runtime.{ComplexityLevel, TaskProfile, TaskRequirements}

pub record TaskIntake : Type 0 where
  pub profile : TaskProfile
  pub requirements : TaskRequirements

unfoldable pub reasoning_complexity : TaskContract → ComplexityLevel
reasoning_complexity task =
    if leb 5 task.complexity
    then ComplexityLevel.high
    else if leb 3 task.complexity
    then ComplexityLevel.medium
    else ComplexityLevel.low

abbrev pub has_dependencies : SubtaskSpec → Bool
has_dependencies s = not (is_empty s.dependencies)

-- `_dependency_shape`: (parallelizable, cross_role_dependencies).
unfoldable pub dependency_shape : TaskContract → Bool × Bool
dependency_shape task = if is_empty task.subtasks then (false, false) else (
  leb 2 (length (filter (λ (s : SubtaskSpec). is_empty s.dependencies) task.subtasks)),
  any has_dependencies task.subtasks,
)

abbrev pub is_refactor : TaskType → Bool
is_refactor TaskType.multi_file_refactor = true
is_refactor _ = false

-- The part of `_execution_complexity` behind the tests on the subtasks.
abbrev pub scope_complexity : TaskContract → ComplexityLevel
scope_complexity task =
    if is_refactor task.task_type
    then ComplexityLevel.medium
    else if leb 2 (length task.allowed_paths)
    then ComplexityLevel.medium
    else ComplexityLevel.low

unfoldable pub execution_complexity : TaskContract → ComplexityLevel
execution_complexity task =
    if not (is_empty task.subtasks)
      && (any has_dependencies task.subtasks || leb 3 (length task.subtasks))
    then ComplexityLevel.high
    else if not (is_empty task.subtasks) && leb 2 (length task.subtasks)
    then ComplexityLevel.medium
    else scope_complexity task

unfoldable pub derive_task_profile : TaskContract → TaskProfile
unfolding dependency_shape reasoning_complexity execution_complexity
derive_task_profile task =
    let (parallelizable, cross_role_dependencies) = dependency_shape task in
    record {
      reasoning_complexity = reasoning_complexity task;
      execution_complexity = execution_complexity task;
      persistent_execution = false;
      long_running = false;
      parallelizable = parallelizable;
      cross_role_dependencies = cross_role_dependencies;
      human_in_loop = false;
      decision_diversity = false;
      external_effects = false;
    }

-- `task.task_type in write_types`, and `in code_types`.
abbrev pub is_write_type : TaskType → Bool
is_write_type TaskType.code_fix = true
is_write_type TaskType.multi_file_refactor = true
is_write_type TaskType.test_and_implement = true
is_write_type _ = false

abbrev pub is_code_type : TaskType → Bool
is_code_type TaskType.code_fix = true
is_code_type TaskType.multi_file_refactor = true
is_code_type TaskType.test_and_implement = true
is_code_type TaskType.code_review = true
is_code_type _ = false

abbrev pub is_research : TaskType → Bool
is_research TaskType.parallel_research = true
is_research _ = false

abbrev pub has_paths : SubtaskSpec → Bool
has_paths s = not (is_empty s.allowed_paths)

unfoldable pub derive_task_requirements : TaskContract → TaskRequirements
derive_task_requirements task = record {
  filesystem_read =
      is_code_type task.task_type
      || (not (is_empty task.allowed_paths) || any has_paths task.subtasks);
  filesystem_write = is_write_type task.task_type;
  shell = is_write_type task.task_type;
  tests = is_write_type task.task_type;
  web = is_research task.task_type;
  background_execution = false;
  persistent_tasks = false;
  human_in_loop = false;
}

unfoldable pub intake_task : TaskContract → TaskIntake
unfolding derive_task_profile derive_task_requirements
intake_task task = record {
  profile = derive_task_profile task;
  requirements = derive_task_requirements task;
}
