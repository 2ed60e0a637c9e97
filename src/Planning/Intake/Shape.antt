-- ===== src/Planning/Intake/Shape.antt =====
-- The profile and the requirements of orchestrator/task_intake.py against the fields of the task.
use adaptive_agent_orchestra.Base.{
  ◌≡◌, ◌≢◌, ◌↔◌, ◌⊎◌, ◌≤◌, true, false, List, [], ◌∷◌, any, is_empty, filter, length, arith,
}
use adaptive_agent_orchestra.Contracts.Task.{TaskType, SubtaskSpec, TaskContract}
use adaptive_agent_orchestra.Contracts.Runtime.{Capability, ComplexityLevel, requires, offers}
use adaptive_agent_orchestra.Planning.Intake.{
  derive_task_profile, dependency_shape, execution_complexity, derive_task_requirements,
  has_dependencies,
}
use adaptive_agent_orchestra.Planning.Filter.{RuntimeCandidate, assess_candidate}
use adaptive_agent_orchestra.Planning.Filter.Eligibility.{assess_candidate-eligible_iff}

-- Some subtask names a dependency.
abbrev pub IsDependent : List SubtaskSpec → Type 0
IsDependent [] = ⊥
IsDependent (s ∷ rest) = (is_empty s.dependencies ≡ false) ⊎ IsDependent rest

-- The subtasks without a dependency.
abbrev pub ready : List SubtaskSpec → List SubtaskSpec
ready subtasks = filter (λ (s : SubtaskSpec). is_empty s.dependencies) subtasks

any-IsDependent :
    (subtasks : List SubtaskSpec) → (any has_dependencies subtasks ≡ true) ↔ IsDependent subtasks
any-IsDependent [] = ((λ h. cc), (λ h. absurd h))
any-IsDependent (s ∷ rest) = ground (arith, any-IsDependent rest)

-- A task's profile has cross-role dependencies exactly when some subtask names a dependency, and is
-- parallelizable exactly when two subtasks or more name none. Its execution complexity is high
-- exactly when some subtask names a dependency or there are three subtasks or more; it is low exactly
-- when there is at most one subtask, none names a dependency, the task is no multi-file refactor and
-- it has at most one allowed path.
pub derive_task_profile-execution_complexity :
    (task : TaskContract)
    → (((derive_task_profile task).cross_role_dependencies ≡ true) ↔ IsDependent task.subtasks)
      × (((derive_task_profile task).parallelizable ≡ true) ↔ (2 ≤ length (ready task.subtasks)))
      × (((derive_task_profile task).execution_complexity ≡ ComplexityLevel.high)
          ↔ (IsDependent task.subtasks ⊎ (3 ≤ length task.subtasks)))
      × (((derive_task_profile task).execution_complexity ≡ ComplexityLevel.low) ↔ (
          (length task.subtasks ≤ 1)
          × ¬ (IsDependent task.subtasks)
          × (task.task_type ≢ TaskType.multi_file_refactor)
          × (length task.allowed_paths ≤ 1)))
unfolding derive_task_profile dependency_shape execution_complexity
derive_task_profile-execution_complexity task = (
  ground (arith, any-IsDependent task.subtasks),
  ground arith,
  ground (arith, any-IsDependent task.subtasks),
  ground (arith, any-IsDependent task.subtasks),
)

-- The types of the tasks that change files.
abbrev pub IsWrite : TaskType → Type 0
IsWrite type =
    (type ≡ TaskType.code_fix)
    ⊎ ((type ≡ TaskType.multi_file_refactor) ⊎ (type ≡ TaskType.test_and_implement))

-- A runtime that the filter finds eligible for the requirements derived from a task can read and write
-- files and has a shell and the tests, if the task is a fix, a refactor or an implementation with
-- tests; and it has web access, if the task is research.
pub derive_task_requirements-eligible :
    (task : TaskContract) (candidate : RuntimeCandidate)
    → (assess_candidate (derive_task_requirements task) candidate).eligible ≡ true
    → (¬ (IsWrite task.task_type)
        ⊎ ((candidate.capabilities.filesystem_read ≡ true)
            × (candidate.capabilities.filesystem_write ≡ true)
            × (candidate.capabilities.shell ≡ true)
            × (candidate.capabilities.tests ≡ true)))
      × ((task.task_type ≢ TaskType.parallel_research) ⊎ (candidate.capabilities.web ≡ true))
unfolding derive_task_requirements requires offers
derive_task_requirements-eligible task candidate h =
    let covers =
      ((assess_candidate-eligible_iff (derive_task_requirements task) candidate).0 h).0 in
    ground (
      arith,
      covers Capability.filesystem_read,
      covers Capability.filesystem_write,
      covers Capability.shell,
      covers Capability.tests,
      covers Capability.web,
    )
