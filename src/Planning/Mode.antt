-- ===== src/Planning/Mode.antt =====
-- orchestrator/execution_mode_policy.py: how the selected runtime is to run the task.
pub mod Arrangement
use adaptive_agent_orchestra.Base.{
  Bool, true, false, ◌&&◌, ◌||◌, Option, none, some, is_some, List, [], ◌∷◌, String, str_eq,
  str_append, Result, if◌then◌else◌,
}
use adaptive_agent_orchestra.Contracts.Runtime.{RuntimeCapabilities, ComplexityLevel, TaskProfile}
use adaptive_agent_orchestra.Contracts.Selection.{RuntimeSelectionDecision}
use adaptive_agent_orchestra.Contracts.Plan.{
  ExecutionMode, native, direct, delegate, kanban, ExecutionModeDecisionCode, ExecutionModePolicy,
  ExecutionModeDecision, validate_mode_decision,
}

abbrev pub is_high : ComplexityLevel → Bool
is_high ComplexityLevel.high = true
is_high _ = false

unfoldable pub kanban_reason : TaskProfile → Option String
kanban_reason profile =
    if profile.persistent_execution
    then some "persistent_execution=True"
    else if profile.long_running
    then some "long_running=True"
    else if profile.cross_role_dependencies
    then some "cross_role_dependencies=True"
    else if is_high profile.execution_complexity && profile.parallelizable
    then some "execution_complexity=high and parallelizable=True"
    else none

-- The decision for a selected mode, with its one reason.
abbrev pub mode_decision :
    ExecutionModePolicy
    → String
    → ExecutionMode
    → ExecutionModeDecisionCode
    → String
    → ExecutionModeDecision
mode_decision policy runtime mode code reason = record {
  runtime = some runtime;
  mode = some mode;
  policy_version = policy.policy_version;
  decision_code = code;
  reasons = reason ∷ [];
}

pub decide :
    ExecutionModePolicy
    → String
    → ExecutionMode
    → ExecutionModeDecisionCode
    → String
    → Result ExecutionModeDecision
decide policy runtime mode code reason =
    validate_mode_decision (mode_decision policy runtime mode code reason)

-- The branches for `runtime == "hermes"`, on the reason for kanban (every reason is a non-empty text).
select_hermes_mode :
    TaskProfile
    → String
    → RuntimeCapabilities
    → ExecutionModePolicy
    → Option String
    → Result ExecutionModeDecision
select_hermes_mode profile runtime capabilities policy reason =
    if is_some reason && (policy.allow_kanban && capabilities.native_kanban)
    then decide policy runtime kanban ExecutionModeDecisionCode.selected_kanban (
        str_append "selected kanban execution because " (
          str_append (elim reason [ some r ↦ r | none ↦ "None" ])
            " and runtime supports native_kanban"))
    else if profile.parallelizable && (policy.allow_delegate && capabilities.native_delegation)
    then decide policy runtime delegate ExecutionModeDecisionCode.selected_delegate
        "selected delegate execution because task is parallelizable and runtime supports native_delegation"
    else decide policy runtime direct ExecutionModeDecisionCode.selected_direct
        (str_append "selected direct execution for runtime: " runtime)

-- The branches on the identity of the selected runtime.
select_mode_for :
    TaskProfile → String → RuntimeCapabilities → ExecutionModePolicy → Result ExecutionModeDecision
select_mode_for profile runtime capabilities policy =
    if str_eq runtime "codex" || str_eq runtime "claude_code"
    then decide policy runtime native ExecutionModeDecisionCode.selected_native
        (str_append "selected runtime owns its native execution topology: " runtime)
    else if str_eq runtime "hermes"
    then select_hermes_mode profile runtime capabilities policy (kanban_reason profile)
    else decide policy runtime direct ExecutionModeDecisionCode.selected_direct
        (str_append "selected generic direct execution for runtime: " runtime)

unfoldable pub select_execution_mode :
    TaskProfile
    → RuntimeSelectionDecision
    → RuntimeCapabilities
    → ExecutionModePolicy
    → Result ExecutionModeDecision
unfolding select_mode_for select_hermes_mode kanban_reason decide validate_mode_decision
select_execution_mode profile selection capabilities policy = elim selection.selected_runtime [
  | none ↦ validate_mode_decision (record {
    runtime = none;
    mode = none;
    policy_version = policy.policy_version;
    decision_code = ExecutionModeDecisionCode.no_selected_runtime;
    reasons = "no runtime was selected" ∷ [];
  })
  | some runtime ↦ select_mode_for profile runtime capabilities policy
]
