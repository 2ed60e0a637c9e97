-- ===== src/Planning/Composer.antt =====
-- orchestrator/runtime_plan_composer.py: the plan from the completed decisions.
pub mod Fields
use adaptive_agent_orchestra.Base.{
  Bool, not, Option, none, some, ◌++◌, map, String, str_eq, str_append, is_blank, Result, err,
  value_error, ◌>>◌, raise_if,
}
use adaptive_agent_orchestra.Contracts.Selection.{RuntimeSelectionDecision}
use adaptive_agent_orchestra.Contracts.Plan.{
  ExecutionMode, ExecutionModeDecision, RuntimePlan, validate_plan,
}

-- The keyword arguments of `compose_runtime_plan`.
pub record PlanOptions : Type 0 where
  pub plan_policy_version : String
  pub planner : Option String
  pub reviewer : Option String
  pub approval_required : Bool

abbrev pub composed_plan :
    RuntimeSelectionDecision
    → ExecutionModeDecision
    → PlanOptions
    → String
    → ExecutionMode
    → RuntimePlan
composed_plan selection execution_mode options executor mode = record {
  planner = options.planner;
  executor = executor;
  execution_mode = mode;
  reviewer = options.reviewer;
  fallback = none;
  policy_version = options.plan_policy_version;
  selection_policy_version = some selection.policy_version;
  execution_mode_policy_version = some execution_mode.policy_version;
  reasons =
      map (str_append "selection: ") selection.reasons
      ++ map (str_append "execution_mode: ") execution_mode.reasons;
  approval_required = options.approval_required;
}

-- The guards on the two decisions, by what each of them holds.
compose_checked :
    RuntimeSelectionDecision
    → ExecutionModeDecision
    → PlanOptions
    → Option String
    → Option String
    → Option ExecutionMode
    → Result RuntimePlan
compose_checked selection execution_mode options none runtime mode =
    err (value_error "cannot compose RuntimePlan without selected runtime")
compose_checked selection execution_mode options (some selected) (some runtime) (some mode) =
    raise_if (not (str_eq selected runtime))
      (value_error "selection runtime must match execution mode runtime")
    >> validate_plan (composed_plan selection execution_mode options selected mode)
compose_checked selection execution_mode options (some selected) runtime mode =
    err (value_error "cannot compose RuntimePlan without execution mode")

unfoldable pub compose_runtime_plan :
    RuntimeSelectionDecision → ExecutionModeDecision → PlanOptions → Result RuntimePlan
unfolding compose_checked validate_plan
compose_runtime_plan selection execution_mode options =
    raise_if (is_blank options.plan_policy_version)
      (value_error "plan_policy_version must not be blank")
    >> compose_checked selection execution_mode options selection.selected_runtime
        execution_mode.runtime execution_mode.mode
