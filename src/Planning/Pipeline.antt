-- ===== src/Planning/Pipeline.antt =====
-- orchestrator/planning_pipeline.py: from the task's shape and the supplied candidates to a plan.
pub mod Matching
pub mod Evidence
pub mod Sound
pub mod Total
use adaptive_agent_orchestra.Base.{
  Bool, true, false, ◌&&◌, ◌||◌, not, Option, none, some, is_some, List, [], ◌∷◌, filter, String,
  str_eq, Result, ok, err, value_error, ◌>>=◌, ◌>>◌, raise_if, if◌then◌else◌,
}
use adaptive_agent_orchestra.Contracts.Runtime.{TaskRequirements, TaskProfile}
use adaptive_agent_orchestra.Contracts.Selection.{RuntimeSelectionPolicy, RuntimeSelectionDecision}
use adaptive_agent_orchestra.Contracts.Plan.{
  ExecutionMode, ExecutionModePolicy, ExecutionModeDecision, RuntimePlan, mode_eq, is_name,
}
use adaptive_agent_orchestra.Planning.Filter.{
  RuntimeCandidate, CandidateAssessment, assess_candidates,
}
use adaptive_agent_orchestra.Planning.Selector.{select_runtime}
use adaptive_agent_orchestra.Planning.Mode.{select_execution_mode}
use adaptive_agent_orchestra.Planning.Hmc.{Council, HmcPlanningContext}
use adaptive_agent_orchestra.Planning.Composer.{PlanOptions, compose_runtime_plan}

-- The arguments of `plan_runtime`, but for the HMC context.
pub record PlanningInput : Type 0 where
  pub task_profile : TaskProfile
  pub requirements : TaskRequirements
  pub candidates : List RuntimeCandidate
  pub selection_policy : RuntimeSelectionPolicy
  pub execution_mode_policy : ExecutionModePolicy
  pub options : PlanOptions

-- `[candidate for candidate in candidates if candidate.runtime == selected]`.
abbrev pub matching : String → List RuntimeCandidate → List RuntimeCandidate
matching runtime = filter (λ (c : RuntimeCandidate). str_eq c.runtime runtime)

module _ (council : Council) where
  pub record PlanningResult : Type 0 where
    pub assessments : List CandidateAssessment
    pub selection : RuntimeSelectionDecision
    pub mode : Option ExecutionModeDecision
    pub plan : Option RuntimePlan
    pub hmc_context : Option (HmcPlanningContext council)

  -- `hmc_context.planner_id if hmc_context is not None else planner`.
  abbrev pub planner_of : Option (HmcPlanningContext council) → Option String → Option String
  planner_of none planner = planner
  planner_of (some context) planner = some context.planner_id

  abbrev pub differs_from_context : Option (HmcPlanningContext council) → Option String → Bool
  differs_from_context none planner = false
  differs_from_context (some context) planner = not (is_name planner context.planner_id)

  -- The checks of `validate_consistency` behind the match of the runtimes.
  check_mode :
      String
      → Option ExecutionMode
      → Option RuntimePlan
      → Option (HmcPlanningContext council)
      → Result (Unit {0})
  check_mode runtime none plan context =
      raise_if (is_some plan)
        (value_error "unsupported/no execution mode must not create RuntimePlan")
  check_mode runtime (some mode) none context =
      err (value_error "selected executable mode requires RuntimePlan")
  check_mode runtime (some mode) (some plan) context = do
    raise_if (not (str_eq plan.executor runtime))
        (value_error "RuntimePlan executor must match selected runtime")
    raise_if (not (mode_eq plan.execution_mode mode))
        (value_error "RuntimePlan mode must match execution-mode decision")
    raise_if (differs_from_context context plan.planner)
        (value_error "RuntimePlan planner must match HMC planning provenance")

  check_consistency :
      Option String
      → Option ExecutionModeDecision
      → Option RuntimePlan
      → Option (HmcPlanningContext council)
      → Result (Unit {0})
  check_consistency none mode plan context =
      raise_if (is_some mode || is_some plan)
        (value_error "no runtime selection requires mode=None and plan=None")
  check_consistency (some runtime) none plan context =
      raise_if (is_some plan) (value_error "plan requires an execution-mode decision")
  check_consistency (some runtime) (some mode) plan context =
      raise_if (not (is_name mode.runtime runtime))
        (value_error "mode runtime must match selected runtime")
      >> check_mode runtime mode.mode plan context

  -- `PlanningResult(…)` with its validator.
  pub validate_result : PlanningResult → Result PlanningResult
  unfolding check_consistency check_mode
  validate_result r =
      check_consistency r.selection.selected_runtime r.mode r.plan r.hmc_context >> ok r

  module _ (input : PlanningInput) (context : Option (HmcPlanningContext council)) where
    open input use {
      task_profile, requirements, candidates, selection_policy, execution_mode_policy, options,
    }

    abbrev pub planning_result :
        RuntimeSelectionDecision
        → Option ExecutionModeDecision
        → Option RuntimePlan
        → PlanningResult
    planning_result selection mode plan = record {
      assessments = assess_candidates requirements candidates;
      selection = selection;
      mode = mode;
      plan = plan;
      hmc_context = context;
    }

    -- The keyword arguments of `compose_runtime_plan`.
    abbrev pub plan_options : PlanOptions
    plan_options = record options { planner = planner_of context options.planner }

    -- What follows the decision on the mode.
    plan_mode :
        RuntimeSelectionDecision
        → ExecutionModeDecision
        → Option ExecutionMode
        → Result PlanningResult
    plan_mode selection mode none = validate_result (planning_result selection (some mode) none)
    plan_mode selection mode (some _) = do
      plan ← compose_runtime_plan selection mode plan_options
      validate_result (planning_result selection (some mode) (some plan))

    -- The candidates that match the selected runtime: exactly one is wanted.
    plan_matches : RuntimeSelectionDecision → List RuntimeCandidate → Result PlanningResult
    plan_matches selection (candidate ∷ []) = do
      mode ←
          select_execution_mode task_profile selection candidate.capabilities execution_mode_policy
      plan_mode selection mode mode.mode
    plan_matches selection _ =
        err (value_error "selected runtime must resolve to exactly one supplied candidate")

    plan_selected : RuntimeSelectionDecision → Option String → Result PlanningResult
    plan_selected selection none = validate_result (planning_result selection none none)
    plan_selected selection (some runtime) = plan_matches selection (matching runtime candidates)

    unfoldable pub plan_runtime : Result PlanningResult
    unfolding plan_selected plan_matches plan_mode validate_result
    plan_runtime = do
      selection ← select_runtime (assess_candidates requirements candidates) selection_policy
      plan_selected selection selection.selected_runtime
