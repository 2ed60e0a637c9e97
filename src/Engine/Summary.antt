-- ===== src/Engine/Summary.antt =====
-- `Orchestrator._summary` of orchestrator/engine.py and the configuration of an `Orchestrator`. The
-- planning payload and the payload of observed runtime facts, which repeat values of other parts, are
-- left out of a summary.
use adaptive_agent_orchestra.Base.{
  ℕ, Bool, Option, none, some, List, [], ◌∷◌, String, contains, not, Result, ok, err, index_error,
}
use adaptive_agent_orchestra.Contracts.Runtime.{HealthStatus}
use adaptive_agent_orchestra.Contracts.Task.{TaskType, SuccessCriterion, TaskContext, TaskContract}
use adaptive_agent_orchestra.Budget.{BudgetConfig, ApprovalGate}
use adaptive_agent_orchestra.Budget.Policy.{ExecutionPolicy}
use adaptive_agent_orchestra.Delegation.{RunStatus, Usage}
use adaptive_agent_orchestra.Evals.{EvalStatus, EvalResult}
use adaptive_agent_orchestra.Routing.{RuleRouter, task_type_value}
use adaptive_agent_orchestra.State.{TaskRecord}
use adaptive_agent_orchestra.Engine.Action.{Action}

pub data RunOutcome : Type 0 where
  completed failed cancelled timeout abandoned : RunOutcome

pub record Summary : Type 0 where
  pub task_id : String
  pub run_id : Option String
  pub outcome : RunOutcome
  pub route : Option String
  pub retry_count : ℕ
  pub detail : String
  pub eval_result : Option EvalResult
  pub usage : Option Usage
  pub files_changed : Option (List String)
  pub verification_status : Option EvalStatus

-- The keyword arguments `eval_result`, `usage`, `files_changed` and `verification_status`.
pub record Extra : Type 0 where
  pub eval_result : Option EvalResult
  pub usage : Option Usage
  pub files_changed : Option (List String)
  pub verification_status : Option EvalStatus

abbrev pub no_extra : Extra
no_extra = record {
  eval_result = none;
  usage = none;
  files_changed = none;
  verification_status = none;
}

-- The argument `verification_status` is written over that of `eval_result`.
abbrev pub verified : Option EvalStatus → Option EvalResult → Option EvalStatus
verified (some status) result = some status
verified none (some result) = some result.overall
verified none none = none

abbrev pub summary_of : TaskRecord → RunOutcome → String → Extra → Summary
summary_of r outcome detail extra = record {
  task_id = r.task_id;
  run_id = r.run_id;
  outcome = outcome;
  route = r.route;
  retry_count = r.retry_count;
  detail = detail;
  eval_result = extra.eval_result;
  usage = extra.usage;
  files_changed = extra.files_changed;
  verification_status = verified extra.verification_status extra.eval_result;
}

-- `return summary(…)`, or what follows.
pub data Flow (A : Type 0) : Type 0 where
  done : Summary → Flow A
  go : A → Flow A

abbrev pub finish : {A : Type 0} → RunOutcome → String → Extra → Action (Flow A)
finish outcome detail extra s = (ok (done (summary_of s.task outcome detail extra)), s)

-- What follows, if there was no `return`.
abbrev pub continue_flow : {A B : Type 0} → (A → Action (Flow B)) → Flow A → Action (Flow B)
continue_flow next (done summary) s = (ok (done summary), s)
continue_flow next (go value) s = next value s

-- `TaskProfile` as the router reads it.
pub record TaskProfile : Type 0 where
  pub independent_subtask_count : ℕ
  pub has_sequential_dependency : Bool
  pub affected_module_count : ℕ

-- What is fixed for one `Orchestrator`: its profiler and router, whether it has a workspace manager and for which task types
-- that gives read-only work, its runtimes with their observed health, and its policies.
pub record Orchestrator : Type 0 where
  pub profile : TaskContract → TaskProfile
  pub context_text : TaskContext → String
  pub criterion_json : SuccessCriterion → String
  pub router : RuleRouter
  pub has_workspaces : Bool
  pub readonly_task_types : List String
  pub identities : List String
  pub runtime_priority : List String
  pub health : List (String × HealthStatus)
  pub policy : ExecutionPolicy
  pub approval : ApprovalGate
  pub budget_config : BudgetConfig
  pub planning_required : Bool

-- `WorkspaceManager.needs_worktree`.
abbrev pub needs_worktree : Orchestrator → TaskType → Bool
needs_worktree o type = not (contains (task_type_value type) o.readonly_task_types)

-- `xs[0]`.
abbrev pub first_of : List String → Result String
first_of [] = err (index_error "tuple index out of range")
first_of (x ∷ xs) = ok x

-- `_runtime_terminal_outcome`.
unfoldable pub runtime_terminal_outcome : RunStatus → Option RunOutcome
runtime_terminal_outcome RunStatus.completed = some RunOutcome.completed
runtime_terminal_outcome RunStatus.failed = some RunOutcome.failed
runtime_terminal_outcome RunStatus.cancelled = some RunOutcome.cancelled
runtime_terminal_outcome RunStatus.timeout = some RunOutcome.timeout
runtime_terminal_outcome _ = none
