-- ===== src/Tests/Results.antt =====
-- The theorems on verdicts, delegations, routes and the registry at concrete inputs.
use adaptive_agent_orchestra.Base.{
  ℕ, ◌≤◌, true, false, ◌&&◌, ◌||◌, none, some, List, [], ◌∷◌, String, str_eq, ok, ◌≡◌, ◌≢◌, refl,
  ◌↔◌, ◌⊎◌, All, contains, has_duplicates, is_empty, is_blank,
}
use adaptive_agent_orchestra.Contracts.Task.{SuccessCriterion, TaskContext}
use adaptive_agent_orchestra.Evals.{EvalStatus, EvalCheck, aggregate}
use adaptive_agent_orchestra.Evals.Verdict.{Some, aggregate-pass_iff}
use adaptive_agent_orchestra.Delegation.{
  ChildStatus, ChildExecution, DelegationResult, OverallStatus, succeeded, overall_status,
  merge_retry_attempts, retain_current_attempt_identity,
}
use adaptive_agent_orchestra.Delegation.Attempts.{
  merge_retry_attempts_ok, retain_current_attempt_identity-attempt_run_ids,
}
use adaptive_agent_orchestra.Delegation.Outcomes.{overall_status_iff}
use adaptive_agent_orchestra.Routing.{
  Route, RuleRouter, task_type_value, estimate_input_tokens, route_task,
}
use adaptive_agent_orchestra.Routing.Rules.{route_task-delegation_iff}
use adaptive_agent_orchestra.Registry.{new_registry, resolve}
use adaptive_agent_orchestra.Registry.Resolve.{new_registry-resolve}
use adaptive_agent_orchestra.Tests.{fix_task}

abbrev checks : List EvalCheck
checks =
    record { name = "tests"; status = EvalStatus.pass; detail = ""; blocker = true }
    ∷ record { name = "lint"; status = EvalStatus.fail; detail = "E501"; blocker = false }
    ∷ []

aggregate-pass_iff_example :
    (((aggregate "t1" (some "r1") checks).overall ≡ EvalStatus.pass)
      ↔ All (λ c. (c.blocker ≡ false) ⊎ (c.status ≢ EvalStatus.fail)) checks)
    × (((aggregate "t1" (some "r1") checks).overall ≡ EvalStatus.fail)
        ↔ Some (λ c. (c.blocker ≡ true) × (c.status ≡ EvalStatus.fail)) checks)
aggregate-pass_iff_example = aggregate-pass_iff "t1" (some "r1") checks

-- The first attempt failed and its workspace is not safe; the second one completed.
abbrev first : ChildExecution
first = record {
  child_id = "c1";
  run_id = some "r1";
  attempt_run_ids = "r1" ∷ [];
  status = ChildStatus.failed;
  result = none;
  eval_result = none;
  input_tokens = none;
  output_tokens = none;
  retry_count = 0;
  workspace_safe_to_cleanup = false;
  lifecycle_error = some "still running";
}

abbrev second : ChildExecution
second = record {
  child_id = "c1";
  run_id = some "r2";
  attempt_run_ids = "r2" ∷ [];
  status = ChildStatus.completed;
  result = none;
  eval_result = some (aggregate "c1" (some "r2") checks);
  input_tokens = some 10;
  output_tokens = some 5;
  retry_count = 1;
  workspace_safe_to_cleanup = true;
  lifecycle_error = none;
}

merge_retry_attempts_ok_example :
    (e : ChildExecution) × (merge_retry_attempts first second ≡ ok e)
    × ((k : String)
        → contains k e.attempt_run_ids
          ≡ (contains k first.attempt_run_ids || contains k second.attempt_run_ids))
    × (has_duplicates e.attempt_run_ids ≡ false)
    × (e.child_id ≡ first.child_id)
    × (e.status ≡ second.status)
    × (e.workspace_safe_to_cleanup ≡ second.workspace_safe_to_cleanup)
merge_retry_attempts_ok_example = merge_retry_attempts_ok first second refl

retain_current_attempt_identity_example :
    (contains "r2" (retain_current_attempt_identity second).attempt_run_ids ≡ true)
    × ((k : String)
        → contains k (retain_current_attempt_identity second).attempt_run_ids
          ≡ (contains k second.attempt_run_ids || str_eq k "r2"))
    × (has_duplicates (retain_current_attempt_identity second).attempt_run_ids ≡ false)
retain_current_attempt_identity_example =
    retain_current_attempt_identity-attempt_run_ids second "r2" refl

abbrev delegation : DelegationResult
delegation = record { parent_task_id = "t1"; children = first ∷ second ∷ [] }

overall_status_iff_example :
    ((overall_status delegation ≡ OverallStatus.completed)
      ↔ All (λ e. succeeded e ≡ true) delegation.children)
    × ((overall_status delegation ≡ OverallStatus.failed)
        ↔ ((delegation.children ≢ []) × All (λ e. succeeded e ≡ false) delegation.children))
overall_status_iff_example = overall_status_iff delegation

abbrev router : RuleRouter
router = record {
  policy_version = "routing-v1.0";
  min_independent_subtasks = 2;
  min_estimated_input_tokens = 8000;
  allowed_task_types = "parallel_research" ∷ [];
  max_complexity = 2;
  max_affected_modules = 1;
  sequential_dep_forces_single = true;
}

abbrev context_text : TaskContext → String
context_text context = "{}"

abbrev criterion_json : SuccessCriterion → String
criterion_json criterion = "{}"

route_task-delegation_iff_example :
    (((route_task context_text criterion_json router fix_task 1 true 2).route ≡ Route.delegation)
      ↔ ((is_empty fix_task.subtasks ≡ false)
          ⊎ (((router.sequential_dep_forces_single && true) ≡ false)
              × ((contains (task_type_value fix_task.task_type) router.allowed_task_types ≡ true)
                  ⊎ ((router.min_independent_subtasks ≤ 1)
                      ⊎ (router.min_estimated_input_tokens
                          ≤ estimate_input_tokens context_text criterion_json fix_task))))))
    × (is_empty (route_task context_text criterion_json router fix_task 1 true 2).reasons ≡ false)
route_task-delegation_iff_example =
    route_task-delegation_iff context_text criterion_json router fix_task 1 true 2

abbrev entries : List (String × ℕ)
entries = ("hermes", 1) ∷ ("codex", 2) ∷ []

registered : new_registry entries ≡ ok entries
unfolding new_registry is_blank
registered = refl

new_registry-resolve_example : (entries ≡ entries) × (resolve entries "codex" ≡ ok 2)
new_registry-resolve_example =
    new_registry-resolve (("hermes", 1) ∷ []) "codex" 2 [] entries registered
