-- ===== src/Routing/Rules.antt =====
-- The route of orchestrator/router.py, its conditions and its reasons.
use adaptive_agent_orchestra.Base.{
  ℕ, ◌≤◌, ◌≡◌, ◌↔◌, ◌⊎◌, Bool, true, false, ◌&&◌, is_empty, String, contains, arith,
}
use adaptive_agent_orchestra.Contracts.Task.{SuccessCriterion, TaskContext, TaskContract}
use adaptive_agent_orchestra.Routing.{
  Route, RuleRouter, task_type_value, estimate_input_tokens, delegation_signals, route_task,
}

-- A task is delegated exactly when it has subtasks, or when no sequential dependency forces it to one
-- run and its type is among the allowed ones, the independent subtasks reach their threshold, or the
-- estimated tokens reach theirs. A sequential dependency does not keep a task with subtasks from being
-- delegated. The complexity of the task and the number of affected modules do not
-- matter. A decision for either route has a reason.
pub route_task-delegation_iff :
    (context_text : TaskContext → String) (criterion_json : SuccessCriterion → String)
    (r : RuleRouter) (task : TaskContract) (independent : ℕ) (sequential : Bool) (modules : ℕ)
    → (((route_task context_text criterion_json r task independent sequential modules).route
          ≡ Route.delegation)
        ↔ ((is_empty task.subtasks ≡ false)
            ⊎ (((r.sequential_dep_forces_single && sequential) ≡ false)
                × ((contains (task_type_value task.task_type) r.allowed_task_types ≡ true)
                    ⊎ ((r.min_independent_subtasks ≤ independent)
                        ⊎ (r.min_estimated_input_tokens
                            ≤ estimate_input_tokens context_text criterion_json task))))))
      × (is_empty
            (route_task context_text criterion_json r task independent sequential modules).reasons
          ≡ false)
unfolding route_task delegation_signals
route_task-delegation_iff context_text criterion_json r task independent sequential modules =
    ground arith
