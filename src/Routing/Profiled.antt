-- ===== src/Routing/Profiled.antt =====
-- The route that orchestrator/engine.py takes by the profile of orchestrator/profiler.py.
use adaptive_agent_orchestra.Base.{
  ℕ, ◌+◌, ◌≤◌, ◌≡◌, ◌↔◌, ◌⊎◌, refl, Bool, true, false, ◌&&◌, any, Bool-cases, inl, inr, is_empty,
  String, contains, arith,
}
use adaptive_agent_orchestra.Contracts.Task.{SuccessCriterion, TaskContext, TaskContract}
use adaptive_agent_orchestra.Routing.{
  Route, RuleRouter, task_type_value, estimate_input_tokens, route_task,
}
use adaptive_agent_orchestra.Routing.Rules.{route_task-delegation_iff}
use adaptive_agent_orchestra.Routing.Profiler.{
  sequential_signals, parallel_hits, estimated_subtasks, route_profiled, profile, count_path_groups,
}

estimated_subtasks-le :
    (k hits : ℕ) → (k ≤ estimated_subtasks hits) ↔ ((k ≤ 1) ⊎ ((1 ≤ hits) × (k ≤ hits + 1)))
estimated_subtasks-le k hits = ground arith

by_count :
    {P Q R S C D T : Type 0}
    → (P ↔ (Q ⊎ (R × (S ⊎ (C ⊎ T)))))
    → (C ↔ D)
    → (P ↔ (Q ⊎ (R × (S ⊎ (D ⊎ T)))))
by_count rule count = ground arith

-- Routed by its own profile, a task is delegated exactly when (1) it has subtasks, whether
-- or not they depend on each other, or (2) no sequential
-- pattern matches its goal or the router does not force such a task to one run, and one of these
-- holds: its type is among the allowed ones; the threshold of independent subtasks is at most one;
-- some parallel pattern matches the goal and the threshold is at most one more than the number of the
-- patterns that do; the estimated tokens reach their threshold.
pub route_profiled-delegation_iff :
    (lower : String → String) (finds : String → String → Bool) (context_text : TaskContext → String)
    (criterion_json : SuccessCriterion → String) (r : RuleRouter) (task : TaskContract)
    → ((route_profiled lower finds context_text criterion_json r task).route ≡ Route.delegation) ↔ (
        (is_empty task.subtasks ≡ false)
        ⊎ (((r.sequential_dep_forces_single
                && any (λ p. finds p (lower task.goal)) sequential_signals)
              ≡ false)
            × ((contains (task_type_value task.task_type) r.allowed_task_types ≡ true)
                ⊎ (((r.min_independent_subtasks ≤ 1)
                      ⊎ ((1 ≤ parallel_hits lower finds task)
                          × (r.min_independent_subtasks ≤ parallel_hits lower finds task + 1)))
                    ⊎ (r.min_estimated_input_tokens
                        ≤ estimate_input_tokens context_text criterion_json task)))))
unfolding route_profiled profile route_task
route_profiled-delegation_iff lower finds context_text criterion_json r task =
    elim (Bool-cases (is_empty task.subtasks)) [
      | inl none_given ↦
          let rule =
            (route_task-delegation_iff context_text criterion_json r task
              (estimated_subtasks (parallel_hits lower finds task))
              (any (λ p. finds p (lower task.goal)) sequential_signals)
              (count_path_groups task.allowed_paths)).0 in
          let count =
            estimated_subtasks-le r.min_independent_subtasks (parallel_hits lower finds task) in
          rw none_given (by_count (rw none_given at rule) count)
      | inr given ↦ rw given ((λ _. inl refl), (λ _. refl))
    ]
