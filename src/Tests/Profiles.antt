-- ===== src/Tests/Profiles.antt =====
-- A task that its own profile routes, and the groups of its paths.
use adaptive_agent_orchestra.Base.{
  ◌+◌, ◌≤◌, ◌≡◌, ◌↔◌, ◌⊎◌, refl, Bool, true, false, ◌&&◌, ◌||◌, any, is_empty, is_blank, String,
  contains, str_eq, [], ◌∷◌, arith,
}
use adaptive_agent_orchestra.Contracts.Task.{TaskType, SuccessCriterion, TaskContext, TaskContract}
use adaptive_agent_orchestra.Routing.{Route, RuleRouter, task_type_value, estimate_input_tokens}
use adaptive_agent_orchestra.Routing.Profiler.{
  sequential_signals, at_least_one, collect_tops, count_path_groups, parallel_hits, profile,
  route_profiled, top_name,
}
use adaptive_agent_orchestra.Routing.Groups.{top_names, count_path_groups-length}
use adaptive_agent_orchestra.Routing.Profiled.{route_profiled-delegation_iff}
use adaptive_agent_orchestra.Tests.{fix_task}

abbrev goal_task : TaskContract
goal_task = record fix_task {
  task_type = TaskType.general;
  goal = "format in parallel and separately";
  allowed_paths = "src/parse" ∷ "**" ∷ "docs" ∷ " src* /print" ∷ [];
  subtasks = [];
}

abbrev as_written : String → String
as_written goal = goal

-- Two of the patterns match the goal.
abbrev matches : String → String → Bool
matches pattern goal =
    str_eq goal "format in parallel and separately"
    && (str_eq pattern "\\bparallel\\b" || str_eq pattern "\\bseparate(ly)?\\b")

abbrev goal_router : RuleRouter
goal_router = record {
  policy_version = "routing-v1.0";
  min_independent_subtasks = 2;
  min_estimated_input_tokens = 8000;
  allowed_task_types = "parallel_research" ∷ [];
  max_complexity = 2;
  max_affected_modules = 1;
  sequential_dep_forces_single = true;
}

abbrev no_context_text : TaskContext → String
no_context_text context = "{}"

abbrev no_criterion_json : SuccessCriterion → String
no_criterion_json criterion = "{}"

counted_groups : count_path_groups goal_task.allowed_paths ≡ 2
unfolding count_path_groups collect_tops top_name is_blank
counted_groups = refl

estimated_children :
    (profile as_written matches no_context_text no_criterion_json
      goal_task).independent_subtask_count
    ≡ 3
unfolding profile
estimated_children = refl

same_groups :
    (k : String) → contains k ("docs" ∷ "src" ∷ []) ≡ contains k (top_names goal_task.allowed_paths)
unfolding top_name is_blank
same_groups k = ground arith

count_path_groups-length_example : count_path_groups goal_task.allowed_paths ≡ at_least_one 2
count_path_groups-length_example =
    count_path_groups-length goal_task.allowed_paths ("docs" ∷ "src" ∷ []) refl same_groups

route_profiled-delegation_iff_example :
    ((route_profiled as_written matches no_context_text no_criterion_json goal_router
        goal_task).route
      ≡ Route.delegation)
    ↔ ((is_empty goal_task.subtasks ≡ false)
        ⊎ (((goal_router.sequential_dep_forces_single
                && any (λ p. matches p (as_written goal_task.goal)) sequential_signals)
              ≡ false)
            × ((contains (task_type_value goal_task.task_type) goal_router.allowed_task_types
                  ≡ true)
                ⊎ (((goal_router.min_independent_subtasks ≤ 1)
                      ⊎ ((1 ≤ parallel_hits as_written matches goal_task)
                          × (goal_router.min_independent_subtasks
                              ≤ parallel_hits as_written matches goal_task + 1)))
                    ⊎ (goal_router.min_estimated_input_tokens
                        ≤ estimate_input_tokens no_context_text no_criterion_json goal_task)))))
route_profiled-delegation_iff_example =
    route_profiled-delegation_iff as_written matches no_context_text no_criterion_json goal_router
      goal_task
