-- ===== src/Routing/Profiler.antt =====
-- orchestrator/profiler.py, and how orchestrator/engine.py routes by it. What `str.lower` makes of a
-- goal and what `re.search` finds in it are the parameters `lower` and `finds`.
use Prim.Native.Char.{code}
use adaptive_agent_orchestra.Base.{
  add_new, ℕ, ◌+◌, Bool, true, false, not, ◌&&◌, leb, ◌==◌, is_blank, is_space, List, [], ◌∷◌,
  filter, any, is_empty, length, String, if◌then◌else◌,
}
use adaptive_agent_orchestra.Contracts.Task.{
  SuccessCriterion, SubtaskSpec, TaskContext, TaskContract,
}
use adaptive_agent_orchestra.Routing.{
  RuleRouter, RoutingDecision, estimate_input_tokens, route_task,
}

pub record TaskProfile : Type 0 where
  pub estimated_input_tokens : ℕ
  pub independent_subtask_count : ℕ
  pub has_sequential_dependency : Bool
  pub affected_module_count : ℕ

-- `_PARALLEL_SIGNALS`.
abbrev pub parallel_signals : List String
parallel_signals =
    "\\band\\b.*\\band\\b" ∷ "\\bseparate(ly)?\\b" ∷ "\\bindepend(ent|ently)?\\b" ∷ "\\bparallel\\b"
    ∷ "\\bsimultaneous(ly)?\\b" ∷ "\\b(also|additionally|furthermore)\\b"
    ∷ "(?i)both\\s+\\w+\\s+and\\s+\\w+" ∷ []

-- `_SEQUENTIAL_SIGNALS`.
abbrev pub sequential_signals : List String
sequential_signals =
    "\\bafter\\b" ∷ "\\bthen\\b" ∷ "\\bfirst\\b.+\\bthen\\b"
    ∷ "\\bonce\\b.+\\b(done|complete|finished)\\b" ∷ "\\bdepend(s)? on\\b"
    ∷ "\\bfollow(ing|ed by)?\\b" ∷ []

-- `p.split("/")[0]`.
abbrev pub before_slash : String → String
before_slash String.[] = String.[]
before_slash (String.◌∷◌ c s) =
    let rest = before_slash s in if code c == 47 then String.[] else String.◌∷◌ c rest

-- `.replace("**", "")`, from the left, without overlaps.
abbrev pub without_double_stars : String → String
without_double_stars String.[] = String.[]
without_double_stars (String.◌∷◌ c String.[]) = String.◌∷◌ c String.[]
without_double_stars (String.◌∷◌ c (String.◌∷◌ d s)) =
    let after_both = without_double_stars s in
    let after_one = without_double_stars (String.◌∷◌ d s) in
    if code c == 42 && code d == 42 then after_both else String.◌∷◌ c after_one

-- `.replace("*", "")`.
abbrev pub without_stars : String → String
without_stars String.[] = String.[]
without_stars (String.◌∷◌ c s) =
    let rest = without_stars s in if code c == 42 then rest else String.◌∷◌ c rest

-- `.lstrip()`.
abbrev pub strip_left : String → String
strip_left String.[] = String.[]
strip_left (String.◌∷◌ c s) = if is_space (code c) then strip_left s else String.◌∷◌ c s

-- `.rstrip()`.
abbrev pub strip_right : String → String
unfolding is_blank
strip_right String.[] = String.[]
strip_right (String.◌∷◌ c s) =
    if is_blank (String.◌∷◌ c s) then String.[] else String.◌∷◌ c (strip_right s)

-- `top`, for one path.
unfoldable pub top_name : String → String
unfolding is_blank
top_name path = strip_right (strip_left (without_stars (without_double_stars (before_slash path))))

-- `if top`.
abbrev pub has_text : String → Bool
has_text String.[] = false
has_text (String.◌∷◌ _ _) = true

-- `if top: tops.add(top)`, of a set as the list of its items.
abbrev pub add_top : List String → String → List String
add_top tops top = if has_text top then add_new tops top else tops

-- `for p in allowed_paths`, on the set so far.
unfoldable pub collect_tops : List String → List String → List String
unfolding top_name
collect_tops tops [] = tops
collect_tops tops (path ∷ paths) = collect_tops (add_top tops (top_name path)) paths

-- `max(n, 1)`.
abbrev pub at_least_one : ℕ → ℕ
at_least_one n = if leb n 1 then 1 else n

unfoldable pub count_path_groups : List String → ℕ
unfolding collect_tops
count_path_groups allowed_paths =
    if is_empty allowed_paths then 1 else at_least_one (length (collect_tops [] allowed_paths))

-- `max(1, parallel_hits + (1 if parallel_hits else 0))`.
abbrev pub estimated_subtasks : ℕ → ℕ
estimated_subtasks hits = at_least_one (hits + (if leb 1 hits then 1 else 0))

abbrev pub has_dependencies : SubtaskSpec → Bool
has_dependencies subtask = not (is_empty subtask.dependencies)

module _ (lower : String → String) (finds : String → String → Bool) where
  -- How many of the patterns `re.search` finds.
  abbrev pub parallel_hits : TaskContract → ℕ
  parallel_hits task = length (filter (λ p. finds p (lower task.goal)) parallel_signals)

  module _ (context_text : TaskContext → String) (criterion_json : SuccessCriterion → String) where
    -- `TaskProfiler.profile`.
    unfoldable pub profile : TaskContract → TaskProfile
    unfolding count_path_groups
    profile task = record {
      estimated_input_tokens = estimate_input_tokens context_text criterion_json task;
      independent_subtask_count =
          if is_empty task.subtasks
          then estimated_subtasks (parallel_hits task)
          else length task.subtasks;
      has_sequential_dependency =
          if is_empty task.subtasks
          then any (λ p. finds p (lower task.goal)) sequential_signals
          else any has_dependencies task.subtasks;
      affected_module_count = count_path_groups task.allowed_paths;
    }

    -- The call of the router in `_execute`, on the profile of the task.
    unfoldable pub route_profiled : RuleRouter → TaskContract → RoutingDecision
    unfolding profile
    route_profiled r task =
        let p = profile task in
        route_task context_text criterion_json r task p.independent_subtask_count
          p.has_sequential_dependency p.affected_module_count
