-- ===== src/Contracts/Subtasks.antt =====
-- `TaskContract.validate_subtask_plan` of contracts/task.py: unique ids and goals, known
-- dependencies, and a depth-first walk that raises on a cycle. The sets `visiting` and `visited` are
-- lists, newest first. Python's `str.casefold` is the parameter `casefold`.
pub mod Visit
pub mod Topological
pub mod Rank
pub mod Acyclic
use Prim.Native.Char.{Char, code}
use adaptive_agent_orchestra.Base.{
  ℕ, zero, suc, Bool, true, false, not, all, is_empty, Option, none, some, List, [], ◌∷◌, map,
  length, String, str_eq, str_append, is_space, contains, has_duplicates, Result, ok, err, Error,
  value_error, key_error, ◌>>◌, raise_if, if◌then◌else◌,
}
use adaptive_agent_orchestra.Contracts.Task.{SubtaskSpec}

-- How a call of `visit` ends: with the set `visited`, with an exception, or with no fuel left.
pub data Outcome : Type 0 where
  done : List String → Outcome
  cycle : Outcome
  missing_key : String → Outcome
  out_of_fuel : Outcome

-- `graph[node]`.
abbrev pub Graph : Type 0
Graph = String → Option (List String)

-- The walk goes on only from a call that returned.
abbrev pub and_then : Outcome → (List String → Outcome) → Outcome
and_then (done visited) next = next visited
and_then cycle next = cycle
and_then (missing_key k) next = missing_key k
and_then out_of_fuel next = out_of_fuel

-- `for dependency in …: visit(dependency)`.
pub visit_all : (List String → String → Outcome) → List String → List String → Outcome
visit_all call [] visited = done visited
visit_all call (node ∷ rest) visited =
    and_then (call visited node) (λ visited'. visit_all call rest visited')

-- The loop over `graph[node]`, then `visiting.remove(node); visited.add(node)`.
abbrev pub visit_dependencies :
    (List String → String → Outcome) → String → List String → Option (List String) → Outcome
visit_dependencies call node visited none = missing_key node
visit_dependencies call node visited (some dependencies) =
    and_then (visit_all call dependencies visited) (λ visited'. done (node ∷ visited'))

module _ (graph : Graph) where
  pub visit : ℕ → List String → List String → String → Outcome
  unfolding visit_all
  visit zero visiting visited node = out_of_fuel
  visit (suc fuel) visiting visited node =
      let inner = visit fuel (node ∷ visiting) in
      if contains node visiting
      then cycle
      else if contains node visited
      then done visited
      else visit_dependencies inner node visited (graph node)

-- `graph[subtask.id] = subtask.dependencies` for every subtask, as a lookup (the ids are unique).
unfoldable pub graph_of : List SubtaskSpec → Graph
graph_of [] node = none
graph_of (s ∷ rest) node = if str_eq node s.id then some s.dependencies else graph_of rest node

abbrev pub subtask_ids : List SubtaskSpec → List String
subtask_ids = map (λ (s : SubtaskSpec). s.id)

-- `" ".join(words)`.
abbrev join_words : List String → String
join_words [] = ""
join_words (w ∷ []) = w
join_words (w ∷ v ∷ rest) = str_append w (str_append " " (join_words (v ∷ rest)))

abbrev add_char : Char → List String → List String
add_char c [] = String.◌∷◌ c String.[] ∷ []
add_char c (w ∷ rest) = String.◌∷◌ c w ∷ rest

abbrev starts_space : String → Bool
starts_space String.[] = true
starts_space (String.◌∷◌ c s) = is_space (code c)

-- `text.split()`: the runs of characters that are no spaces.
pub split_words : String → List String
split_words String.[] = []
split_words (String.◌∷◌ c s) =
    let rest = split_words s in
    if is_space (code c)
    then rest
    else if starts_space s
    then String.◌∷◌ c String.[] ∷ rest
    else add_char c rest

-- The loop that checks the dependencies of every subtask, before the walk.
pub check_dependencies : List String → List SubtaskSpec → Result (Unit {0})
check_dependencies known [] = ok tt
check_dependencies known (s ∷ rest) =
    let next = check_dependencies known rest in
    raise_if (not (all (λ d. contains d known) s.dependencies))
      (value_error (str_append "unknown dependencies of subtask " s.id))
    >> (raise_if (contains s.id s.dependencies) (value_error "subtask dependency cycle detected")
        >> next)

-- The outcome of the walk as the method's.
abbrev pub raise_outcome : Outcome → Result (Unit {0})
raise_outcome (done visited) = ok tt
raise_outcome cycle = err (value_error "subtask dependency cycle detected")
raise_outcome (missing_key k) = err (key_error k)
raise_outcome out_of_fuel = err (value_error "out of fuel")

-- `for node in graph: visit(node)`. A walk visits a chain of known ids, so the number of subtasks
-- bounds its depth.
pub walk : List SubtaskSpec → Outcome
unfolding visit visit_all graph_of
walk subtasks =
    visit_all (visit (graph_of subtasks) (suc (length (subtask_ids subtasks))) [])
      (subtask_ids subtasks) []

module _ (casefold : String → String) where
  -- `" ".join(subtask.goal.casefold().split())`.
  pub normal_goal : SubtaskSpec → String
  unfolding split_words
  normal_goal s = join_words (split_words (casefold s.goal))

  -- What follows the early return for a task with no subtasks.
  pub check_plan : List SubtaskSpec → Result (Unit {0})
  check_plan subtasks =
      raise_if (has_duplicates (subtask_ids subtasks)) (value_error "subtasks must have unique ids")
      >> (raise_if (has_duplicates (map normal_goal subtasks))
            (value_error "subtasks must have unique goals")
          >> (check_dependencies (subtask_ids subtasks) subtasks >> raise_outcome (walk subtasks)))

  unfoldable pub validate_subtask_plan : List SubtaskSpec → Result (Unit {0})
  unfolding check_plan normal_goal check_dependencies walk
  validate_subtask_plan [] = ok tt
  validate_subtask_plan (s ∷ rest) = check_plan (s ∷ rest)
