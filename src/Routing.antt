-- ===== src/Routing.antt =====
-- orchestrator/router.py: whether a task is delegated. The text of a dict and the JSON of a success
-- criterion, which Python and pydantic print, are the parameters `context_text` and `criterion_json`.
-- A reason is a value with the numbers that its text shows.
pub mod Rules
pub mod Profiler
pub mod Groups
pub mod Profiled
use Prim.Native.String.{String}
use adaptive_agent_orchestra.Base.{
  ℕ, zero, suc, ◌*◌, ◌/◌, Bool, true, false, ◌&&◌, leb, List, [], ◌∷◌, ◌++◌, map, is_empty, length,
  str_append, contains, if◌then◌else◌,
}
use adaptive_agent_orchestra.Contracts.Task.{
  TaskType, SuccessCriterion, Criterion, text, structured, TaskContext, TaskContract,
}

pub data Route : Type 0 where
  single delegation : Route

pub data RoutingReason : Type 0 where
  explicit_subtasks : ℕ → RoutingReason
  dependency_edges sequential_dependency no_triggers : RoutingReason
  allowed_task_type : String → RoutingReason
  independent_subtasks estimated_input_tokens : (value threshold : ℕ) → RoutingReason
  small_task : (complexity max_complexity modules max_modules : ℕ) → RoutingReason

pub record RoutingDecision : Type 0 where
  pub route : Route
  pub reasons : List RoutingReason
  pub policy_version : String

-- `RuleRouter.__init__`: what it reads from the policy file.
pub record RuleRouter : Type 0 where
  pub policy_version : String
  pub min_independent_subtasks : ℕ
  pub min_estimated_input_tokens : ℕ
  pub allowed_task_types : List String
  pub max_complexity : ℕ
  pub max_affected_modules : ℕ
  pub sequential_dep_forces_single : Bool

abbrev pub task_type_value : TaskType → String
task_type_value TaskType.code_fix = "code_fix"
task_type_value TaskType.multi_file_refactor = "multi_file_refactor"
task_type_value TaskType.parallel_research = "parallel_research"
task_type_value TaskType.test_and_implement = "test_and_implement"
task_type_value TaskType.code_review = "code_review"
task_type_value TaskType.general = "general"

-- `len(text)`.
unfoldable pub text_length : String → ℕ
text_length String.[] = 0
text_length (String.◌∷◌ c s) = suc (text_length s)

-- `" ".join(texts)`.
abbrev pub join_spaces : List String → String
join_spaces [] = ""
join_spaces (x ∷ []) = x
join_spaces (x ∷ y ∷ rest) = str_append x (str_append " " (join_spaces (y ∷ rest)))

-- `if condition: signals.append(reason)`.
abbrev pub signal : Bool → RoutingReason → List RoutingReason
signal true reason = reason ∷ []
signal false reason = []

module _ (context_text : TaskContext → String) (criterion_json : SuccessCriterion → String) where
  -- `_criterion_estimation_text`.
  abbrev pub criterion_estimation_text : Criterion → String
  criterion_estimation_text (text t) = t
  criterion_estimation_text (structured c) = criterion_json c

  -- `int(len(text) / 3.5)`: seven halves go into the length as often as seven into its double.
  unfoldable pub estimate_input_tokens : TaskContract → ℕ
  unfolding text_length
  estimate_input_tokens task =
      text_length (
        str_append task.goal (
          str_append (context_text task.context)
            (join_spaces (map criterion_estimation_text task.success_criteria))))
      * 2
      / 7

  -- `delegation_signals`.
  unfoldable pub delegation_signals : RuleRouter → TaskContract → ℕ → List RoutingReason
  delegation_signals r task independent_subtask_count =
      signal (contains (task_type_value task.task_type) r.allowed_task_types)
        (allowed_task_type (task_type_value task.task_type))
      ++ (signal (leb r.min_independent_subtasks independent_subtask_count)
            (independent_subtasks independent_subtask_count r.min_independent_subtasks)
          ++ signal (leb r.min_estimated_input_tokens (estimate_input_tokens task))
              (estimated_input_tokens (estimate_input_tokens task) r.min_estimated_input_tokens))

  -- What follows the delegation triggers.
  abbrev pub route_single : RuleRouter → TaskContract → ℕ → RoutingDecision
  route_single r task affected_module_count = record {
    route = single;
    reasons =
        if leb task.complexity r.max_complexity && leb affected_module_count r.max_affected_modules
        then small_task task.complexity r.max_complexity affected_module_count
            r.max_affected_modules
          ∷ []
        else no_triggers ∷ [];
    policy_version = r.policy_version;
  }

  abbrev pub route_by_signals : RuleRouter → TaskContract → ℕ → List RoutingReason → RoutingDecision
  route_by_signals r task affected_module_count signals =
      if is_empty signals
      then route_single r task affected_module_count
      else record { route = delegation; reasons = signals; policy_version = r.policy_version }

  unfoldable pub route_task : RuleRouter → TaskContract → ℕ → Bool → ℕ → RoutingDecision
  unfolding delegation_signals
  route_task r task independent_subtask_count has_sequential_dependency affected_module_count =
      if is_empty task.subtasks
      then (if r.sequential_dep_forces_single && has_sequential_dependency
          then record {
            route = single;
            reasons = sequential_dependency ∷ [];
            policy_version = r.policy_version;
          }
          else route_by_signals r task affected_module_count
              (delegation_signals r task independent_subtask_count))
      else record {
        route = delegation;
        reasons =
            explicit_subtasks (length task.subtasks)
            ∷ signal has_sequential_dependency dependency_edges;
        policy_version = r.policy_version;
      }
