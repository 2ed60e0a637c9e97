-- ===== src/Delegation.antt =====
-- contracts/delegation.py and the results of contracts/result.py, with `_child_for`,
-- `_merge_retry_attempts` and `_aggregate` of orchestrator/delegation_executor.py. Of `AgentResult`
-- the fields that a delegation reads are here. Costs, which are floats, and times are left out.
pub mod Attempts
pub mod Outcomes
pub mod Dag
use adaptive_agent_orchestra.Base.{
  add_new, add_all, ℕ, ◌+◌, ◌-◌, Bool, true, false, ◌&&◌, ◌==◌, ltb, not, Option, none, some, List,
  [], ◌∷◌, ◌++◌, map, filter, is_empty, length, String, str_eq, str_append, contains, Result, ok,
  err, value_error, key_error, if◌then◌else◌,
}
use adaptive_agent_orchestra.Contracts.Plan.{is_name}
use adaptive_agent_orchestra.Contracts.Task.{TaskContract}
use adaptive_agent_orchestra.Evals.{EvalResult, is_pass}

pub data RunStatus : Type 0 where
  pending running completed failed cancelled timeout approval_required : RunStatus

pub record Usage : Type 0 where
  pub input_tokens : Option ℕ
  pub output_tokens : Option ℕ
  pub cached_tokens : Option ℕ
  pub total_tokens : Option ℕ

pub record AgentResult : Type 0 where
  pub run_id : Option String
  pub task_id : String
  pub status : RunStatus
  pub usage : Option Usage
  pub files_changed : Option (List String)
  pub summary : Option String
  pub error : Option String

pub data ChildStatus : Type 0 where
  completed failed cancelled timeout : ChildStatus

pub record ChildExecution : Type 0 where
  pub child_id : String
  pub run_id : Option String
  pub attempt_run_ids : List String
  pub status : ChildStatus
  pub result : Option AgentResult
  pub eval_result : Option EvalResult
  pub input_tokens : Option ℕ
  pub output_tokens : Option ℕ
  pub retry_count : ℕ
  pub workspace_safe_to_cleanup : Bool
  pub lifecycle_error : Option String

-- `_sum_observed`.
unfoldable pub sum_observed : Option ℕ → Option ℕ → Option ℕ
sum_observed none right = none
sum_observed (some left) none = none
sum_observed (some left) (some right) = some (left + right)

-- `Usage.__add__`.
unfoldable pub usage_add : Usage → Usage → Usage
unfolding sum_observed
usage_add u v = record {
  input_tokens = sum_observed u.input_tokens v.input_tokens;
  output_tokens = sum_observed u.output_tokens v.output_tokens;
  cached_tokens = sum_observed u.cached_tokens v.cached_tokens;
  total_tokens = sum_observed u.total_tokens v.total_tokens;
}

-- `list(dict.fromkeys(xs))`.
unfoldable pub from_keys : List String → List String
from_keys = add_all []

abbrev pub add_run : List String → Option String → List String
add_run seen none = seen
add_run seen (some run_id) = add_new seen run_id

unfoldable pub retain_current_attempt_identity : ChildExecution → ChildExecution
unfolding from_keys
retain_current_attempt_identity e = record e {
  attempt_run_ids = add_run (from_keys e.attempt_run_ids) e.run_id;
}

abbrev pub is_completed : ChildStatus → Bool
is_completed ChildStatus.completed = true
is_completed _ = false

abbrev pub passed : Option EvalResult → Bool
passed none = false
passed (some r) = is_pass r.overall

unfoldable pub succeeded : ChildExecution → Bool
succeeded e = is_completed e.status && passed e.eval_result

unfoldable pub child_usage : ChildExecution → Option Usage
child_usage e = elim e.input_tokens [
  | none ↦ none
  | some input ↦ elim e.output_tokens [
    | none ↦ none
    | some output ↦ some (record {
      input_tokens = some input;
      output_tokens = some output;
      cached_tokens = none;
      total_tokens = some (input + output);
    })
  ]
]

pub record DelegationResult : Type 0 where
  pub parent_task_id : String
  pub children : List ChildExecution

unfoldable pub successful_children : DelegationResult → List ChildExecution
successful_children r = filter succeeded r.children

unfoldable pub failed_children : DelegationResult → List ChildExecution
failed_children r = filter (λ e. not (succeeded e)) r.children

-- The properties `successful` and `failed`.
unfoldable pub successful_count : DelegationResult → ℕ
unfolding successful_children
successful_count r = length (successful_children r)

unfoldable pub failed_count : DelegationResult → ℕ
unfolding successful_count
failed_count r = length r.children - successful_count r

-- `None if any(value is None …) else sum(values)`.
abbrev pub total : List (Option ℕ) → Option ℕ
total [] = some 0
total (none ∷ rest) = none
total (some n ∷ rest) = elim (total rest) [ none ↦ none | some m ↦ some (n + m) ]

unfoldable pub total_input_tokens : DelegationResult → Option ℕ
total_input_tokens r = total (map (λ (e : ChildExecution). e.input_tokens) r.children)

unfoldable pub total_output_tokens : DelegationResult → Option ℕ
total_output_tokens r = total (map (λ (e : ChildExecution). e.output_tokens) r.children)

pub data OverallStatus : Type 0 where
  completed partial_failed failed : OverallStatus

unfoldable pub overall_status : DelegationResult → OverallStatus
unfolding failed_count successful_count
overall_status r =
    if failed_count r == 0
    then OverallStatus.completed
    else if ltb 0 (successful_count r)
    then OverallStatus.partial_failed
    else OverallStatus.failed

-- `DelegationResult.get_child`, over the children left.
unfoldable pub get_child : String → List ChildExecution → Option ChildExecution
get_child child_id [] = none
get_child child_id (e ∷ rest) =
    let later = get_child child_id rest in if str_eq e.child_id child_id then some e else later

-- `_child_for`, over the contracts left.
unfoldable pub child_for : ChildExecution → List TaskContract → Result TaskContract
child_for e [] = err (key_error (str_append "No child contract found for child_id=" e.child_id))
child_for e (c ∷ rest) =
    let later = child_for e rest in if is_name c.context.child_id e.child_id then ok c else later

-- `_merge_retry_attempts`.
unfoldable pub merge_retry_attempts : ChildExecution → ChildExecution → Result ChildExecution
unfolding from_keys
merge_retry_attempts previous current =
    if str_eq previous.child_id current.child_id
    then ok (record current {
      attempt_run_ids = from_keys (previous.attempt_run_ids ++ current.attempt_run_ids);
    })
    else err (value_error "cannot merge retry provenance for different children")

-- ## `_aggregate`

abbrev pub files_of : List ChildExecution → List String
files_of [] = []
files_of (e ∷ rest) = elim e.result [
  | none ↦ files_of rest
  | some r ↦ elim r.files_changed [ none ↦ files_of rest | some files ↦ files ++ files_of rest ]
]

abbrev pub add_summary : String → Option String → List String → List String
add_summary child_id none rest = rest
add_summary child_id (some summary) rest =
    if str_eq summary ""
    then rest
    else str_append "[" (str_append child_id (str_append "] " summary)) ∷ rest

abbrev pub summaries_of : List ChildExecution → List String
summaries_of [] = []
summaries_of (e ∷ rest) = elim e.result [
  | none ↦ summaries_of rest
  | some r ↦ add_summary e.child_id r.summary (summaries_of rest)
]

abbrev pub join_lines : List String → String
join_lines [] = ""
join_lines (x ∷ []) = x
join_lines (x ∷ y ∷ rest) = str_append x (str_append "\n" (join_lines (y ∷ rest)))

abbrev pub aggregate_usage : Option ℕ → Option ℕ → Option Usage
aggregate_usage none output = none
aggregate_usage (some input) none = none
aggregate_usage (some input) (some output) = some (record {
  input_tokens = some input;
  output_tokens = some output;
  cached_tokens = none;
  total_tokens = some (input + output);
})

abbrev pub aggregated : DelegationResult → AgentResult
aggregated r = record {
  run_id = none;
  task_id = r.parent_task_id;
  status = RunStatus.completed;
  usage = aggregate_usage (total_input_tokens r) (total_output_tokens r);
  files_changed = some (from_keys (files_of (successful_children r)));
  summary = some (join_lines (summaries_of (successful_children r)));
  error = none;
}

unfoldable pub aggregate_result : DelegationResult → Option AgentResult
aggregate_result r = if is_empty (successful_children r) then none else some (aggregated r)
