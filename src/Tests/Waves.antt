-- ===== src/Tests/Waves.antt =====
-- The theorem on the waves of subtasks at a concrete plan: the last subtask waits for the first, and a
-- runtime completes every child.
use adaptive_agent_orchestra.Base.{
  Bool, true, none, some, List, [], ◌∷◌, String, map, ok, ◌≡◌, refl,
}
use adaptive_agent_orchestra.Contracts.Task.{TaskContract}
use adaptive_agent_orchestra.Budget.{BudgetState, new_budget, default_config}
use adaptive_agent_orchestra.Evals.{aggregate}
use adaptive_agent_orchestra.Delegation.{ChildStatus, ChildExecution, succeeded}
use adaptive_agent_orchestra.Delegation.Dag.{Outcomes, keys, result_id, by_subtask, execute_dag}
use adaptive_agent_orchestra.Delegation.Dag.Waves.{Matches, IsGather}
use adaptive_agent_orchestra.Delegation.Dag.Justified.{IsJustified}
use adaptive_agent_orchestra.Delegation.Dag.Order.{IsCollected, execute_dag_ok}
use adaptive_agent_orchestra.Tests.{no_context, fix_task}

abbrev child : String → String → List String → TaskContract
child child_id subtask_id dependencies = record fix_task {
  context = record no_context {
    child_id = some child_id;
    subtask_id = some subtask_id;
    dependencies = some dependencies;
  };
  subtasks = [];
}

abbrev children : List TaskContract
children = child "c1" "join" ("parse" ∷ []) ∷ child "c2" "parse" [] ∷ []

abbrev answer : TaskContract → ChildExecution
answer c = record {
  child_id = result_id c;
  run_id = some "r";
  attempt_run_ids = "r" ∷ [];
  status = ChildStatus.completed;
  result = none;
  eval_result = some (aggregate "t1" (some "r") []);
  input_tokens = some 1;
  output_tokens = some 1;
  retry_count = 0;
  workspace_safe_to_cleanup = true;
  lifecycle_error = none;
}

abbrev gather : Bool → List TaskContract → BudgetState → List ChildExecution × BudgetState
gather retry wave b = (map answer wave, b)

answers : (wave : List TaskContract) → Matches wave (map answer wave)
answers [] = tt
answers (c ∷ cs) = (refl, answers cs)

gathers : IsGather gather
gathers retry wave b = answers wave

execute_dag_ok_example :
    (es : List ChildExecution) × (os : Outcomes) × (execute_dag gather children
        (new_budget "t1" default_config)
      ≡ ok es)
    × IsCollected os (keys (by_subtask children)) es
    × IsJustified (by_subtask children) os
execute_dag_ok_example = execute_dag_ok gather children (new_budget "t1" default_config) gathers

test_execute_dag :
    execute_dag gather children (new_budget "t1" default_config) ≡ ok (map answer children)
unfolding execute_dag succeeded aggregate
test_execute_dag = refl
