-- ===== src/Delegation/Dag.antt =====
-- `DelegationExecutor._execute_dag` of orchestrator/delegation_executor.py: explicit subtasks run in
-- waves. `gather` is `asyncio.gather` over the `_run_child` calls of a wave, on the shared budget: what
-- the children answer is the runtime's choice. Its first argument is `retry`.
pub mod Waves
pub mod Nodes
pub mod Justified
pub mod Rounds
pub mod Order
use Prim.Native.String.{String}
use adaptive_agent_orchestra.Base.{
  ℕ, zero, suc, ◌+◌, Bool, true, false, not, any, all, Option, none, some, is_some, List, [], ◌∷◌,
  ◌++◌, map, filter, is_empty, length, str_eq, Result, ok, err, value_error, key_error, ◌>>=◌,
  if◌then◌else◌,
}
use adaptive_agent_orchestra.Contracts.Task.{TaskContract}
use adaptive_agent_orchestra.Budget.{BudgetState, check_retries, can_submit_calls}
use adaptive_agent_orchestra.Delegation.{
  ChildStatus, ChildExecution, succeeded, merge_retry_attempts,
}

abbrev pub Node : Type 0
Node = String × TaskContract

abbrev pub Outcomes : Type 0
Outcomes = List (String × ChildExecution)

abbrev pub keys {ℓ} : {A : Type ℓ} → List (String × A) → List String
keys = map (λ entry. entry.0)

-- `context.get(key, default)`.
abbrev pub get_or : Option String → String → String
get_or none default = default
get_or (some value) default = value

-- `id[:n]`.
abbrev pub prefix : ℕ → String → String
prefix zero s = String.[]
prefix (suc n) String.[] = String.[]
prefix (suc n) (String.◌∷◌ c s) = String.◌∷◌ c (prefix n s)

abbrev pub node_id : TaskContract → String
node_id c = get_or c.context.subtask_id (get_or c.context.child_id c.id)

-- The `child_id` of a child's execution.
abbrev pub result_id : TaskContract → String
result_id c = get_or c.context.child_id (prefix 8 c.id)

abbrev pub dependencies_of : TaskContract → List String
dependencies_of c = elim c.context.dependencies [ none ↦ [] | some ds ↦ ds ]

-- `d[key] = value`: a key that is there keeps its place.
abbrev pub put : String → TaskContract → List Node → List Node
put key c [] = (key, c) ∷ []
put key c (n ∷ ns) = if str_eq n.0 key then (key, c) ∷ ns else n ∷ put key c ns

abbrev pub put_all : List Node → List TaskContract → List Node
put_all nodes [] = nodes
put_all nodes (c ∷ cs) = put_all (put (node_id c) c nodes) cs

abbrev pub by_subtask : List TaskContract → List Node
by_subtask = put_all []

abbrev pub outcome : Outcomes → String → Option ChildExecution
outcome [] d = none
outcome (o ∷ os) d = if str_eq d o.0 then some o.1 else outcome os d

-- `dependency in outcomes and outcomes[dependency].succeeded`, and the same with `not`.
abbrev pub has_succeeded : Outcomes → String → Bool
has_succeeded os d = elim (outcome os d) [ none ↦ false | some e ↦ succeeded e ]

abbrev pub has_failed : Outcomes → String → Bool
has_failed os d = elim (outcome os d) [ none ↦ false | some e ↦ not (succeeded e) ]

abbrev pub is_blocked : Outcomes → Node → Bool
is_blocked os n = any (has_failed os) (dependencies_of n.1)

abbrev pub is_ready : Outcomes → Node → Bool
is_ready os n = all (has_succeeded os) (dependencies_of n.1)

-- The execution of a child that is not run.
abbrev pub unrun : Node → String × ChildExecution
unrun n = (
  n.0,
  record {
    child_id = result_id n.1;
    run_id = none;
    attempt_run_ids = [];
    status = ChildStatus.failed;
    result = none;
    eval_result = none;
    input_tokens = some 0;
    output_tokens = some 0;
    retry_count = 0;
    workspace_safe_to_cleanup = true;
    lifecycle_error = none;
  },
)

abbrev pub is_failed : ChildStatus → Bool
is_failed ChildStatus.failed = true
is_failed _ = false

-- The children of the wave at `failed_indexes`.
abbrev pub failed_of : List TaskContract → List ChildExecution → List TaskContract
failed_of [] es = []
failed_of (c ∷ cs) [] = []
failed_of (c ∷ cs) (e ∷ es) = if is_failed e.status then c ∷ failed_of cs es else failed_of cs es

-- `zip(failed_indexes, retried, strict=True)`: the failed executions take the retried ones in turn.
pub merge_all : List ChildExecution → List ChildExecution → Result (List ChildExecution)
merge_all [] [] = ok []
merge_all [] (r ∷ rs) = err (value_error "zip() argument 2 is longer than argument 1")
merge_all (e ∷ es) [] =
    let rest = merge_all es [] in
    if is_failed e.status
    then err (value_error "zip() argument 2 is shorter than argument 1")
    else rest >>= (λ kept. ok (e ∷ kept))
merge_all (e ∷ es) (r ∷ rs) =
    let after_merge = merge_all es rs in
    let rest = merge_all es (r ∷ rs) in
    if is_failed e.status
    then merge_retry_attempts e r >>= (λ m. after_merge >>= (λ merged. ok (m ∷ merged)))
    else rest >>= (λ kept. ok (e ∷ kept))

-- `budget.check_retries() is None and budget.can_submit_calls(1) is None`.
unfoldable pub may_retry : BudgetState → Result Bool
may_retry b = elim (check_retries b) [
  | some violation ↦ ok false
  | none ↦ can_submit_calls b 1 >>= (λ violation. ok (not (is_some violation)))
]

-- `zip(ready_ids, wave_results, strict=True)`.
pub zip_outcomes : List Node → List ChildExecution → Result Outcomes
zip_outcomes [] [] = ok []
zip_outcomes [] (e ∷ es) = err (value_error "zip() argument 2 is longer than argument 1")
zip_outcomes (n ∷ ns) [] = err (value_error "zip() argument 2 is shorter than argument 1")
zip_outcomes (n ∷ ns) (e ∷ es) = zip_outcomes ns es >>= (λ rest. ok ((n.0, e) ∷ rest))

-- `[outcomes[subtask_id] for subtask_id in order]`.
pub collect : List String → Outcomes → Result (List ChildExecution)
collect [] os = ok []
collect (id ∷ ids) os = elim (outcome os id) [
  | none ↦ err (key_error id)
  | some e ↦ collect ids os >>= (λ rest. ok (e ∷ rest))
]

module _ (gather : Bool → List TaskContract → BudgetState → List ChildExecution × BudgetState) where
  -- The retry of the failed children of a wave.
  pub retry_wave :
      List TaskContract
      → List ChildExecution
      → BudgetState
      → Result (List ChildExecution × BudgetState)
  retry_wave wave results b =
      let again =
        gather true (failed_of wave results) (record b { retries_used = b.retries_used + 1 }) in
      merge_all results again.0 >>= (λ merged. ok (merged, again.1))

  pub run_wave : List TaskContract → BudgetState → Result (List ChildExecution × BudgetState)
  unfolding may_retry retry_wave
  run_wave wave b =
      let first = gather false wave b in
      if is_empty (failed_of wave first.0)
      then ok first
      else may_retry first.1
        >>= (λ allowed. if allowed then retry_wave wave first.0 first.1 else ok first)

  -- `while pending`, on fuel.
  pub run_dag : ℕ → List Node → Outcomes → BudgetState → Result Outcomes
  run_dag zero pending outcomes b = err (value_error "out of fuel")
  run_dag (suc fuel) pending outcomes b =
      let outcomes' = map unrun (filter (is_blocked outcomes) pending) ++ outcomes in
      let open_nodes = filter (λ n. not (is_blocked outcomes n)) pending in
      let ready = filter (is_ready outcomes') open_nodes in
      if is_empty pending
      then ok outcomes
      else if is_empty ready
      then ok (map unrun open_nodes ++ outcomes')
      else run_wave (map (λ n. n.1) ready) b >>= (λ ran. zip_outcomes ready ran.0 >>= (λ new.
        run_dag fuel (filter (λ n. not (is_ready outcomes' n)) open_nodes) (new ++ outcomes')
          ran.1))

  -- A wave takes at least one child, so one more round than children is enough.
  pub run_children : List TaskContract → BudgetState → Result Outcomes
  run_children children b = run_dag (suc (length (by_subtask children))) (by_subtask children) [] b

  unfoldable pub execute_dag : List TaskContract → BudgetState → Result (List ChildExecution)
  unfolding run_children run_dag run_wave retry_wave merge_all zip_outcomes collect
  execute_dag children b =
      run_children children b >>= (λ os. collect (keys (by_subtask children)) os)
