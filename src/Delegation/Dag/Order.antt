-- ===== src/Delegation/Dag/Order.antt =====
-- What `_execute_dag` of orchestrator/delegation_executor.py returns, and in which order.
use adaptive_agent_orchestra.Base.{
  suc, ◌≡◌, refl, inl, inr, Bool, true, false, ◌||◌, Bool-cases, some, List, [], ◌∷◌, Memᴰ, length,
  All, All-of_each, All-imp, String, str_eq, str_eq_iff, contains, has_duplicates, ok, arith,
}
use adaptive_agent_orchestra.Contracts.Task.{TaskContract}
use adaptive_agent_orchestra.Budget.{BudgetState}
use adaptive_agent_orchestra.Delegation.{ChildExecution}
use adaptive_agent_orchestra.Delegation.Dag.{
  Node, Outcomes, keys, node_id, outcome, put, put_all, collect, by_subtask, run_children,
  execute_dag,
}
use adaptive_agent_orchestra.Delegation.Dag.Waves.{IsGather}
use adaptive_agent_orchestra.Delegation.Dag.Justified.{IsJustified, Inv}
use adaptive_agent_orchestra.Delegation.Dag.Rounds.{run_dag-Finishes}

contains-put :
    (j key : String) (c : TaskContract) (ns : List Node)
    → contains j (keys (put key c ns)) ≡ (contains j (keys ns) || str_eq j key)
contains-put j key c [] = ground arith
contains-put j key c (n ∷ ns) = ground (arith, contains-put j key c ns, str_eq_iff n.0 key)

has_duplicates-put :
    (key : String) (c : TaskContract) (ns : List Node)
    → has_duplicates (keys ns) ≡ false
    → has_duplicates (keys (put key c ns)) ≡ false
has_duplicates-put key c [] h = refl
has_duplicates-put key c (n ∷ ns) h =
    ground (arith, has_duplicates-put key c ns, contains-put n.0 key c ns, str_eq_iff n.0 key)

has_duplicates-put_all :
    (ns : List Node) (cs : List TaskContract)
    → has_duplicates (keys ns) ≡ false
    → has_duplicates (keys (put_all ns cs)) ≡ false
has_duplicates-put_all ns [] h = h
has_duplicates-put_all ns (c ∷ cs) h =
    has_duplicates-put_all (put (node_id c) c ns) cs (has_duplicates-put (node_id c) c ns h)

-- The executions are the outcomes of the names, in their order.
abbrev pub IsCollected : Outcomes → List String → List ChildExecution → Type 0
IsCollected os [] [] = Unit
IsCollected os [] (e ∷ es) = ⊥
IsCollected os (id ∷ ids) [] = ⊥
IsCollected os (id ∷ ids) (e ∷ es) = (outcome os id ≡ some e) × IsCollected os ids es

outcome_of_key :
    (os : Outcomes) (id : String)
    → contains id (keys os) ≡ true
    → (e : ChildExecution) × (outcome os id ≡ some e)
outcome_of_key [] id h = cc
outcome_of_key (o ∷ os) id h = elim (Bool-cases (str_eq id o.0)) [
  | inl same ↦ (o.1, rw (same, outcome) refl)
  | inr other ↦
      let (e, found) = outcome_of_key os id (rw other at h) in (e, rw (other, outcome) found)
]

collect_ok :
    (ids : List String) (os : Outcomes)
    → All (λ id. contains id (keys os) ≡ true) ids
    → (es : List ChildExecution) × (collect ids os ≡ ok es) × IsCollected os ids es
unfolding collect
collect_ok [] os h = ([], refl, tt)
collect_ok (id ∷ ids) os (here, later) =
    let (e, found) = outcome_of_key os id here in
    let (es, returned, collected) = collect_ok ids os later in
    (e ∷ es, rw (found, collect, returned) refl, (found, collected))

members : {A : Type 0} (xs : List A) → All (λ x. Memᴰ x xs) xs
members [] = tt
members (x ∷ xs) = (Memᴰ.head refl, All-imp _ _ (λ y m. Memᴰ.tail m) xs (members xs))

start-Inv : (children : List TaskContract) → Inv (by_subtask children) (by_subtask children) []
start-Inv children = record {
  distinct = has_duplicates-put_all [] children refl;
  fresh = All-imp _ _ (λ n m. refl) (by_subtask children) (members (by_subtask children));
  known = members (by_subtask children);
  covered = λ k h. rw h refl;
  justified = tt;
}

-- Whatever the runs of the children answer, as long as `gather` gives one answer for each child of a
-- wave, under its id, `_execute_dag` returns: one round more than there are children is enough, the
-- strict zips and the merges do not raise, and every name has an execution, in the order of the
-- children. A child succeeded only if all of its dependencies had succeeded before.
pub execute_dag_ok :
    (gather : Bool → List TaskContract → BudgetState → List ChildExecution × BudgetState)
    (children : List TaskContract) (b : BudgetState)
    → IsGather gather
    → (es : List ChildExecution) × (os : Outcomes) × (execute_dag gather children b ≡ ok es)
      × IsCollected os (keys (by_subtask children)) es
      × IsJustified (by_subtask children) os
unfolding execute_dag run_children
execute_dag_ok gather children b gathers =
    let nodes = by_subtask children in
    let (os, ran, inv) =
      run_dag-Finishes gather gathers nodes (suc (length nodes)) nodes [] b (start-Inv children)
        (omega arith) in
    let (es, returned, collected) =
      collect_ok (keys nodes) os (All-of_each _ (keys nodes) inv.covered) in
    rw (ran, returned) (es, os, refl, collected, inv.justified)
