-- ===== src/Delegation/Dag/Rounds.antt =====
-- The rounds of the loop of `_execute_dag`, on fuel.
use adaptive_agent_orchestra.Base.{
  ℕ, zero, suc, ◌<◌, ◌≤◌, ◌≡◌, refl, sym, subst, inl, inr, Bool, true, false, not, Bool-cases, List,
  [], ◌∷◌, ◌++◌, filter, map, length, is_empty, All, Result, ok, ◌>>=◌, arith,
}
use adaptive_agent_orchestra.Contracts.Task.{TaskContract}
use adaptive_agent_orchestra.Budget.{BudgetState}
use adaptive_agent_orchestra.Delegation.{ChildExecution, succeeded}
use adaptive_agent_orchestra.Delegation.Dag.{
  Node, Outcomes, is_blocked, is_ready, unrun, zip_outcomes, run_wave, run_dag,
}
use adaptive_agent_orchestra.Delegation.Dag.Waves.{Matches, IsGather, run_wave-Ran}
use adaptive_agent_orchestra.Delegation.Dag.Nodes.{
  All-of_filter, length-filter-not, filter-true, filter-false,
}
use adaptive_agent_orchestra.Delegation.Dag.Justified.{Batch, Inv, move-Inv}

unrun-Batch : (os : Outcomes) (ns : List Node) → Batch os ns (map unrun ns)
unfolding succeeded
unrun-Batch os [] = tt
unrun-Batch os (n ∷ ns) = (refl, inl refl, unrun-Batch os ns)

zip_outcomes-Batch :
    (os : Outcomes) (ns : List Node) (es : List ChildExecution)
    → Matches (map (λ n. n.1) ns) es
    → All (λ n. is_ready os n ≡ true) ns
    → (new : Outcomes) × (zip_outcomes ns es ≡ ok new) × Batch os ns new
unfolding zip_outcomes
zip_outcomes-Batch os [] [] m ready = ([], refl, tt)
zip_outcomes-Batch os [] (e ∷ es) m ready = absurd m
zip_outcomes-Batch os (n ∷ ns) [] m ready = absurd m
zip_outcomes-Batch os (n ∷ ns) (e ∷ es) (_, m) (now, ready) =
    let (new, returned, b) = zip_outcomes-Batch os ns es m ready in
    rw returned ((n.0, e) ∷ new, refl, (refl, inr now, b))

-- The rest of the nodes is not run.
close-Inv :
    (nodes pending : List Node) (os : Outcomes)
    → Inv nodes pending os
    → Inv nodes [] (map unrun pending ++ os)
close-Inv nodes pending os inv =
    subst (λ left. Inv nodes left (map unrun pending ++ os)) (filter-false pending)
      (move-Inv nodes pending os (λ _. true) (map unrun pending) inv
        (subst (λ ns. Batch os ns (map unrun pending)) (sym (filter-true pending))
          (unrun-Batch os pending)))

positive : {A : Type 0} (xs : List A) → is_empty xs ≡ false → 1 ≤ length xs
positive [] h = cc
positive (x ∷ xs) h = omega arith

module _ (gather : Bool → List TaskContract → BudgetState → List ChildExecution × BudgetState)
    (gathers : IsGather gather) (nodes : List Node) where
  abbrev pub Finishes : Result Outcomes → Type 0
  Finishes result = (os : Outcomes) × (result ≡ ok os) × Inv nodes [] os

  -- One round, from the nodes that are not blocked.
  round-Finishes :
      (fuel : ℕ) (open_nodes : List Node) (os : Outcomes) (b : BudgetState)
      → ((pending : List Node) (os : Outcomes) (b : BudgetState)
          → Inv nodes pending os
          → length pending < fuel
          → Finishes (run_dag gather fuel pending os b))
      → Inv nodes open_nodes os
      → length open_nodes < suc fuel
      → is_empty (filter (is_ready os) open_nodes) ≡ false
      → Finishes (
          run_wave gather (map (λ n. n.1) (filter (is_ready os) open_nodes)) b >>= (λ ran.
            zip_outcomes (filter (is_ready os) open_nodes) ran.0 >>= (λ new.
              run_dag gather fuel
                (filter (λ n. not (is_ready os n)) open_nodes)
                (new ++ os)
                ran.1)))
  round-Finishes fuel open_nodes os b later inv enough some_ready =
      let ready = filter (is_ready os) open_nodes in
      let (es, b', ran, matched) = run_wave-Ran gather gathers (map (λ n. n.1) ready) b in
      let (new, zipped, batch) =
        zip_outcomes-Batch os ready es matched (All-of_filter (is_ready os) open_nodes) in
      let one = positive ready some_ready in
      let split = length-filter-not (is_ready os) open_nodes in
      rw (ran, zipped)
        (later (filter (λ n. not (is_ready os n)) open_nodes) (new ++ os) b'
          (move-Inv nodes open_nodes os (is_ready os) new inv batch)
          (omega (arith, one, split, enough)))

  pub run_dag-Finishes :
      (fuel : ℕ) (pending : List Node) (os : Outcomes) (b : BudgetState)
      → Inv nodes pending os
      → length pending < fuel
      → Finishes (run_dag gather fuel pending os b)
  unfolding run_dag
  run_dag-Finishes zero pending os b inv enough = absurd (omega (arith, enough))
  run_dag-Finishes (suc fuel) [] os b inv enough = (os, refl, inv)
  run_dag-Finishes (suc fuel) (p ∷ ps) os b inv enough =
      let pending = p ∷ ps in
      let os' = map unrun (filter (is_blocked os) pending) ++ os in
      let open_nodes = filter (λ n. not (is_blocked os n)) pending in
      let inv' =
        move-Inv nodes pending os (is_blocked os) (map unrun (filter (is_blocked os) pending)) inv
          (unrun-Batch os (filter (is_blocked os) pending)) in
      let split = length-filter-not (is_blocked os) pending in
      elim (Bool-cases (is_empty (filter (is_ready os') open_nodes))) [
        | inl stuck ↦ rw stuck (_, refl, close-Inv nodes open_nodes os' inv')
        | inr going ↦ rw going (
            round-Finishes fuel open_nodes os' b (run_dag-Finishes fuel) inv'
              (omega (arith, split, enough)) going)
      ]
