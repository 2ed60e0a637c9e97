-- ===== src/Contracts/Subtasks/Visit.antt =====
-- How the walk of `validate_subtask_plan` (contracts/task.py) can end, with its fuel and its keys.
use adaptive_agent_orchestra.Base.{
  ℕ, zero, suc, ◌<◌, ◌≡◌, true, false, not, some, List, [], ◌∷◌, String, str_eq_iff, contains,
  Subset, contains-cons_self, contains-cons, All, length, filter, arith, inl, inr, Bool-cases,
}
use adaptive_agent_orchestra.Contracts.Subtasks.{
  Outcome, done, cycle, missing_key, out_of_fuel, Graph, and_then, visit_all, visit,
}

-- How a call may end: by returning with `P`, or by raising on a cycle under `C`.
abbrev pub Ends : (List String → Type 0) → Type 0 → Outcome → Type 0
Ends P C (done visited) = P visited
Ends P C cycle = C
Ends P C (missing_key k) = ⊥
Ends P C out_of_fuel = ⊥

pub and_then-Ends :
    (P Q : List String → Type 0) (C : Type 0) (o : Outcome) (next : List String → Outcome)
    → Ends P C o
    → ((visited : List String) → P visited → Ends Q C (next visited))
    → Ends Q C (and_then o next)
and_then-Ends P Q C (done visited) next h k = k visited h
and_then-Ends P Q C cycle next h k = h
and_then-Ends P Q C (missing_key x) next h k = h
and_then-Ends P Q C out_of_fuel next h k = h

-- Newest first: every node has all its dependencies behind it.
abbrev pub IsTopological : Graph → List String → Type 0
IsTopological graph [] = Unit
IsTopological graph (node ∷ rest) =
    ((dependencies : List String) × (graph node ≡ some dependencies)
      × All (λ d. contains d rest ≡ true) dependencies)
    × IsTopological graph rest

-- Every known node has an entry, and its dependencies are known.
abbrev pub IsClosed : Graph → List String → Type 0
IsClosed graph ids =
    (node : String)
    → contains node ids ≡ true
    → (dependencies : List String) × (graph node ≡ some dependencies)
      × All (λ d. contains d ids ≡ true) dependencies

-- How many ids are not on the path that is being visited: what bounds the depth of the walk.
abbrev pub free : List String → List String → ℕ
free ids visiting = length (filter (λ k. not (contains k visiting)) ids)

free-le :
    (ids visiting : List String) (node : String)
    → free ids (node ∷ visiting) < suc (free ids visiting)
free-le [] visiting node = omega arith
free-le (k ∷ ids) visiting node = ground (arith, free-le ids visiting node)

pub free-lt :
    (ids visiting : List String) (node : String)
    → contains node ids ≡ true
    → contains node visiting ≡ false
    → free ids (node ∷ visiting) < free ids visiting
free-lt [] visiting node h f = cc
free-lt (k ∷ ids) visiting node h f = ground (
  arith,
  str_eq_iff node k,
  str_eq_iff k node,
  free-le ids visiting node,
  free-lt ids visiting node,
)

-- What a call on `node` leaves behind.
abbrev pub Visited : Graph → List String → String → List String → Type 0
Visited graph before node after =
    IsTopological graph after × (contains node after ≡ true) × Subset before after

abbrev pub AllVisited : Graph → List String → List String → List String → Type 0
AllVisited graph before nodes after =
    IsTopological graph after × All (λ d. contains d after ≡ true) nodes × Subset before after

module _ (graph : Graph) (ids : List String) where
  pub visit_all-Ends :
      (call : List String → String → Outcome)
      → ((before : List String) (node : String)
          → contains node ids ≡ true
          → IsTopological graph before
          → Ends (Visited graph before node) Unit (call before node))
      → (nodes before : List String) → All (λ d. contains d ids ≡ true) nodes
      → IsTopological graph before
      → Ends (AllVisited graph before nodes) Unit (visit_all call nodes before)
  unfolding visit_all
  visit_all-Ends call each [] before known sorted = (sorted, tt, λ k h. h)
  visit_all-Ends call each (node ∷ rest) before known sorted =
      and_then-Ends (Visited graph before node) (AllVisited graph before (node ∷ rest)) Unit
        (call before node) (λ v. visit_all call rest v) (each before node known.0 sorted)
        λ v first.
          let later = visit_all-Ends call each rest v known.1 first.0 in
          weaken v first (visit_all call rest v) later
    where
      weaken :
          (v : List String)
          → Visited graph before node v
          → (o : Outcome) → Ends (AllVisited graph v rest) Unit o
          → Ends (AllVisited graph before (node ∷ rest)) Unit o
      weaken v first (done after) (topo, all_rest, grows) =
          (topo, (grows node first.1, all_rest), λ k h. grows k (first.2 k h))
      weaken v first cycle h = h
      weaken v first (missing_key k) h = h
      weaken v first out_of_fuel h = h

  module _ (closed : IsClosed graph ids) where
    pub visit-Ends :
        (fuel : ℕ) (visiting before : List String) (node : String)
        → free ids visiting < fuel
        → contains node ids ≡ true
        → IsTopological graph before
        → Ends (Visited graph before node) Unit (visit graph fuel visiting before node)
    unfolding visit
    visit-Ends zero visiting before node enough known sorted = absurd (omega arith)
    visit-Ends (suc fuel) visiting before node enough known sorted =
        elim (Bool-cases (contains node visiting)) [
          | inl loop ↦ rw loop tt
          | inr fresh ↦ elim (Bool-cases (contains node before)) [
            | inl old ↦ rw (fresh, old) (sorted, old, λ k h. h)
            | inr new ↦
                let (dependencies, entry, inside) = closed node known in
                let inner = visit graph fuel (node ∷ visiting) in
                let each = λ (v : List String) (n : String).
                  visit-Ends fuel (node ∷ visiting) v n
                    (omega (arith, free-lt ids visiting node known fresh)) in
                rw (fresh, new, entry)
                  (and_then-Ends (AllVisited graph before dependencies) (Visited graph before node)
                    Unit (visit_all inner dependencies before) (λ v. done (node ∷ v))
                    (visit_all-Ends inner each dependencies before inside sorted)
                    (λ v (topo, all_in, grows). (
                      ((dependencies, entry, all_in), topo),
                      contains-cons_self node v,
                      λ k h. contains-cons k node v (grows k h),
                    )))
          ]
        ]
