-- ===== src/Contracts/Subtasks/Topological.antt =====
-- Topological orders of a subtask graph (contracts/task.py), and the rank of a position in one.
use adaptive_agent_orchestra.Base.{
  ℕ, suc, ◌≤◌, ◌<◌, ◌≡◌, true, some, List, [], ◌∷◌, String, contains, contains-cons_cases,
  contains-cons, All, All-imp, All_of_contains, length, arith, inl, inr, Bool-cases, if◌then◌else◌,
}
use adaptive_agent_orchestra.Contracts.Subtasks.{Graph}
use adaptive_agent_orchestra.Contracts.Subtasks.Visit.{IsTopological}

-- How many nodes were visited when the node first was, itself included.
pub position : List String → String → ℕ
position [] node = 0
position (x ∷ rest) node =
    let inside = position rest node in if contains node rest then inside else suc (length rest)

position-le : (visited : List String) (node : String) → position visited node ≤ length visited
unfolding position
position-le [] node = omega arith
position-le (x ∷ rest) node = ground (arith, position-le rest node)

dependencies_inside :
    (graph : Graph) (visited : List String) (node : String) (dependencies : List String)
    → IsTopological graph visited
    → contains node visited ≡ true
    → graph node ≡ some dependencies
    → All (λ d. contains d visited ≡ true) dependencies
dependencies_inside graph [] node dependencies sorted h e = cc
dependencies_inside graph (x ∷ rest) node dependencies ((own, entry, behind), sorted) h e =
    All-imp (λ d. contains d rest ≡ true) (λ d. contains d (x ∷ rest) ≡ true)
      (λ d. contains-cons d x rest) dependencies
      (elim (contains-cons_cases node x rest h) [
        | inl same ↦ rw (owned same) behind
        | inr later ↦ dependencies_inside graph rest node dependencies sorted later e
      ])
  where
    owned : node ≡ x → dependencies ≡ own
    owned same = cc

pub position-lt :
    (graph : Graph) (visited : List String) (node d : String) (dependencies : List String)
    → IsTopological graph visited
    → contains node visited ≡ true
    → graph node ≡ some dependencies
    → contains d dependencies ≡ true
    → position visited d < position visited node
unfolding position
position-lt graph [] node d dependencies sorted h e m = cc
position-lt graph (x ∷ rest) node d dependencies ((own, entry, behind), sorted) h e m =
    elim (Bool-cases (contains node rest)) [
      | inl later ↦
          let d_in =
            All_of_contains (λ k. contains k rest ≡ true) d dependencies
              (dependencies_inside graph rest node dependencies sorted later e) m in
          rw (later, d_in) (position-lt graph rest node d dependencies sorted later e m)
      | inr first ↦ elim (contains-cons_cases node x rest h) [
        | inl same ↦
            let d_in = All_of_contains (λ k. contains k rest ≡ true) d own behind (owns same) in
            rw (first, d_in) (omega (arith, position-le rest d))
        | inr later ↦ cc
      ]
    ]
  where
    owned : node ≡ x → dependencies ≡ own
    owned same = cc

    owns : node ≡ x → contains d own ≡ true
    owns same = rw (owned same) at m
