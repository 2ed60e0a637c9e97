-- ===== src/Contracts/Subtasks/Rank.antt =====
-- The walk of `validate_subtask_plan` (contracts/task.py) on a graph with a rank.
use adaptive_agent_orchestra.Base.{
  ℕ, zero, suc, ◌<◌, ◌≡◌, refl, sym, true, false, Option, none, some, List, [], ◌∷◌, String, str_eq,
  str_eq_iff, str_eq_refl, contains, has_duplicates, All, All-imp, All_of_contains, subst, arith,
  inl, inr, Bool-cases, or_false,
}
use adaptive_agent_orchestra.Contracts.Task.{SubtaskSpec}
use adaptive_agent_orchestra.Contracts.Subtasks.{
  Outcome, done, cycle, missing_key, out_of_fuel, Graph, and_then, visit_all, visit_dependencies,
  visit, graph_of, subtask_ids,
}

abbrev pub KnownDependencies : List String → List SubtaskSpec → Type 0
KnownDependencies known subtasks =
    All (λ (s : SubtaskSpec). All (λ d. contains d known ≡ true) s.dependencies) subtasks

abbrev pub Falls : (String → ℕ) → List SubtaskSpec → Type 0
Falls rank subtasks =
    All (λ (s : SubtaskSpec). All (λ d. rank d < rank s.id) s.dependencies) subtasks

-- Some rank falls along every dependency: no chain of dependencies comes back.
abbrev pub IsAcyclic : List SubtaskSpec → Type 0
IsAcyclic subtasks = (rank : String → ℕ) × Falls rank subtasks

-- The graph has an entry for every id, made of dependencies that are known.
pub graph_of-known :
    (known : List String) (subtasks : List SubtaskSpec)
    → KnownDependencies known subtasks
    → (node : String) → contains node (subtask_ids subtasks) ≡ true
    → (dependencies : List String) × (graph_of subtasks node ≡ some dependencies)
      × All (λ d. contains d known ≡ true) dependencies
unfolding graph_of
graph_of-known known [] h node m = cc
graph_of-known known (s ∷ rest) (own, later) node m = elim (Bool-cases (str_eq node s.id)) [
  | inl same ↦ rw same (s.dependencies, refl, own)
  | inr other ↦ rw other (graph_of-known known rest later node (rw other at m))
]

graph_of-skip :
    (s : SubtaskSpec) (whole rest : List SubtaskSpec)
    → contains s.id (subtask_ids rest) ≡ false
    → All (λ (t : SubtaskSpec). graph_of whole t.id ≡ some t.dependencies) rest
    → All (λ (t : SubtaskSpec). graph_of (s ∷ whole) t.id ≡ some t.dependencies) rest
unfolding graph_of
graph_of-skip s whole [] h e = tt
graph_of-skip s whole (t ∷ rest) h e = (
  ground (arith, str_eq_iff s.id t.id, str_eq_iff t.id s.id),
  graph_of-skip s whole rest (or_false (str_eq s.id t.id) _ h).1 e.1,
)

-- With unique ids the entry of a subtask is its own.
pub graph_of-own :
    (subtasks : List SubtaskSpec)
    → has_duplicates (subtask_ids subtasks) ≡ false
    → All (λ (t : SubtaskSpec). graph_of subtasks t.id ≡ some t.dependencies) subtasks
graph_of-own [] h = tt
graph_of-own (s ∷ rest) h =
    let apart = or_false (contains s.id (subtask_ids rest)) _ h in
    (
      unfold graph_of in rw (str_eq_refl s.id) refl,
      graph_of-skip s rest rest apart.0 (graph_of-own rest apart.1),
    )

pub graph_of-Falls :
    (rank : String → ℕ) (subtasks : List SubtaskSpec)
    → Falls rank subtasks
    → (node : String) (dependencies : List String) → graph_of subtasks node ≡ some dependencies
    → All (λ d. rank d < rank node) dependencies
unfolding graph_of
graph_of-Falls rank [] h node dependencies e = cc
graph_of-Falls rank (s ∷ rest) (own, later) node dependencies e =
    elim (Bool-cases (str_eq node s.id)) [
      | inl same ↦
          let entry : some s.dependencies ≡ some dependencies = rw same at e in
          let own_entry : s.dependencies ≡ dependencies = cc entry in
          subst (λ k. All (λ d. rank d < rank k) dependencies) (sym ((str_eq_iff node s.id).0 same))
            (subst (λ ds. All (λ d. rank d < rank s.id) ds) own_entry own)
      | inr other ↦ graph_of-Falls rank rest later node dependencies (rw other at e)
    ]

abbrev pub NoCycle : Outcome → Type 0
NoCycle cycle = ⊥
NoCycle _ = Unit

and_then-NoCycle :
    (o : Outcome) (next : List String → Outcome)
    → NoCycle o
    → ((visited : List String) → NoCycle (next visited))
    → NoCycle (and_then o next)
and_then-NoCycle (done visited) next h k = k visited
and_then-NoCycle cycle next h k = h
and_then-NoCycle (missing_key x) next h k = tt
and_then-NoCycle out_of_fuel next h k = tt

module _ (call : List String → String → Outcome) (Allowed : String → Type 0) where
  pub visit_all-NoCycle :
      ((before : List String) (node : String) → Allowed node → NoCycle (call before node))
      → (nodes before : List String) → All Allowed nodes
      → NoCycle (visit_all call nodes before)
  unfolding visit_all
  visit_all-NoCycle each [] before h = tt
  visit_all-NoCycle each (node ∷ rest) before (allowed, later) =
      and_then-NoCycle (call before node) (λ v. visit_all call rest v) (each before node allowed)
        (λ v. visit_all-NoCycle each rest v later)

module _ (rank : String → ℕ) (graph : Graph) where
  pub visit-NoCycle :
      ((node : String) (dependencies : List String)
        → graph node ≡ some dependencies
        → All (λ d. rank d < rank node) dependencies)
      → (fuel : ℕ) (visiting before : List String) (node : String)
      → All (λ v. rank node < rank v) visiting
      → NoCycle (visit graph fuel visiting before node)
  unfolding visit
  visit-NoCycle falls zero visiting before node chain = tt
  visit-NoCycle falls (suc fuel) visiting before node chain =
      elim (Bool-cases (contains node visiting)) [
        | inl loop ↦
            absurd (below (All_of_contains (λ v. rank node < rank v) node visiting chain loop))
        | inr fresh ↦ elim (Bool-cases (contains node before)) [
          | inl old ↦ rw (fresh, old) tt
          | inr new ↦
              rw (fresh, new)
                (inner_dependencies
                  (λ v d allowed. visit-NoCycle falls fuel (node ∷ visiting) v d allowed)
                  (graph node) refl)
        ]
      ]
    where
      below : rank node < rank node → ⊥
      below h = omega arith

      -- Every dependency is below the node, and so below all that is being visited.
      extend :
          (ds : List String)
          → All (λ d. rank d < rank node) ds
          → All (λ d. All (λ v. rank d < rank v) (node ∷ visiting)) ds
      extend =
          All-imp (λ d. rank d < rank node) (λ d. All (λ v. rank d < rank v) (node ∷ visiting))
            (λ d h. (
              h,
              All-imp (λ v. rank node < rank v) (λ v. rank d < rank v) (λ v k. omega arith) visiting
                  chain,
            ))

      inner_dependencies :
          ((v : List String) (d : String)
            → All (λ w. rank d < rank w) (node ∷ visiting)
            → NoCycle (visit graph fuel (node ∷ visiting) v d))
          → (entry : Option (List String)) → graph node ≡ entry
          → NoCycle
              (visit_dependencies (λ v d. visit graph fuel (node ∷ visiting) v d) node before entry)
      inner_dependencies call none e = tt
      inner_dependencies call (some ds) e =
          and_then-NoCycle (visit_all (λ v d. visit graph fuel (node ∷ visiting) v d) ds before)
            (λ v. done (node ∷ v))
            (visit_all-NoCycle (λ v d. visit graph fuel (node ∷ visiting) v d)
              (λ d. All (λ v. rank d < rank v) (node ∷ visiting)) call ds before
              (extend ds (falls node ds e)))
            (λ v. tt)
