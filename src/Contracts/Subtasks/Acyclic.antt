-- ===== src/Contracts/Subtasks/Acyclic.antt =====
-- `validate_subtask_plan` of contracts/task.py against the specification of a subtask plan.
use adaptive_agent_orchestra.Base.{
  ℕ, suc, ◌<◌, ◌≡◌, refl, ◌↔◌, true, false, all, some, List, [], ◌∷◌, map, String, contains,
  has_duplicates, All, All-of_all, all_of_All, All_of_contains, All-of_each, subst, length, arith,
  inl, inr, Bool-cases, ok, raise_if, >>-eq-ok, raise_if-eq-ok,
}
use adaptive_agent_orchestra.Contracts.Task.{SubtaskSpec}
use adaptive_agent_orchestra.Contracts.Subtasks.{
  Outcome, done, cycle, missing_key, out_of_fuel, visit, graph_of, subtask_ids, check_dependencies,
  raise_outcome, walk, normal_goal, check_plan, validate_subtask_plan,
}
use adaptive_agent_orchestra.Contracts.Subtasks.Visit.{
  Ends, free, AllVisited, visit_all-Ends, visit-Ends,
}
use adaptive_agent_orchestra.Contracts.Subtasks.Topological.{position, position-lt}
use adaptive_agent_orchestra.Contracts.Subtasks.Rank.{
  graph_of-known, visit-NoCycle, visit_all-NoCycle, Falls, NoCycle, IsAcyclic, graph_of-Falls,
  graph_of-own, KnownDependencies,
}

pub record IsPlan (casefold : String → String) (subtasks : List SubtaskSpec) : Type 0 where
  pub unique_ids : has_duplicates (subtask_ids subtasks) ≡ false
  pub unique_goals : has_duplicates (map (normal_goal casefold) subtasks) ≡ false
  pub known : KnownDependencies (subtask_ids subtasks) subtasks
  pub acyclic : IsAcyclic subtasks

-- The loop over the dependencies passes exactly when all are known and none is the subtask itself.
check_dependencies-eq-ok :
    (known : List String) (subtasks : List SubtaskSpec)
    → check_dependencies known subtasks ≡ ok tt
    → KnownDependencies known subtasks
unfolding check_dependencies
check_dependencies-eq-ok known [] h = tt
check_dependencies-eq-ok known (s ∷ rest) h =
    elim (Bool-cases (all (λ d. contains d known) s.dependencies)) [
      | inl inside ↦ elim (Bool-cases (contains s.id s.dependencies)) [
        | inl self ↦ cc (rw (inside, self) at h)
        | inr other ↦ (
          All-of_all (λ d. contains d known) s.dependencies inside,
          check_dependencies-eq-ok known rest (rw (inside, other) at h),
        )
      ]
      | inr outside ↦ cc (rw outside at h)
    ]

not_self :
    (rank : String → ℕ) (k : String) (ds : List String)
    → All (λ d. rank d < rank k) ds
    → contains k ds ≡ false
not_self rank k ds h = elim (Bool-cases (contains k ds)) [
  | inl self ↦ absurd (below (All_of_contains (λ d. rank d < rank k) k ds h self))
  | inr other ↦ other
]
  where
    below : rank k < rank k → ⊥
    below h = omega arith

check_dependencies_ok :
    (rank : String → ℕ) (known : List String) (subtasks : List SubtaskSpec)
    → KnownDependencies known subtasks
    → Falls rank subtasks
    → check_dependencies known subtasks ≡ ok tt
unfolding check_dependencies
check_dependencies_ok rank known [] h falls = refl
check_dependencies_ok rank known (s ∷ rest) (inside, later) (own, falls) =
    rw
      (
        all_of_All (λ d. contains d known) s.dependencies inside,
        not_self rank s.id s.dependencies own,
      )
      (check_dependencies_ok rank known rest later falls)

length-free-nil : (ids : List String) → free ids [] < suc (length ids)
length-free-nil [] = omega arith
length-free-nil (k ∷ ids) = omega (arith, length-free-nil ids)

-- With known dependencies the walk ends, by visiting every id in a topological order or by a cycle.
pub walk-Ends :
    (subtasks : List SubtaskSpec)
    → KnownDependencies (subtask_ids subtasks) subtasks
    → Ends (AllVisited (graph_of subtasks) [] (subtask_ids subtasks)) Unit (walk subtasks)
unfolding walk
walk-Ends subtasks known =
    let ids = subtask_ids subtasks in
    let closed = graph_of-known ids subtasks known in
    visit_all-Ends (graph_of subtasks) ids (visit (graph_of subtasks) (suc (length ids)) [])
      (λ before node m sorted.
        visit-Ends (graph_of subtasks) ids closed (suc (length ids)) [] before node
          (length-free-nil ids) m sorted)
      ids [] (All-of_each (λ d. contains d ids ≡ true) ids (λ k m. m)) tt

raise_outcome-ok : (o : Outcome) → raise_outcome o ≡ ok tt → (v : List String) × (o ≡ done v)
raise_outcome-ok (done v) h = (v, refl)
raise_outcome-ok cycle h = cc
raise_outcome-ok (missing_key k) h = cc
raise_outcome-ok out_of_fuel h = cc

-- A walk that returns leaves a topological order, whose positions are a rank.
Falls-of_visited :
    (whole : List SubtaskSpec) (visited : List String)
    → AllVisited (graph_of whole) [] (subtask_ids whole) visited
    → (subtasks : List SubtaskSpec)
    → All (λ (t : SubtaskSpec). graph_of whole t.id ≡ some t.dependencies) subtasks
    → All (λ (t : SubtaskSpec). contains t.id visited ≡ true) subtasks
    → Falls (position visited) subtasks
Falls-of_visited whole visited h [] e m = tt
Falls-of_visited whole visited h (s ∷ rest) (entry, es) (m, ms) = (
  All-of_each (λ d. position visited d < position visited s.id) s.dependencies
      (λ d inside. position-lt (graph_of whole) visited s.id d s.dependencies h.0 m entry inside),
  Falls-of_visited whole visited h rest es ms,
)

All-ids :
    (P : String → Type 0) (subtasks : List SubtaskSpec)
    → All P (subtask_ids subtasks)
    → All (λ (t : SubtaskSpec). P t.id) subtasks
All-ids P [] h = tt
All-ids P (s ∷ rest) (hs, h) = (hs, All-ids P rest h)

walk-IsAcyclic :
    (subtasks : List SubtaskSpec)
    → has_duplicates (subtask_ids subtasks) ≡ false
    → KnownDependencies (subtask_ids subtasks) subtasks
    → raise_outcome (walk subtasks) ≡ ok tt
    → IsAcyclic subtasks
walk-IsAcyclic subtasks unique known h =
    let (visited, e) = raise_outcome-ok (walk subtasks) h in
    let ends =
      subst (λ o. Ends (AllVisited (graph_of subtasks) [] (subtask_ids subtasks)) Unit o) e
        (walk-Ends subtasks known) in
    (
      position visited,
      Falls-of_visited subtasks visited ends subtasks (graph_of-own subtasks unique)
          (All-ids (λ k. contains k visited ≡ true) subtasks ends.1),
    )

walk-NoCycle : (subtasks : List SubtaskSpec) → IsAcyclic subtasks → NoCycle (walk subtasks)
unfolding walk
walk-NoCycle subtasks (rank, falls) =
    let ids = subtask_ids subtasks in
    visit_all-NoCycle (visit (graph_of subtasks) (suc (length ids)) []) (λ k. Unit)
      (λ before node allowed.
        visit-NoCycle rank (graph_of subtasks) (graph_of-Falls rank subtasks falls)
          (suc (length ids)) [] before node tt)
      ids [] (All-of_each (λ k. Unit) ids (λ k m. tt))

raise_outcome_of :
    (P : List String → Type 0) (o : Outcome) → Ends P Unit o → NoCycle o → raise_outcome o ≡ ok tt
raise_outcome_of P (done v) h n = refl
raise_outcome_of P cycle h n = absurd n
raise_outcome_of P (missing_key k) h n = absurd h
raise_outcome_of P out_of_fuel h n = absurd h

module _ (casefold : String → String) (subtasks : List SubtaskSpec) where
  check_plan-IsPlan : check_plan casefold subtasks ≡ ok tt → IsPlan casefold subtasks
  unfolding check_plan
  check_plan-IsPlan h =
      let (ids, h₁) = >>-eq-ok (raise_if (has_duplicates (subtask_ids subtasks)) _) _ h in
      let (goals, h₂) =
        >>-eq-ok (raise_if (has_duplicates (map (normal_goal casefold) subtasks)) _) _ h₁ in
      let (checked, walked) = >>-eq-ok (check_dependencies (subtask_ids subtasks) subtasks) _ h₂ in
      let known = check_dependencies-eq-ok (subtask_ids subtasks) subtasks checked in
      let unique = raise_if-eq-ok _ _ ids in
      record {
        unique_ids = unique;
        unique_goals = raise_if-eq-ok _ _ goals;
        known = known;
        acyclic = walk-IsAcyclic subtasks unique known walked;
      }

  IsPlan-check_plan : IsPlan casefold subtasks → check_plan casefold subtasks ≡ ok tt
  unfolding check_plan
  IsPlan-check_plan p =
      rw
        (
          p.unique_ids,
          p.unique_goals,
          check_dependencies_ok p.acyclic.0 (subtask_ids subtasks) subtasks p.known p.acyclic.1,
        )
        (raise_outcome_of (AllVisited (graph_of subtasks) [] (subtask_ids subtasks)) (walk subtasks)
          (walk-Ends subtasks p.known) (walk-NoCycle subtasks p.acyclic))

-- The validator accepts a subtask plan exactly when the ids are unique, the normalised goals are
-- unique, every dependency is the id of a subtask, and some rank of the ids falls along every
-- dependency, so that no chain of dependencies comes back.
pub validate_subtask_plan_iff :
    (casefold : String → String) (subtasks : List SubtaskSpec)
    → (validate_subtask_plan casefold subtasks ≡ ok tt) ↔ IsPlan casefold subtasks
unfolding validate_subtask_plan
validate_subtask_plan_iff casefold [] = (
  (λ h. record { unique_ids = refl; unique_goals = refl; known = tt; acyclic = ((λ k. 0), tt) }),
  (λ h. refl),
)
validate_subtask_plan_iff casefold (s ∷ rest) =
    (check_plan-IsPlan casefold (s ∷ rest), IsPlan-check_plan casefold (s ∷ rest))
