-- ===== src/Planning/Pipeline/Total.antt =====
-- When orchestrator/planning_pipeline.py returns: well-formed input, and the validators on the way.
use adaptive_agent_orchestra.Base.{
  ◌≡◌, refl, ap, ◌∙◌, ◌⊎◌, inl, inr, Bool, true, false, Option, none, some, List, [], ◌∷◌, map,
  String, str_eq_refl, contains, has_duplicates, is_blank, All, All_of_contains, ok, ◌>>=◌, ◌>>◌,
  raise_if, >>-eq-ok, raise_if-eq-ok, arith,
}
use adaptive_agent_orchestra.Contracts.Runtime.{TaskRequirements}
use adaptive_agent_orchestra.Contracts.Selection.{
  RuntimeSelectionPolicy, RuntimeSelectionDecision, validate_selection_policy, is_blank_name,
}
use adaptive_agent_orchestra.Contracts.Plan.{
  ExecutionMode, ExecutionModeDecision, RuntimePlan, is_name, mode_eq,
}
use adaptive_agent_orchestra.Planning.Filter.{
  RuntimeCandidate, CandidateAssessment, assess_candidate, assess_candidates,
}
use adaptive_agent_orchestra.Planning.Selector.{
  is_healthy, is_fallback, runtime_names, select_runtime,
}
use adaptive_agent_orchestra.Planning.Selector.Priority.{select_runtime-Decides}
use adaptive_agent_orchestra.Planning.Mode.Arrangement.{select_execution_mode-Arranges}
use adaptive_agent_orchestra.Planning.Composer.{composed_plan}
use adaptive_agent_orchestra.Planning.Composer.Fields.{compose_runtime_plan_ok}
use adaptive_agent_orchestra.Planning.Hmc.{Council, HmcPlanningContext}
use adaptive_agent_orchestra.Planning.Pipeline.{
  PlanningInput, PlanningResult, planner_of, differs_from_context, validate_result,
  check_consistency, check_mode, planning_result, plan_options, plan_mode, plan_matches,
  plan_selected, plan_runtime,
}
use adaptive_agent_orchestra.Planning.Pipeline.Matching.{candidate_names, matching_unique, passing}
use adaptive_agent_orchestra.Planning.Pipeline.Evidence.{IsSelected}
use adaptive_agent_orchestra.Planning.Pipeline.Sound.{selection_evidence, name_of_evidence}

-- Valid policies, distinct candidates, named texts, and a reviewer that is no executor.
pub record IsWellFormed (council : Council) (input : PlanningInput)
    (context : Option (HmcPlanningContext council)) : Type 0 where
  pub policy : validate_selection_policy input.selection_policy ≡ ok input.selection_policy
  pub distinct : has_duplicates (candidate_names input.candidates) ≡ false
  pub plan_version : is_blank input.options.plan_policy_version ≡ false
  pub mode_version : is_blank input.execution_mode_policy.policy_version ≡ false
  pub planner : is_blank_name (planner_of council context input.options.planner) ≡ false
  pub reviewer : is_blank_name input.options.reviewer ≡ false
  pub independent :
      All (λ r. is_name input.options.reviewer r ≡ false) input.selection_policy.runtime_priority

-- The pipeline returned a plan for the selected runtime, or no runtime was selected.
abbrev pub Concludes : (council : Council) → PlanningResult council → Type 0
Concludes council result =
    ((result.selection.selected_runtime ≡ none) × (result.plan ≡ none))
    ⊎ ((plan : RuntimePlan) × (result.plan ≡ some plan)
        × (result.selection.selected_runtime ≡ some plan.executor))

-- Assessment keeps the candidates' names and their order.
runtime_names-assess :
    (requirements : TaskRequirements) (candidates : List RuntimeCandidate)
    → runtime_names (map (assess_candidate requirements) candidates) ≡ candidate_names candidates
unfolding assess_candidate
runtime_names-assess requirements [] = refl
runtime_names-assess requirements (c ∷ cs) =
    ap (λ l. c.runtime ∷ l) (runtime_names-assess requirements cs)

-- A name among those that pass a test is the name of a candidate.
contains-passing :
    (requirements : TaskRequirements) (test : CandidateAssessment → Bool) (runtime : String)
    (candidates : List RuntimeCandidate)
    → contains runtime (passing requirements test candidates) ≡ true
    → contains runtime (candidate_names candidates) ≡ true
unfolding assess_candidate
contains-passing requirements test runtime [] h = h
contains-passing requirements test runtime (c ∷ cs) h =
    ground (arith, contains-passing requirements test runtime cs)

mode_eq_refl : (m : ExecutionMode) → mode_eq m m ≡ true
mode_eq_refl ExecutionMode.native = refl
mode_eq_refl ExecutionMode.direct = refl
mode_eq_refl ExecutionMode.delegate = refl
mode_eq_refl ExecutionMode.kanban = refl

policy_named :
    (p : RuntimeSelectionPolicy)
    → validate_selection_policy p ≡ ok p
    → is_blank p.policy_version ≡ false
unfolding validate_selection_policy
policy_named p h = raise_if-eq-ok _ _ (>>-eq-ok (raise_if (is_blank p.policy_version) _) _ h).0

module _ (council : Council) (input : PlanningInput)
    (context : Option (HmcPlanningContext council)) where
  same_planner :
      (context : Option (HmcPlanningContext council)) (planner : Option String)
      → differs_from_context council context (planner_of council context planner) ≡ false
  same_planner none planner = refl
  same_planner (some c) planner = simp (str_eq_refl c.planner_id)

  -- The validator of the result agrees with a plan that the composer made.
  check_composed :
      (selection : RuntimeSelectionDecision) (mode : ExecutionModeDecision) (runtime : String)
      (m : ExecutionMode)
      → mode.runtime ≡ some runtime
      → mode.mode ≡ some m
      → check_consistency council
          (some runtime)
          (some mode)
          (some (composed_plan selection mode (plan_options council input context) runtime m))
          context
        ≡ ok tt
  unfolding check_consistency
  check_composed selection mode runtime m er em =
      let plan = composed_plan selection mode (plan_options council input context) runtime m in
      let named : is_name mode.runtime runtime ≡ true =
        ap (λ n. is_name n runtime) er ∙ str_eq_refl runtime in
      rw named (
        (λ i. check_mode council runtime (em i) (some plan) context)
        ∙ (unfold check_mode in
            simp (str_eq_refl runtime, mode_eq_refl m, same_planner context input.options.planner)))

  validate_composed :
      (selection : RuntimeSelectionDecision) (mode : ExecutionModeDecision) (runtime : String)
      (m : ExecutionMode)
      → selection.selected_runtime ≡ some runtime
      → mode.runtime ≡ some runtime
      → mode.mode ≡ some m
      → let plan = composed_plan selection mode (plan_options council input context) runtime m in
        validate_result council
          (planning_result council input context selection (some mode) (some plan))
        ≡ ok (planning_result council input context selection (some mode) (some plan))
  unfolding validate_result
  validate_composed selection mode runtime m es er em =
      let plan = composed_plan selection mode (plan_options council input context) runtime m in
      let result = planning_result council input context selection (some mode) (some plan) in
      ap (λ c. c >> ok result)
        ((λ i. check_consistency council (es i) (some mode) (some plan) context)
          ∙ check_composed selection mode runtime m er em)

  module _ (well : IsWellFormed council input context) where
    -- With one candidate of the selected name the rest of the chain goes through.
    plan_matches-Concludes :
        (selection : RuntimeSelectionDecision) (runtime : String) (c : RuntimeCandidate)
        → selection.selected_runtime ≡ some runtime
        → selection.policy_version ≡ input.selection_policy.policy_version
        → IsSelected input runtime
        → (result : PlanningResult council) × (plan_matches council input context selection (c ∷ [])
            ≡ ok result)
          × Concludes council result
    unfolding plan_matches plan_mode
    plan_matches-Concludes selection runtime c es sv evidence =
        let named = name_of_evidence input runtime well.policy evidence in
        let (mode, m, returned, er, em, mv, known, permits) =
          select_execution_mode-Arranges input.task_profile selection c.capabilities
            input.execution_mode_policy runtime es named in
        let options = plan_options council input context in
        let plan = composed_plan selection mode options runtime m in
        let composed =
          compose_runtime_plan_ok selection mode options runtime m well.plan_version named
            well.planner well.reviewer (rw sv (policy_named input.selection_policy well.policy))
            (rw mv well.mode_version)
            (All_of_contains (λ r. is_name input.options.reviewer r ≡ false) runtime
              input.selection_policy.runtime_priority well.independent evidence.0)
            known es er em in
        (
          planning_result council input context selection (some mode) (some plan),
          ap
                (λ x. x >>= λ (d : ExecutionModeDecision).
                  plan_mode council input context selection d d.mode)
                returned
              ∙ ((λ i. plan_mode council input context selection mode (em i))
                  ∙ (ap
                        (λ x. x >>= λ p.
                          validate_result council
                            (planning_result council input context selection (some mode) (some p)))
                        composed
                      ∙ validate_composed selection mode runtime m es er em)),
          inr (plan, refl, es),
        )

-- On well-formed input (valid policies, distinct candidate names, a named plan version, planner and
-- reviewer, and a reviewer that is no runtime of the order) the pipeline returns a result, so no
-- validator on its way raises; and the result holds a plan run by the selected runtime exactly when
-- a runtime was selected.
pub plan_runtime-Concludes :
    (council : Council) (input : PlanningInput) (context : Option (HmcPlanningContext council))
    → IsWellFormed council input context
    → (result : PlanningResult council) × (plan_runtime council input context ≡ ok result)
      × Concludes council result
unfolding plan_runtime
plan_runtime-Concludes council input context well =
    let assessed = assess_candidates input.requirements input.candidates in
    let (selection, returned, explained, flag, version) =
      select_runtime-Decides assessed input.selection_policy well.policy
        (distinct_names input well.distinct) in
    let (result, planned, concludes) =
      by_selected selection returned version selection.selected_runtime refl in
    (
      result,
      ap
            (λ x. x >>= λ (s : RuntimeSelectionDecision).
              plan_selected council input context s s.selected_runtime)
            returned
          ∙ planned,
      concludes,
    )
  where
    distinct_names :
        (input : PlanningInput)
        → has_duplicates (candidate_names input.candidates) ≡ false
        → has_duplicates (runtime_names (assess_candidates input.requirements input.candidates))
          ≡ false
    distinct_names input h =
        unfold assess_candidates in rw (runtime_names-assess input.requirements input.candidates) h

    supplied :
        (runtime : String)
        → IsSelected input runtime
        → contains runtime (candidate_names input.candidates) ≡ true
    supplied runtime (listed, inl healthy) =
        contains-passing input.requirements is_healthy runtime input.candidates
          (unfold assess_candidates in healthy)
    supplied runtime (listed, inr (degraded, allowed)) =
        contains-passing input.requirements is_fallback runtime input.candidates
          (unfold assess_candidates in degraded)

    by_selected :
        (selection : RuntimeSelectionDecision)
        → select_runtime
            (assess_candidates input.requirements input.candidates)
            input.selection_policy
          ≡ ok selection
        → selection.policy_version ≡ input.selection_policy.policy_version
        → (selected : Option String) → selection.selected_runtime ≡ selected
        → (result : PlanningResult council) × (plan_selected council input context selection
              selected
            ≡ ok result)
          × Concludes council result
    by_selected selection returned version none e = (
      planning_result council input context selection none none,
      unfold plan_selected validate_result check_consistency in
          ap (λ c. c >> ok (planning_result council input context selection none none))
            (λ i. check_consistency council (e i) none none context),
      inl (e, refl),
    )
    by_selected selection returned version (some runtime) e =
        let evidence = selection_evidence input selection runtime well.policy returned e in
        let (c, one) =
          matching_unique runtime input.candidates well.distinct (supplied runtime evidence) in
        let (result, planned, concludes) =
          plan_matches-Concludes council input context well selection runtime c e version
            evidence in
        (
          result,
          unfold plan_selected in ap (plan_matches council input context selection) one ∙ planned,
          concludes,
        )
