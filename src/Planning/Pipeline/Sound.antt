-- ===== src/Planning/Pipeline/Sound.antt =====
-- What a plan of orchestrator/planning_pipeline.py says of the candidates that the caller supplied.
use adaptive_agent_orchestra.Base.{
  ◌≡◌, refl, ap, subst, true, false, Option, none, some, List, [], ◌∷◌, Memᴰ, String, contains,
  All_of_contains, is_blank, ok, >>=-eq-ok, >>-eq-ok,
}
use adaptive_agent_orchestra.Contracts.Selection.{
  RuntimeSelectionDecision, validate_selection_policy,
}
use adaptive_agent_orchestra.Contracts.Plan.{ExecutionMode, ExecutionModeDecision, RuntimePlan}
use adaptive_agent_orchestra.Planning.Filter.{RuntimeCandidate, assess_candidates}
use adaptive_agent_orchestra.Planning.Filter.Eligibility.{Covers}
use adaptive_agent_orchestra.Planning.Selector.{healthy_names, degraded_names, select_runtime}
use adaptive_agent_orchestra.Planning.Selector.Priority.{
  Explains, select_runtime-Decides, select_runtime-distinct, validate_selection_policy-NoBlank,
}
use adaptive_agent_orchestra.Planning.Mode.{select_execution_mode}
use adaptive_agent_orchestra.Planning.Mode.Arrangement.{Permits, select_execution_mode-Arranges}
use adaptive_agent_orchestra.Planning.Composer.{compose_runtime_plan}
use adaptive_agent_orchestra.Planning.Composer.Fields.{
  IsChecked, IsComposed, compose_runtime_plan-IsComposed,
}
use adaptive_agent_orchestra.Planning.Hmc.{Council, HmcPlanningContext}
use adaptive_agent_orchestra.Planning.Pipeline.{
  PlanningInput, PlanningResult, matching, validate_result, planning_result, plan_options,
  plan_mode, plan_matches, plan_selected, plan_runtime,
}
use adaptive_agent_orchestra.Planning.Pipeline.Matching.{matching-mem}
use adaptive_agent_orchestra.Planning.Pipeline.Evidence.{
  selected_candidate, IsSelected, Explains-IsSelected, HealthAllows,
}

-- Why a plan may be carried out.
pub record IsJustified (input : PlanningInput) (plan : RuntimePlan) : Type 0 where
  pub candidate : RuntimeCandidate
  pub supplied : Memᴰ candidate input.candidates
  pub named : candidate.runtime ≡ plan.executor
  pub covers : Covers candidate.capabilities input.requirements
  pub health : HealthAllows input candidate
  pub authorized : contains plan.executor input.selection_policy.runtime_priority ≡ true
  pub permits :
      Permits input.task_profile candidate.capabilities input.execution_mode_policy plan.executor
        plan.execution_mode
  pub checked : IsChecked plan

module _ (council : Council) where
  validate_result-eq : (r q : PlanningResult council) → validate_result council r ≡ ok q → r ≡ q
  unfolding validate_result
  validate_result-eq r q h = cc (>>-eq-ok _ (ok r) h).1

  module _ (input : PlanningInput) (context : Option (HmcPlanningContext council))
      (result : PlanningResult council) (plan : RuntimePlan) (planned : result.plan ≡ some plan)
      (selection : RuntimeSelectionDecision) (runtime : String)
      (chosen : selection.selected_runtime ≡ some runtime) (named : is_blank runtime ≡ false)
      (evidence : IsSelected input runtime) where
    -- From the mode decision of the one matching candidate.
    plan_mode-IsJustified :
        (c : RuntimeCandidate)
        → matching runtime input.candidates ≡ c ∷ []
        → (mode : ExecutionModeDecision) (decided : Option ExecutionMode)
        → select_execution_mode input.task_profile selection c.capabilities
            input.execution_mode_policy
          ≡ ok mode
        → plan_mode council input context selection mode decided ≡ ok result
        → IsJustified input plan
    unfolding plan_mode
    plan_mode-IsJustified c one mode none m h =
        cc (ap (λ (r : PlanningResult council). r.plan) (validate_result-eq _ result h))
    plan_mode-IsJustified c one mode (some x) m h =
        let (made, composed, valid) =
          >>=-eq-ok (compose_runtime_plan selection mode (plan_options council input context)) _
            h in
        let same : made ≡ plan =
          cc (ap (λ (r : PlanningResult council). r.plan) (validate_result-eq _ result valid)) in
        let facts =
          subst (IsComposed selection mode (plan_options council input context)) same
            (compose_runtime_plan-IsComposed selection mode _ made composed) in
        let runs : runtime ≡ plan.executor = cc (chosen, facts.selected) in
        let (covers, health) = selected_candidate input c runtime one evidence in
        let (member, name) = matching-mem runtime input.candidates c [] one in
        let (d, decided_mode, returned, dr, dm, dv, known, permits) =
          select_execution_mode-Arranges input.task_profile selection c.capabilities
            input.execution_mode_policy runtime chosen named in
        let same_decision : d ≡ mode = cc (returned, m) in
        let same_mode : decided_mode ≡ plan.execution_mode =
          cc (dm, facts.decided, ap (λ (y : ExecutionModeDecision). y.mode) same_decision) in
        record {
          candidate = c;
          supplied = member;
          named = cc (name, runs);
          covers = covers;
          health = health;
          authorized = rw (← runs) evidence.0;
          permits =
              subst
                (λ r.
                  Permits input.task_profile c.capabilities input.execution_mode_policy r
                    plan.execution_mode)
                runs
                (subst
                  (Permits input.task_profile c.capabilities input.execution_mode_policy runtime)
                  same_mode permits);
          checked = facts.checked;
        }

    plan_matches-IsJustified :
        (found : List RuntimeCandidate)
        → matching runtime input.candidates ≡ found
        → plan_matches council input context selection found ≡ ok result
        → IsJustified input plan
    unfolding plan_matches
    plan_matches-IsJustified [] one h = cc
    plan_matches-IsJustified (c ∷ []) one h =
        let (mode, m, rest) =
          >>=-eq-ok
            (select_execution_mode input.task_profile selection c.capabilities
              input.execution_mode_policy)
            _ h in
        plan_mode-IsJustified c one mode mode.mode m rest
    plan_matches-IsJustified (c ∷ d ∷ more) one h = cc

-- What a returned selection says of its runtime.
pub selection_evidence :
    (input : PlanningInput) (selection : RuntimeSelectionDecision) (runtime : String)
    → validate_selection_policy input.selection_policy ≡ ok input.selection_policy
    → select_runtime (assess_candidates input.requirements input.candidates) input.selection_policy
      ≡ ok selection
    → selection.selected_runtime ≡ some runtime
    → IsSelected input runtime
selection_evidence input selection runtime valid returned chosen =
    let assessed = assess_candidates input.requirements input.candidates in
    let distinct = select_runtime-distinct assessed input.selection_policy selection returned in
    let (d, decided, explained, flag, version) =
      select_runtime-Decides assessed input.selection_policy valid distinct in
    let same : d ≡ selection = cc (decided, returned) in
    let fits : d.selected_runtime ≡ some runtime =
      cc (chosen, ap (λ (x : RuntimeSelectionDecision). x.selected_runtime) same) in
    Explains-IsSelected input d.decision_code runtime (
      subst
        (Explains input.selection_policy (healthy_names assessed) (degraded_names assessed)
          d.decision_code)
        fits explained)

pub name_of_evidence :
    (input : PlanningInput) (runtime : String)
    → validate_selection_policy input.selection_policy ≡ ok input.selection_policy
    → IsSelected input runtime
    → is_blank runtime ≡ false
name_of_evidence input runtime valid evidence =
    All_of_contains (λ r. is_blank r ≡ false) runtime input.selection_policy.runtime_priority
      (validate_selection_policy-NoBlank input.selection_policy valid) evidence.0

-- Whenever the pipeline, under a valid selection policy, returns a plan, the caller supplied a
-- candidate of the plan's executor that has every required capability, that is available, or is
-- degraded where the policy allows the fallback, and that the policy's order names; the plan's mode
-- is one that profile, capabilities and mode policy permit for it and that is known for the executor,
-- and no reviewer of the plan is its executor.
pub plan_runtime-IsJustified :
    (council : Council) (input : PlanningInput) (context : Option (HmcPlanningContext council))
    (result : PlanningResult council) (plan : RuntimePlan)
    → validate_selection_policy input.selection_policy ≡ ok input.selection_policy
    → plan_runtime council input context ≡ ok result
    → result.plan ≡ some plan
    → IsJustified input plan
unfolding plan_runtime
plan_runtime-IsJustified council input context result plan valid h planned =
    let (selection, returned, rest) =
      >>=-eq-ok
        (select_runtime (assess_candidates input.requirements input.candidates)
          input.selection_policy)
        _ h in
    by_selected selection returned selection.selected_runtime refl rest
  where
    by_selected :
        (selection : RuntimeSelectionDecision)
        → select_runtime
            (assess_candidates input.requirements input.candidates)
            input.selection_policy
          ≡ ok selection
        → (selected : Option String) → selection.selected_runtime ≡ selected
        → plan_selected council input context selection selected ≡ ok result
        → IsJustified input plan
    by_selected selection returned none e rest = cc (
        ap (λ (r : PlanningResult council). r.plan)
          (validate_result-eq council (planning_result council input context selection none none)
            result (unfold plan_selected in rest)))
    by_selected selection returned (some runtime) e rest =
        let evidence = selection_evidence input selection runtime valid returned e in
        plan_matches-IsJustified council input context result plan planned selection runtime e
          (name_of_evidence input runtime valid evidence) evidence
          (matching runtime input.candidates) refl (unfold plan_selected in rest)
