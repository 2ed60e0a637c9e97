-- ===== src/Planning/Pipeline/Evidence.antt =====
-- What a selected name says of the candidate that it stands for.
use adaptive_agent_orchestra.Base.{
  ◌≡◌, refl, subst, ◌⊎◌, inl, inr, true, not, and_true, some, [], ◌∷◌, String, contains,
  contains-append,
}
use adaptive_agent_orchestra.Contracts.Runtime.{HealthStatus}
use adaptive_agent_orchestra.Contracts.Selection.{RuntimeSelectionDecisionCode}
use adaptive_agent_orchestra.Planning.Filter.{
  RuntimeCandidate, is_degraded, assess_candidate, assess_candidates,
}
use adaptive_agent_orchestra.Planning.Filter.Eligibility.{
  Covers, IsUsable, assess_candidate-eligible_iff,
}
use adaptive_agent_orchestra.Planning.Selector.{
  is_healthy, is_fallback, healthy_names, degraded_names,
}
use adaptive_agent_orchestra.Planning.Selector.Priority.{Explains}
use adaptive_agent_orchestra.Planning.Pipeline.{PlanningInput, matching}
use adaptive_agent_orchestra.Planning.Pipeline.Matching.{passing-test}

-- The health that lets a candidate be selected: a degraded one is taken as a fallback only.
abbrev pub HealthAllows : PlanningInput → RuntimeCandidate → Type 0
HealthAllows input c =
    (c.health.status ≡ HealthStatus.available)
    ⊎ ((c.health.status ≡ HealthStatus.degraded)
        × (input.selection_policy.allow_degraded_fallback ≡ true))

-- What the explanation of a selected runtime says of it.
abbrev pub IsSelected : PlanningInput → String → Type 0
IsSelected input runtime =
    let assessed = assess_candidates input.requirements input.candidates in
    (contains runtime input.selection_policy.runtime_priority ≡ true)
    × ((contains runtime (healthy_names assessed) ≡ true)
        ⊎ ((contains runtime (degraded_names assessed) ≡ true)
            × (input.selection_policy.allow_degraded_fallback ≡ true)))

pub Explains-IsSelected :
    (input : PlanningInput) (code : RuntimeSelectionDecisionCode) (runtime : String)
    → let assessed = assess_candidates input.requirements input.candidates in
      Explains input.selection_policy
        (healthy_names assessed)
        (degraded_names assessed)
        code
        (some runtime)
      → IsSelected input runtime
Explains-IsSelected input RuntimeSelectionDecisionCode.selected_healthy runtime
      (r, e, (before, after, split, none_before, inside)) =
    let same : r ≡ runtime = cc e in
    subst (IsSelected input) same (rw split (contains-append r before after), inl inside)
Explains-IsSelected input RuntimeSelectionDecisionCode.selected_degraded_fallback runtime
      (r, e, allowed, no_healthy, (before, after, split, none_before, inside)) =
    let same : r ≡ runtime = cc e in
    subst (IsSelected input) same (rw split (contains-append r before after), inr (inside, allowed))
Explains-IsSelected input RuntimeSelectionDecisionCode.degraded_fallback_disabled runtime
      (e, x, y, z) =
    cc
Explains-IsSelected input RuntimeSelectionDecisionCode.no_policy_match runtime (e, x, y, z) = cc
Explains-IsSelected input RuntimeSelectionDecisionCode.no_eligible_candidate runtime
      (e, none_healthy, none_degraded) =
    cc

degraded_of : (status : HealthStatus) → is_degraded status ≡ true → status ≡ HealthStatus.degraded
degraded_of HealthStatus.available h = cc
degraded_of HealthStatus.degraded h = refl
degraded_of HealthStatus.unavailable h = cc
degraded_of HealthStatus.unknown h = cc

available_of :
    (status : HealthStatus)
    → IsUsable status
    → not (is_degraded status) ≡ true
    → status ≡ HealthStatus.available
available_of HealthStatus.available u h = refl
available_of HealthStatus.degraded u h = cc
available_of HealthStatus.unavailable (inl e) h = cc e
available_of HealthStatus.unavailable (inr e) h = cc e
available_of HealthStatus.unknown (inl e) h = cc e
available_of HealthStatus.unknown (inr e) h = cc e

module _ (input : PlanningInput) (c : RuntimeCandidate) where
  healthy_candidate :
      is_healthy (assess_candidate input.requirements c) ≡ true
      → Covers c.capabilities input.requirements × (c.health.status ≡ HealthStatus.available)
  healthy_candidate h =
      let (eligible, sound) = and_true (assess_candidate input.requirements c).eligible _ h in
      let (covers, usable) = (assess_candidate-eligible_iff input.requirements c).0 eligible in
      (covers, available_of c.health.status usable (unfold assess_candidate in sound))

  fallback_candidate :
      is_fallback (assess_candidate input.requirements c) ≡ true
      → Covers c.capabilities input.requirements × (c.health.status ≡ HealthStatus.degraded)
  fallback_candidate h =
      let (eligible, degraded) = and_true (assess_candidate input.requirements c).eligible _ h in
      (
        ((assess_candidate-eligible_iff input.requirements c).0 eligible).0,
        degraded_of c.health.status (unfold assess_candidate in degraded),
      )

  -- The candidate that a selected name stands for has the capabilities and the health.
  pub selected_candidate :
      (runtime : String)
      → matching runtime input.candidates ≡ c ∷ []
      → IsSelected input runtime
      → Covers c.capabilities input.requirements × HealthAllows input c
  unfolding assess_candidates
  selected_candidate runtime one (listed, inl healthy) =
      let (covers, available) =
        healthy_candidate
          (passing-test input.requirements is_healthy runtime input.candidates c one healthy) in
      (covers, inl available)
  selected_candidate runtime one (listed, inr (degraded, allowed)) =
      let (covers, poor) =
        fallback_candidate
          (passing-test input.requirements is_fallback runtime input.candidates c one degraded) in
      (covers, inr (poor, allowed))
