-- ===== src/Planning/Selector.antt =====
-- orchestrator/runtime_selector.py: the first runtime of the policy's order that is healthy, or else,
-- where the policy allows it, the first that is degraded.
pub mod Listed
pub mod Priority
use adaptive_agent_orchestra.Base.{
  Bool, true, false, ◌&&◌, ◌||◌, not, Option, none, some, List, [], ◌∷◌, map, filter, is_empty,
  String, str_append, contains, has_duplicates, Result, err, value_error, if◌then◌else◌,
}
use adaptive_agent_orchestra.Contracts.Selection.{
  RuntimeSelectionDecisionCode, RuntimeSelectionPolicy, RuntimeSelectionDecision, validate_decision,
}
use adaptive_agent_orchestra.Planning.Filter.{CandidateAssessment}

abbrev pub is_healthy : CandidateAssessment → Bool
is_healthy a = a.eligible && not a.degraded

abbrev pub is_fallback : CandidateAssessment → Bool
is_fallback a = a.eligible && a.degraded

abbrev pub runtime_names : List CandidateAssessment → List String
runtime_names = map (λ (a : CandidateAssessment). a.runtime)

-- The keys of `healthy_by_runtime` and of `degraded_by_runtime`.
abbrev pub healthy_names : List CandidateAssessment → List String
healthy_names assessments = runtime_names (filter is_healthy assessments)

abbrev pub degraded_names : List CandidateAssessment → List String
degraded_names assessments = runtime_names (filter is_fallback assessments)

-- `for runtime in policy.runtime_priority: if runtime in …: return …`.
unfoldable pub first_listed : List String → List String → Option String
first_listed names [] = none
first_listed names (runtime ∷ rest) =
    if contains runtime names then some runtime else first_listed names rest

module _ (policy : RuntimeSelectionPolicy) where
  open policy use {policy_version, runtime_priority, allow_degraded_fallback}

  -- The five decisions that are returned.
  abbrev pub healthy_decision : String → RuntimeSelectionDecision
  healthy_decision runtime = record {
    selected_runtime = some runtime;
    policy_version = policy_version;
    decision_code = RuntimeSelectionDecisionCode.selected_healthy;
    used_degraded_fallback = false;
    reasons = str_append "selected highest-priority healthy eligible runtime: " runtime ∷ [];
  }

  abbrev pub fallback_decision : String → RuntimeSelectionDecision
  fallback_decision runtime = record {
    selected_runtime = some runtime;
    policy_version = policy_version;
    decision_code = RuntimeSelectionDecisionCode.selected_degraded_fallback;
    used_degraded_fallback = true;
    reasons =
        "no healthy eligible candidate remained"
        ∷ str_append "selected highest-priority degraded eligible runtime as fallback: " runtime
        ∷ [];
  }

  abbrev pub empty_decision : RuntimeSelectionDecisionCode → List String → RuntimeSelectionDecision
  empty_decision code reasons = record {
    selected_runtime = none;
    policy_version = policy_version;
    decision_code = code;
    used_degraded_fallback = false;
    reasons = reasons;
  }

  abbrev pub disabled_decision : RuntimeSelectionDecision
  disabled_decision =
      empty_decision RuntimeSelectionDecisionCode.degraded_fallback_disabled
        ("no healthy eligible candidate remained" ∷ "degraded fallback is disabled" ∷ [])

  abbrev pub unmatched_decision : RuntimeSelectionDecision
  unmatched_decision =
      empty_decision RuntimeSelectionDecisionCode.no_policy_match
        ("eligible runtime candidates were not authorized by policy" ∷ [])

  abbrev pub no_candidate_decision : RuntimeSelectionDecision
  no_candidate_decision =
      empty_decision RuntimeSelectionDecisionCode.no_eligible_candidate
        ("no eligible runtime candidates were available" ∷ [])

  -- The two returns behind the fallback loop.
  no_selection : List String → List String → Result RuntimeSelectionDecision
  no_selection healthy degraded =
      if not (is_empty healthy) || not (is_empty degraded)
      then validate_decision unmatched_decision
      else validate_decision no_candidate_decision

  -- What follows the loop over the healthy candidates.
  select_degraded : List String → List String → Result RuntimeSelectionDecision
  select_degraded healthy degraded =
      if not (is_empty degraded) && not allow_degraded_fallback
      then validate_decision disabled_decision
      else elim (if allow_degraded_fallback then first_listed degraded runtime_priority else none) [
        | some runtime ↦ validate_decision (fallback_decision runtime)
        | none ↦ no_selection healthy degraded
      ]

  select_listed : List String → List String → Result RuntimeSelectionDecision
  select_listed healthy degraded = elim (first_listed healthy runtime_priority) [
    | some runtime ↦ validate_decision (healthy_decision runtime)
    | none ↦ select_degraded healthy degraded
  ]

unfoldable pub select_runtime :
    List CandidateAssessment → RuntimeSelectionPolicy → Result RuntimeSelectionDecision
unfolding select_listed select_degraded no_selection validate_decision first_listed
select_runtime assessments policy =
    if has_duplicates (runtime_names assessments)
    then err (value_error "duplicate candidate runtime")
    else select_listed policy (healthy_names assessments) (degraded_names assessments)
