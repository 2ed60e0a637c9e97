-- ===== src/Planning/Selector/Priority.antt =====
-- The decision of orchestrator/runtime_selector.py, explained by its code.
use adaptive_agent_orchestra.Base.{
  ◌≡◌, refl, ◌≢◌, sym, subst, ◌⊎◌, inl, inr, true, false, Option, none, some, Option-cases,
  Bool-cases, and_false, List, [], ◌∷◌, String, is_blank, contains, has_duplicates, Result, ok,
  raise_if, >>-eq-ok,
}
use adaptive_agent_orchestra.Contracts.Selection.{
  RuntimeSelectionDecisionCode, RuntimeSelectionPolicy, RuntimeSelectionDecision, validate_decision,
  is_degraded_code, validate_runtime_priority, validate_selection_policy,
}
use adaptive_agent_orchestra.Planning.Filter.{CandidateAssessment}
use adaptive_agent_orchestra.Planning.Selector.{
  runtime_names, healthy_names, degraded_names, first_listed, no_selection, healthy_decision,
  fallback_decision, unmatched_decision, disabled_decision, no_candidate_decision, select_degraded,
  select_listed, select_runtime,
}
use adaptive_agent_orchestra.Planning.Selector.Listed.{
  first_listed-some, first_listed-none, first_listed-NoBlank, NoBlank, IsFirst, NoneListed,
}

-- What a decision over these healthy and degraded names says, by its code.
abbrev pub Explains :
    RuntimeSelectionPolicy
    → List String
    → List String
    → RuntimeSelectionDecisionCode
    → Option String
    → Type 0
Explains p healthy degraded RuntimeSelectionDecisionCode.selected_healthy selected =
    (runtime : String) × (selected ≡ some runtime) × IsFirst healthy p.runtime_priority runtime
Explains p healthy degraded RuntimeSelectionDecisionCode.selected_degraded_fallback selected =
    (runtime : String) × (selected ≡ some runtime)
    × (p.allow_degraded_fallback ≡ true)
    × NoneListed healthy p.runtime_priority
    × IsFirst degraded p.runtime_priority runtime
Explains p healthy degraded RuntimeSelectionDecisionCode.degraded_fallback_disabled selected =
    (selected ≡ none)
    × (p.allow_degraded_fallback ≡ false)
    × NoneListed healthy p.runtime_priority
    × (degraded ≢ [])
Explains p healthy degraded RuntimeSelectionDecisionCode.no_policy_match selected =
    (selected ≡ none)
    × NoneListed healthy p.runtime_priority
    × NoneListed degraded p.runtime_priority
    × ((healthy ≢ []) ⊎ (degraded ≢ []))
Explains p healthy degraded RuntimeSelectionDecisionCode.no_eligible_candidate selected =
    (selected ≡ none) × (healthy ≡ []) × (degraded ≡ [])

-- The decision is returned, and is explained.
abbrev pub Decides :
    RuntimeSelectionPolicy → List String → List String → Result RuntimeSelectionDecision → Type 0
Decides p healthy degraded result =
    (d : RuntimeSelectionDecision) × (result ≡ ok d)
    × Explains p healthy degraded d.decision_code d.selected_runtime
    × (d.used_degraded_fallback ≡ is_degraded_code d.decision_code)
    × (d.policy_version ≡ p.policy_version)

NoneListed-nil : (order : List String) → NoneListed [] order
NoneListed-nil [] = tt
NoneListed-nil (r ∷ rest) = (refl, NoneListed-nil rest)

module _ (p : RuntimeSelectionPolicy) where
  no_selection-Decides :
      (healthy degraded : List String)
      → NoneListed healthy p.runtime_priority
      → NoneListed degraded p.runtime_priority
      → Decides p healthy degraded (no_selection p healthy degraded)
  unfolding no_selection validate_decision
  no_selection-Decides [] [] h d = (no_candidate_decision p, refl, (refl, refl, refl), refl, refl)
  no_selection-Decides [] (x ∷ ds) h d =
      (unmatched_decision p, refl, (refl, h, d, inr (λ e. cc)), refl, refl)
  no_selection-Decides (x ∷ hs) ds h d =
      (unmatched_decision p, refl, (refl, h, d, inl (λ e. cc)), refl, refl)

  -- With the fallback allowed the loop over the degraded runtimes decides.
  fallback_allowed :
      (healthy degraded : List String)
      → p.allow_degraded_fallback ≡ true
      → (o : Option String) → first_listed degraded p.runtime_priority ≡ o
      → NoBlank p.runtime_priority
      → NoneListed healthy p.runtime_priority
      → Decides p healthy degraded (select_degraded p healthy degraded)
  unfolding select_degraded validate_decision
  fallback_allowed healthy degraded allowed none e clean h =
      let same : select_degraded p healthy degraded ≡ no_selection p healthy degraded =
        simp (allowed, and_false, e) in
      subst (Decides p healthy degraded) (sym same)
        (no_selection-Decides healthy degraded h (first_listed-none degraded p.runtime_priority e))
  fallback_allowed healthy degraded allowed (some runtime) e clean h = (
    fallback_decision p runtime,
    simp (allowed, and_false, e, first_listed-NoBlank degraded p.runtime_priority runtime clean e),
    (runtime, refl, allowed, h, first_listed-some degraded p.runtime_priority runtime e),
    refl,
    refl,
  )

  fallback_forbidden :
      (healthy degraded : List String)
      → p.allow_degraded_fallback ≡ false
      → NoneListed healthy p.runtime_priority
      → Decides p healthy degraded (select_degraded p healthy degraded)
  unfolding select_degraded validate_decision
  fallback_forbidden healthy [] forbidden h =
      let same : select_degraded p healthy [] ≡ no_selection p healthy [] = simp forbidden in
      subst (Decides p healthy []) (sym same)
        (no_selection-Decides healthy [] h (NoneListed-nil p.runtime_priority))
  fallback_forbidden healthy (d ∷ ds) forbidden h =
      (disabled_decision p, simp forbidden, (refl, forbidden, h, λ e. cc), refl, refl)

  select_listed-Decides :
      (healthy degraded : List String)
      → NoBlank p.runtime_priority
      → Decides p healthy degraded (select_listed p healthy degraded)
  unfolding select_listed validate_decision
  select_listed-Decides healthy degraded clean =
      elim (Option-cases (first_listed healthy p.runtime_priority)) [
        | inl absent ↦
            let none_healthy = first_listed-none healthy p.runtime_priority absent in
            let same : select_listed p healthy degraded ≡ select_degraded p healthy degraded =
              rw (absent, select_listed) refl in
            subst (Decides p healthy degraded) (sym same)
              (elim (Bool-cases p.allow_degraded_fallback) [
                | inl allowed ↦
                    fallback_allowed healthy degraded allowed
                      (first_listed degraded p.runtime_priority) refl clean none_healthy
                | inr forbidden ↦ fallback_forbidden healthy degraded forbidden none_healthy
              ])
        | inr (runtime, found) ↦ (
          healthy_decision p runtime,
          rw (found, select_listed)
              (simp (first_listed-NoBlank healthy p.runtime_priority runtime clean found)),
          (runtime, refl, first_listed-some healthy p.runtime_priority runtime found),
          refl,
          refl,
        )
      ]

validate_runtime_priority-NoBlank :
    (seen order : List String) → validate_runtime_priority seen order ≡ ok tt → NoBlank order
unfolding validate_runtime_priority
validate_runtime_priority-NoBlank seen [] h = tt
validate_runtime_priority-NoBlank seen (r ∷ rest) h = elim (Bool-cases (is_blank r)) [
  | inl blank ↦ cc (rw blank at h)
  | inr clean ↦ elim (Bool-cases (contains r seen)) [
    | inl again ↦ cc (rw (clean, again) at h)
    | inr fresh ↦
        (clean, validate_runtime_priority-NoBlank (r ∷ seen) rest (rw (clean, fresh) at h))
  ]
]

pub validate_selection_policy-NoBlank :
    (p : RuntimeSelectionPolicy) → validate_selection_policy p ≡ ok p → NoBlank p.runtime_priority
unfolding validate_selection_policy
validate_selection_policy-NoBlank p h =
    let later = (>>-eq-ok (raise_if (is_blank p.policy_version) _) _ h).1 in
    validate_runtime_priority-NoBlank [] p.runtime_priority
      (>>-eq-ok (validate_runtime_priority [] p.runtime_priority) _ later).0

pub select_runtime-Decides :
    (assessments : List CandidateAssessment) (p : RuntimeSelectionPolicy)
    → validate_selection_policy p ≡ ok p
    → has_duplicates (runtime_names assessments) ≡ false
    → Decides p
        (healthy_names assessments)
        (degraded_names assessments)
        (select_runtime assessments p)
unfolding select_runtime
select_runtime-Decides assessments p valid distinct = rw distinct (
    select_listed-Decides p (healthy_names assessments) (degraded_names assessments)
      (validate_selection_policy-NoBlank p valid))

-- A selection that returns was made among distinct runtimes.
pub select_runtime-distinct :
    (assessments : List CandidateAssessment) (p : RuntimeSelectionPolicy)
    (d : RuntimeSelectionDecision)
    → select_runtime assessments p ≡ ok d
    → has_duplicates (runtime_names assessments) ≡ false
unfolding select_runtime
select_runtime-distinct assessments p d h =
    elim (Bool-cases (has_duplicates (runtime_names assessments))) [
      | inl twice ↦ cc (rw twice at h)
      | inr distinct ↦ distinct
    ]
