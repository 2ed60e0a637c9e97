-- ===== src/Contracts/Selection.antt =====
-- contracts/runtime_selection.py: the preference order of the caller, and the decision.
use adaptive_agent_orchestra.Base.{
  Bool, true, false, ◌&&◌, not, xor_bool, Option, none, some, is_some, List, [], ◌∷◌, String,
  is_blank, contains, Result, ok, value_error, ◌>>◌, raise_if,
}

pub data RuntimeSelectionDecisionCode : Type 0 where
  selected_healthy selected_degraded_fallback : RuntimeSelectionDecisionCode
  no_eligible_candidate no_policy_match degraded_fallback_disabled : RuntimeSelectionDecisionCode

pub record RuntimeSelectionPolicy : Type 0 where
  pub policy_version : String
  pub runtime_priority : List String
  pub allow_degraded_fallback : Bool

-- The loop of `validate_runtime_priority` over the entries left, with the set `seen`.
unfoldable pub validate_runtime_priority : List String → List String → Result (Unit {0})
validate_runtime_priority seen [] = ok tt
validate_runtime_priority seen (runtime ∷ rest) =
    let next = validate_runtime_priority (runtime ∷ seen) rest in
    raise_if (is_blank runtime) (value_error "runtime_priority entries must not be blank")
    >> (raise_if (contains runtime seen) (value_error "runtime_priority entries must be unique")
        >> next)

unfoldable pub validate_selection_policy : RuntimeSelectionPolicy → Result RuntimeSelectionPolicy
unfolding validate_runtime_priority
validate_selection_policy p = do
  raise_if (is_blank p.policy_version) (value_error "policy_version must not be blank")
  validate_runtime_priority [] p.runtime_priority
  ok p

pub record RuntimeSelectionDecision : Type 0 where
  pub selected_runtime : Option String
  pub policy_version : String
  pub decision_code : RuntimeSelectionDecisionCode
  pub used_degraded_fallback : Bool
  pub reasons : List String

-- `self.decision_code in selected_codes`; the other codes are `empty_codes`.
abbrev pub is_selected_code : RuntimeSelectionDecisionCode → Bool
is_selected_code RuntimeSelectionDecisionCode.selected_healthy = true
is_selected_code RuntimeSelectionDecisionCode.selected_degraded_fallback = true
is_selected_code _ = false

abbrev pub is_degraded_code : RuntimeSelectionDecisionCode → Bool
is_degraded_code RuntimeSelectionDecisionCode.selected_degraded_fallback = true
is_degraded_code _ = false

-- `value is not None and not value.strip()`.
abbrev pub is_blank_name : Option String → Bool
is_blank_name none = false
is_blank_name (some value) = is_blank value

-- `validate_selected_runtime`, then `validate_decision_consistency`.
unfoldable pub validate_decision : RuntimeSelectionDecision → Result RuntimeSelectionDecision
validate_decision d = do
  raise_if (is_blank_name d.selected_runtime) (value_error "selected_runtime must not be blank")
  raise_if (is_selected_code d.decision_code && not (is_some d.selected_runtime))
      (value_error "selected decision requires selected_runtime")
  raise_if (not (is_selected_code d.decision_code) && is_some d.selected_runtime)
      (value_error "non-selected decision requires selected_runtime=None")
  raise_if (xor_bool d.used_degraded_fallback (is_degraded_code d.decision_code))
      (value_error "used_degraded_fallback contradicts decision_code")
  ok d
