-- ===== src/Contracts/Plan.antt =====
-- contracts/execution_mode.py and contracts/runtime_plan.py. Both declare an `ExecutionMode` with the
-- same four values, which compare equal as strings: they are one type here.
use adaptive_agent_orchestra.Base.{
  Bool, true, false, ◌||◌, not, Option, none, some, is_some, List, String, is_blank, str_eq, Result,
  ok, value_error, ◌>>◌, raise_if, if◌then◌else◌,
}
use adaptive_agent_orchestra.Contracts.Selection.{is_blank_name}

pub data ExecutionMode : Type 0 where
  native direct delegate kanban : ExecutionMode

pub data ExecutionModeDecisionCode : Type 0 where
  selected_native selected_direct selected_delegate selected_kanban : ExecutionModeDecisionCode
  no_selected_runtime unsupported_mode : ExecutionModeDecisionCode

pub record ExecutionModePolicy : Type 0 where
  pub policy_version : String
  pub allow_delegate : Bool
  pub allow_kanban : Bool

unfoldable pub validate_mode_policy : ExecutionModePolicy → Result ExecutionModePolicy
validate_mode_policy p =
    raise_if (is_blank p.policy_version) (value_error "policy_version must not be blank") >> ok p

pub record ExecutionModeDecision : Type 0 where
  pub runtime : Option String
  pub mode : Option ExecutionMode
  pub policy_version : String
  pub decision_code : ExecutionModeDecisionCode
  pub reasons : List String

abbrev pub mode_eq : ExecutionMode → ExecutionMode → Bool
mode_eq native native = true
mode_eq direct direct = true
mode_eq delegate delegate = true
mode_eq kanban kanban = true
mode_eq _ _ = false

-- `self.mode != expected`.
abbrev pub mode_differs : Option ExecutionMode → ExecutionMode → Bool
mode_differs none expected = true
mode_differs (some m) expected = not (mode_eq m expected)

abbrev check_selected_mode : ExecutionModeDecision → ExecutionMode → Result ExecutionModeDecision
check_selected_mode d expected =
    raise_if (not (is_some d.runtime)) (value_error "selected execution mode requires runtime")
    >> (raise_if (mode_differs d.mode expected)
          (value_error "execution mode contradicts decision_code")
        >> ok d)

-- The branches of `validate_decision_consistency`, by `decision_code`.
abbrev check_mode_code :
    ExecutionModeDecisionCode → ExecutionModeDecision → Result ExecutionModeDecision
check_mode_code ExecutionModeDecisionCode.selected_native d = check_selected_mode d native
check_mode_code ExecutionModeDecisionCode.selected_direct d = check_selected_mode d direct
check_mode_code ExecutionModeDecisionCode.selected_delegate d = check_selected_mode d delegate
check_mode_code ExecutionModeDecisionCode.selected_kanban d = check_selected_mode d kanban
check_mode_code ExecutionModeDecisionCode.no_selected_runtime d =
    raise_if (is_some d.runtime || is_some d.mode)
      (value_error "no_selected_runtime requires runtime=None and mode=None")
    >> ok d
check_mode_code ExecutionModeDecisionCode.unsupported_mode d =
    raise_if (not (is_some d.runtime) || is_some d.mode)
      (value_error "unsupported_mode requires runtime and mode=None")
    >> ok d

-- `validate_runtime`, then `validate_decision_consistency`.
unfoldable pub validate_mode_decision : ExecutionModeDecision → Result ExecutionModeDecision
validate_mode_decision d =
    raise_if (is_blank_name d.runtime) (value_error "runtime must not be blank")
    >> check_mode_code d.decision_code d

pub record RuntimePlan : Type 0 where
  pub planner : Option String
  pub executor : String
  pub execution_mode : ExecutionMode
  pub reviewer : Option String
  pub fallback : Option String
  pub policy_version : String
  pub selection_policy_version : Option String
  pub execution_mode_policy_version : Option String
  pub reasons : List String
  pub approval_required : Bool

-- `value == name`, where the value may be `None`.
abbrev pub is_name : Option String → String → Bool
is_name none name = false
is_name (some value) name = str_eq value name

-- The modes that `validate_known_v1_arrangements` allows for an executor.
unfoldable pub is_known_arrangement : String → ExecutionMode → Bool
is_known_arrangement executor mode =
    if str_eq executor "hermes"
    then mode_eq mode direct || (mode_eq mode delegate || mode_eq mode kanban)
    else if str_eq executor "codex" || str_eq executor "claude_code"
    then mode_eq mode native
    else true

-- The field validators in field order, then `validate_known_v1_arrangements`.
unfoldable pub validate_plan : RuntimePlan → Result RuntimePlan
validate_plan p = do
  raise_if (is_blank_name p.planner) (value_error "identity field must not be blank")
  raise_if (is_blank p.executor) (value_error "identity field must not be blank")
  raise_if (is_blank_name p.reviewer) (value_error "identity field must not be blank")
  raise_if (is_blank_name p.fallback) (value_error "identity field must not be blank")
  raise_if (is_blank p.policy_version) (value_error "identity field must not be blank")
  raise_if (is_blank_name p.selection_policy_version)
      (value_error "identity field must not be blank")
  raise_if (is_blank_name p.execution_mode_policy_version)
      (value_error "identity field must not be blank")
  raise_if (is_name p.reviewer p.executor)
      (value_error "reviewer must be independent from executor")
  raise_if (not (is_known_arrangement p.executor p.execution_mode))
      (value_error "executor does not support execution_mode in runtime-plan-v1.0")
  ok p
