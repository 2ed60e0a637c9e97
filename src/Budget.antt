-- ===== src/Budget.antt =====
-- orchestrator/budget.py: the budget of one task and the approval gate. A count is a natural number.
-- A violation and a reason keep the values that the source formats into their texts.
pub mod Policy
pub mod Bounds
pub mod Children
use adaptive_agent_orchestra.Base.{
  ℕ, ◌+◌, ◌-◌, Bool, true, false, ltb, leb, ◌==◌, Option, none, some, List, [], ◌∷◌, is_empty,
  filter, any, String, contains, Result, ok, err, runtime_error, value_error, ◌>>=◌, ◌>>◌, raise_if,
  if◌then◌else◌,
}
use adaptive_agent_orchestra.Contracts.Task.{RiskLevel, risk_value, TaskContract}

pub record BudgetConfig : Type 0 where
  pub max_children : ℕ
  pub max_depth : ℕ
  pub max_retries : ℕ
  pub max_total_calls : ℕ
  pub require_approval_above_calls : ℕ

-- `BudgetConfig()`.
abbrev pub default_config : BudgetConfig
default_config = record {
  max_children = 2;
  max_depth = 1;
  max_retries = 1;
  max_total_calls = 8;
  require_approval_above_calls = 5;
}

pub record BudgetState : Type 0 where
  pub task_id : String
  pub config : BudgetConfig
  pub children_used : ℕ
  pub retries_used : ℕ
  pub calls_used : ℕ
  pub calls_reserved : ℕ
  pub depth_used : ℕ

pub data BudgetViolation : Type 0 where
  max_children : (children limit : ℕ) → BudgetViolation
  max_retries : (retries limit : ℕ) → BudgetViolation
  max_total_calls : (calls reserved requested limit : ℕ) → BudgetViolation
  over_total_calls : (calls limit : ℕ) → BudgetViolation

-- `BudgetState(task_id=…, config=…)`.
abbrev pub new_budget : String → BudgetConfig → BudgetState
new_budget task_id config = record {
  task_id = task_id;
  config = config;
  children_used = 0;
  retries_used = 0;
  calls_used = 0;
  calls_reserved = 0;
  depth_used = 0;
}

unfoldable pub check_children : BudgetState → Option BudgetViolation
check_children b =
    if leb b.config.max_children b.children_used
    then some (max_children b.children_used b.config.max_children)
    else none

unfoldable pub check_retries : BudgetState → Option BudgetViolation
check_retries b =
    if leb b.config.max_retries b.retries_used
    then some (max_retries b.retries_used b.config.max_retries)
    else none

unfoldable pub can_submit_calls : BudgetState → ℕ → Result (Option BudgetViolation)
can_submit_calls b count =
    if ltb count 1
    then err (value_error "count must be positive")
    else if ltb b.config.max_total_calls (b.calls_used + b.calls_reserved + count)
    then ok (some (max_total_calls b.calls_used b.calls_reserved count b.config.max_total_calls))
    else ok none

-- `if violation is None: self.calls_reserved += count`.
abbrev pub reserve_unless : BudgetState → ℕ → Option BudgetViolation → BudgetState
reserve_unless b count none = record b { calls_reserved = b.calls_reserved + count }
reserve_unless b count (some violation) = b

unfoldable pub reserve_calls : BudgetState → ℕ → Result (BudgetState × Option BudgetViolation)
unfolding can_submit_calls
reserve_calls b count = do
  violation ← can_submit_calls b count
  ok (reserve_unless b count violation, violation)

unfoldable pub commit_reserved_call : BudgetState → Result BudgetState
commit_reserved_call b =
    if ltb b.calls_reserved 1
    then err (runtime_error "no reserved call to commit")
    else ok (record b { calls_reserved = b.calls_reserved - 1; calls_used = b.calls_used + 1 })

unfoldable pub release_reserved_call : BudgetState → Result BudgetState
release_reserved_call b =
    if ltb b.calls_reserved 1
    then err (runtime_error "no reserved call to release")
    else ok (record b { calls_reserved = b.calls_reserved - 1 })

unfoldable pub is_over_budget : BudgetState → Option BudgetViolation
is_over_budget b =
    if ltb b.config.max_total_calls b.calls_used
    then some (over_total_calls b.calls_used b.config.max_total_calls)
    else none

unfoldable pub check_calls : BudgetState → Result (Option BudgetViolation)
unfolding can_submit_calls
check_calls b = can_submit_calls b 1

unfoldable pub needs_approval_for_calls : BudgetState → Bool
needs_approval_for_calls b = leb b.config.require_approval_above_calls b.calls_used

-- The two sets that `ApprovalGate.__init__` reads from the policy file.
pub record ApprovalGate : Type 0 where
  pub always_require : List String
  pub require_for_risk : List ℕ

pub data ApprovalReason : Type 0 where
  risk_requires : RiskLevel → ApprovalReason
  actions_require : List String → ApprovalReason

-- `self._always_require & set(actions or [])`.
abbrev pub triggered : ApprovalGate → List String → List String
triggered gate actions = filter (λ a. contains a actions) gate.always_require

-- `none` stands for `(False, "")`.
unfoldable pub requires_approval : ApprovalGate → TaskContract → List String → Option ApprovalReason
requires_approval gate task actions =
    if any (λ level. level == risk_value task.risk) gate.require_for_risk
    then some (risk_requires task.risk)
    else if is_empty (triggered gate actions)
    then none
    else some (actions_require (triggered gate actions))
