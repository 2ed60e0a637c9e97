-- ===== src/Budget/Policy.antt =====
-- orchestrator/execution_policy.py: the authorisation of a submission, and of nothing later.
use adaptive_agent_orchestra.Base.{
  ℕ, ◌<◌, ◌≡◌, ◌↔◌, ◌⊎◌, Bool, true, false, ◌&&◌, not, leb, Option, none, some, List, any, String,
  contains, arith, if◌then◌else◌,
}

pub data ApprovalOutcome : Type 0 where
  allowed approved denied timeout budget_exceeded : ApprovalOutcome

pub record PolicyDecision : Type 0 where
  pub allowed : Bool
  pub outcome : ApprovalOutcome
  pub reason : String

pub record ExecutionPolicy : Type 0 where
  pub always_require_actions : List String
  pub require_approval_above_calls : ℕ
  pub max_total_calls : ℕ

abbrev pub decision : Bool → ApprovalOutcome → String → PolicyDecision
decision permit outcome reason = record { allowed = permit; outcome = outcome; reason = reason }

unfoldable pub reject_runtime_approval_request : ExecutionPolicy → ℕ → Option Bool → PolicyDecision
reject_runtime_approval_request policy calls_used approval =
    decision false ApprovalOutcome.denied
      "runtime approval requests fail closed; no resume capability"

-- The returns behind the tests, by what the user answered.
abbrev by_approval : Option Bool → PolicyDecision
by_approval (some true) = decision true ApprovalOutcome.approved ""
by_approval (some false) = decision false ApprovalOutcome.denied "approval denied"
by_approval none = decision false ApprovalOutcome.timeout "approval missing or timed out"

-- `planned_actions` is the set of the caller, empty for `None`.
unfoldable pub authorize_submission :
    ExecutionPolicy → ℕ → List String → Option Bool → PolicyDecision
authorize_submission policy calls_used planned_actions approval =
    if leb policy.max_total_calls calls_used
    then decision false ApprovalOutcome.budget_exceeded "call budget exhausted"
    else if not (any (λ a. contains a policy.always_require_actions) planned_actions)
        && not (leb policy.require_approval_above_calls calls_used)
    then decision true ApprovalOutcome.allowed ""
    else by_approval approval

-- A submission is allowed exactly when the call budget is not used up and either the user approved
-- it, or it has no protected action and the calls are below the threshold for approval.
pub authorize_submission-allowed_iff :
    (policy : ExecutionPolicy) (calls_used : ℕ) (planned_actions : List String)
    (approval : Option Bool)
    → ((authorize_submission policy calls_used planned_actions approval).allowed ≡ true) ↔ (
        (calls_used < policy.max_total_calls)
        × ((approval ≡ some true)
            ⊎ ((any (λ a. contains a policy.always_require_actions) planned_actions ≡ false)
                × (calls_used < policy.require_approval_above_calls))))
unfolding authorize_submission
authorize_submission-allowed_iff policy calls_used planned_actions approval = ground arith
