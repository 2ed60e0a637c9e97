-- ===== src/Evals/Gate/Passing.antt =====
-- When the verdict of evals/gate.py is a pass.
use adaptive_agent_orchestra.Base.{
  ◌≤◌, ◌≡◌, ◌⊎◌, true, false, Option, none, some, is_some, List, is_empty, String,
}
use adaptive_agent_orchestra.Contracts.Task.{TaskContract}
use adaptive_agent_orchestra.Budget.{BudgetState}
use adaptive_agent_orchestra.Delegation.{AgentResult}
use adaptive_agent_orchestra.Evals.Paths.{PathRules}
use adaptive_agent_orchestra.Evals.Criteria.{Verifier}
use adaptive_agent_orchestra.Evals.Scans.{Tools}
use adaptive_agent_orchestra.Evals.Gate.{
  GitScan, trusted_changed_files, is_read_only, is_completed_run, evidence, files_or_empty,
}
use adaptive_agent_orchestra.Evals.Gate.Checks.{PathsHold}
use adaptive_agent_orchestra.Evals.Gate.Scanned.{TestsHold, SecretsHold}
use adaptive_agent_orchestra.Evals.Gate.Verified.{CriteriaHold}

-- The changed files that the read-only check sees last.
abbrev pub seen_last : Option (List String) → List String → List String
seen_last (some changed) earlier = changed
seen_last none earlier = earlier

-- What a passing run has: evidence of its changed files, and each check holding.
abbrev pub Passes :
    PathRules
    → Verifier
    → Tools
    → GitScan
    → GitScan
    → TaskContract
    → AgentResult
    → BudgetState
    → Type 0
Passes rules verifier tools before later task result budget =
    let files = evidence (trusted_changed_files before) result.files_changed in
    let changed = files_or_empty files in
    (is_some files ≡ true)
    × PathsHold rules task.allowed_paths changed
    × (budget.calls_used ≤ budget.config.max_total_calls)
    × ((is_read_only task.task_type ≡ false)
        ⊎ (is_empty (seen_last (trusted_changed_files later) changed) ≡ true))
    × CriteriaHold verifier task.success_criteria (is_completed_run result.status) result.summary
    × TestsHold tools changed
    × SecretsHold rules tools changed
