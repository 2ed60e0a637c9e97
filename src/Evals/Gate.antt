-- ===== src/Evals/Gate.antt =====
-- `DeterministicEvalGate` of evals/gate.py, with its changed files from git, its check of the budget
-- and its check of read-only tasks. All answers are those of the repository that `run` settles on.
mod Checks
mod Scanned
mod Verified
mod Names
pub mod Passing
use adaptive_agent_orchestra.Base.{
  ℕ, Bool, true, false, ◌&&◌, ◌||◌, ◌==◌, not, Option, none, some, List, [], ◌∷◌, ◌++◌, is_empty,
  filter, map, String, str_eq, Result, ok, err, ◌>>=◌, if◌then◌else◌,
}
use adaptive_agent_orchestra.Contracts.Task.{TaskType, Criterion, TaskContract}
use adaptive_agent_orchestra.Budget.{BudgetState, BudgetViolation, is_over_budget}
use adaptive_agent_orchestra.Delegation.{RunStatus, AgentResult, from_keys}
use adaptive_agent_orchestra.Evals.{EvalStatus, EvalCheck, EvalResult, aggregate}
use adaptive_agent_orchestra.Evals.Paths.{PathRules, check, check_paths}
use adaptive_agent_orchestra.Evals.Criteria.{Verifier, check_success_criteria}
use adaptive_agent_orchestra.Evals.Scans.{Tools, check_tests, check_lint, check_secrets}

-- The exit codes and outputs of the git commands of one scan; the outputs of the last three are cut
-- at the NUL bytes. `probe` says whether `rev-parse` has ended well and printed `true`.
pub record GitScan : Type 0 where
  pub probe : Bool
  pub diff : ℕ × List String
  pub untracked : ℕ × List String

-- `trusted_changed_files` without the ignored files.
unfoldable pub trusted_changed_files : GitScan → Option (List String)
unfolding from_keys
trusted_changed_files git =
    if git.probe && (git.diff.0 == 0 && git.untracked.0 == 0)
    then some (from_keys (filter (λ name. not (str_eq name "")) (git.diff.1 ++ git.untracked.1)))
    else none

abbrev pub budget_check : Option BudgetViolation → EvalCheck
budget_check (some violation) = check "budget" EvalStatus.fail "calls over max_total_calls" true
budget_check none = check "budget" EvalStatus.pass "calls within max_total_calls" true

unfoldable pub check_budget : BudgetState → EvalCheck
unfolding is_over_budget
check_budget b = budget_check (is_over_budget b)

abbrev pub is_read_only : TaskType → Bool
is_read_only TaskType.code_review = true
is_read_only TaskType.parallel_research = true
is_read_only _ = false

unfoldable pub check_read_only : List String → TaskType → EvalCheck
check_read_only changed type =
    if not (is_read_only type)
    then check "read_only" EvalStatus.skip "write task" true
    else if not (is_empty changed)
    then check "read_only" EvalStatus.fail "read-only task changed files" true
    else check "read_only" EvalStatus.pass "no repository changes" true

abbrev pub is_completed_run : RunStatus → Bool
is_completed_run RunStatus.completed = true
is_completed_run _ = false

-- The evidence of changed files: git's, or else the runtime's.
abbrev pub evidence : Option (List String) → Option (List String) → Option (List String)
evidence (some files) reported = some files
evidence none reported = reported

abbrev pub missing_evidence : Option (List String) → List EvalCheck
missing_evidence (some files) = []
missing_evidence none =
    check "files_evidence" EvalStatus.fail "changed-file evidence unavailable" true ∷ []

abbrev pub files_or_empty : Option (List String) → List String
files_or_empty (some files) = files
files_or_empty none = []

-- The checks again after the verifiers have run.
abbrev pub rescanned : TaskType → EvalCheck → List String → EvalCheck
rescanned type c changed = if str_eq c.name "read_only" then check_read_only changed type else c

abbrev pub rescan : TaskType → List EvalCheck → Option (List String) → List EvalCheck
rescan type checks none = checks
rescan type checks (some changed) = map (λ c. rescanned type c changed) checks

module _ (rules : PathRules) (verifier : Verifier) (tools : Tools) where
  -- `asyncio.gather`: the checks in their order, or an exception.
  abbrev pub gather : List String → Result (List EvalCheck)
  gather changed = do
    lint ← check_lint tools changed
    tests ← check_tests tools changed
    secrets ← check_secrets rules tools changed
    ok (lint ∷ tests ∷ secrets ∷ [])

  -- `run` on the scans of git before and after the checks.
  unfoldable pub run_gate :
      GitScan → GitScan → TaskContract → AgentResult → BudgetState → Result EvalResult
  unfolding trusted_changed_files check_budget check_read_only
  run_gate before later task result budget =
      let files = evidence (trusted_changed_files before) result.files_changed in
      let changed = files_or_empty files in
      do
        criteria ←
            check_success_criteria verifier task.success_criteria (is_completed_run result.status)
              result.summary
        scans ← gather changed
        ok (
            aggregate task.id result.run_id (
              rescan task.task_type
                (missing_evidence files
                  ++ check_paths rules task.allowed_paths changed
                    ∷ check_budget budget
                    ∷ check_read_only changed task.task_type
                    ∷ criteria
                    ∷ scans)
                (trusted_changed_files later)))
