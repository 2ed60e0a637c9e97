-- ===== src/Evals/Gate/Names.antt =====
-- Which checks of evals/gate.py the second scan makes again: the one named `read_only`.
use adaptive_agent_orchestra.Base.{
  ◌≡◌, refl, Bool, true, false, not, ◌==◌, any, filter, Option, none, some, List, is_empty, String,
  str_eq, Result, ok, err, ◌>>=◌, if◌then◌else◌,
}
use adaptive_agent_orchestra.Contracts.Task.{TaskType, Criterion}
use adaptive_agent_orchestra.Budget.{BudgetState, BudgetViolation, is_over_budget}
use adaptive_agent_orchestra.Evals.{EvalCheck}
use adaptive_agent_orchestra.Evals.Paths.{PathRules, is_unsafe, violations, check_paths}
use adaptive_agent_orchestra.Evals.Criteria.{
  Verifier, CriterionResult, outcome_passed, criteria_check, texts_of, structured_of,
  check_success_criteria,
}
use adaptive_agent_orchestra.Evals.Scans.{
  Tools, Process, exited, timed_out, not_found, raised, tests_verdict, lint_verdict,
  secrets_verdict, leaks, check_tests, check_lint, check_secrets,
}
use adaptive_agent_orchestra.Evals.Gate.{budget_check, check_budget, is_read_only, check_read_only}

-- The check is not the one that is made again.
abbrev pub Stays : EvalCheck → Type 0
Stays c = str_eq c.name "read_only" ≡ false

abbrev pub AllStay : Result EvalCheck → Type 0
AllStay (ok c) = Stays c
AllStay (err e) = Unit

-- What holds of both branches.
both_branches :
    {A : Type 0} (P : A → Type 0) (b : Bool) (x y : A) → P x → P y → P (if b then x else y)
both_branches P true x y h k = h
both_branches P false x y h k = k

pub check_paths-Stays :
    (rules : PathRules) (patterns files : List String) → Stays (check_paths rules patterns files)
unfolding check_paths
check_paths-Stays rules patterns files = both_branches Stays (is_empty patterns) _ _ refl (
    both_branches Stays (any (is_unsafe rules) patterns) _ _ refl
      (both_branches Stays (is_empty (violations rules patterns files)) _ _ refl refl))

pub check_budget-Stays : (b : BudgetState) → Stays (check_budget b)
unfolding check_budget
check_budget-Stays b = by_violation (is_over_budget b)
  where
    by_violation : (v : Option BudgetViolation) → Stays (budget_check v)
    by_violation none = refl
    by_violation (some v) = refl

pub check_read_only-name :
    (changed : List String) (type : TaskType)
    → str_eq (check_read_only changed type).name "read_only" ≡ true
unfolding check_read_only
check_read_only-name changed type =
    let IsReadOnly : EvalCheck → Type 0 = λ c. str_eq c.name "read_only" ≡ true in
    both_branches IsReadOnly (not (is_read_only type)) _ _ refl
      (both_branches IsReadOnly (not (is_empty changed)) _ _ refl refl)

pub check_tests-Stays :
    (tools : Tools) (changed : List String) → AllStay (check_tests tools changed)
unfolding check_tests
check_tests-Stays tools changed = both_branches AllStay (is_empty changed) _ _ refl (
    both_branches AllStay tools.has_python_project _ _ (by_process _)
      (both_branches AllStay tools.has_package_json _ _ (by_process _) refl))
  where
    by_process : (p : Process) → AllStay (tests_verdict p)
    by_process (exited code output) = refl
    by_process timed_out = refl
    by_process (not_found problem) = refl
    by_process (raised e) = tt

pub check_lint-Stays : (tools : Tools) (changed : List String) → AllStay (check_lint tools changed)
unfolding check_lint
check_lint-Stays tools changed =
    both_branches AllStay (is_empty (filter tools.is_python changed)) _ _ refl (by_process _)
  where
    by_process : (p : Process) → AllStay (lint_verdict p)
    by_process (exited code output) = both_branches Stays (code == 0) _ _ refl refl
    by_process timed_out = refl
    by_process (not_found problem) = refl
    by_process (raised e) = tt

pub check_secrets-Stays :
    (rules : PathRules) (tools : Tools) (changed : List String)
    → AllStay (check_secrets rules tools changed)
unfolding check_secrets
check_secrets-Stays rules tools changed =
    both_branches AllStay (is_empty changed) _ _ refl (by_process _)
  where
    by_process : (p : Process) → AllStay (secrets_verdict rules tools changed p)
    by_process (exited code output) = both_branches Stays (code == 0) _ _ refl refl
    by_process timed_out = tt
    by_process (not_found problem) =
        both_branches Stays (any (leaks rules tools) changed) _ _ refl refl
    by_process (raised e) = tt

pub check_success_criteria-Stays :
    (verifier : Verifier) (criteria : List Criterion) (completed : Bool) (observed : Option String)
    → AllStay (check_success_criteria verifier criteria completed observed)
unfolding check_success_criteria
check_success_criteria-Stays verifier criteria completed observed =
    both_branches AllStay (not (is_empty (texts_of criteria))) _ _ refl
      (both_branches AllStay (is_empty (structured_of criteria)) _ _ refl (by_results _))
  where
    by_results :
        (r : Result (List CriterionResult))
        → AllStay (r >>= (λ results. ok (criteria_check completed results)))
    by_results (ok rs) =
        both_branches Stays (outcome_passed (record { completed = completed; criteria = rs })) _ _
          refl refl
    by_results (err e) = tt
