-- ===== src/Tests/Gates.antt =====
-- The theorem on the evaluation gate at a concrete input: a review whose criterion holds, with no
-- gitleaks installed.
use adaptive_agent_orchestra.Base.{true, false, none, some, [], ◌∷◌, ok, str_eq}
use adaptive_agent_orchestra.Contracts.Task.{
  CriterionType, SuccessCriterion, structured, TaskContract,
}
use adaptive_agent_orchestra.Budget.{default_config, BudgetState, new_budget}
use adaptive_agent_orchestra.Delegation.{RunStatus, AgentResult}
use adaptive_agent_orchestra.Evals.{EvalStatus, EvalResult}
use adaptive_agent_orchestra.Evals.Paths.{PathRules, check}
use adaptive_agent_orchestra.Evals.Criteria.{Verifier, ToolRun}
use adaptive_agent_orchestra.Evals.Scans.{Tools, Process}
use adaptive_agent_orchestra.Evals.Gate.{GitScan}
use adaptive_agent_orchestra.Tests.{fix_task}

abbrev rules : PathRules
rules = record {
  with_slashes = λ p. p;
  is_absolute = λ p. str_eq p "/";
  is_windows_absolute = λ p. false;
  parts = λ p. p ∷ [];
  is_inside = λ ps. true;
  fnmatch = str_eq;
}

abbrev verifier : Verifier
verifier = record {
  run = λ command timeout. ToolRun.exited 0 "";
  resolve = λ p. some p;
  is_file = λ p. str_eq p "notes";
  contains_text = λ p t. ok false;
  registered = λ n. none;
}

abbrev tools : Tools
tools = record {
  has_python_project = true;
  has_package_json = false;
  run_tests = λ command. Process.exited 0 "3 passed";
  run_ruff = λ files. Process.exited 1 "E501";
  run_gitleaks = Process.not_found "gitleaks";
  is_python = λ f. str_eq f "parse.py";
  read_text = λ f. some f;
  finds_secret = λ content. str_eq content "token";
}

abbrev has_notes : SuccessCriterion
has_notes = record {
  type = CriterionType.file_exists;
  target = some "notes";
  value = none;
  command = [];
  name = none;
  timeout_s = 120;
}

abbrev task : TaskContract
task = record fix_task {
  allowed_paths = "parse.py" ∷ [];
  success_criteria = structured has_notes ∷ [];
}

abbrev scan : GitScan
scan = record { probe = true; diff = (0, "parse.py" ∷ "" ∷ []); untracked = (0, "parse.py" ∷ []) }

abbrev result : AgentResult
result = record {
  run_id = some "r";
  task_id = "t1";
  status = RunStatus.completed;
  usage = none;
  files_changed = none;
  summary = none;
  error = none;
}

abbrev budget : BudgetState
budget = new_budget "t1" default_config

abbrev verdict : EvalResult
verdict = record {
  task_id = "t1";
  run_id = some "r";
  overall = EvalStatus.pass;
  checks =
      check "paths" EvalStatus.pass "all files within allowed_paths" true
      ∷ check "budget" EvalStatus.pass "calls within max_total_calls" true
      ∷ check "read_only" EvalStatus.skip "write task" true
      ∷ check "success_criteria" EvalStatus.pass "all criteria passed" true
      ∷ check "lint" EvalStatus.fail "E501" false
      ∷ check "tests" EvalStatus.pass "3 passed" true
      ∷ check "secrets" EvalStatus.pass "naive scan: no obvious leaks" true
      ∷ [];
}
