-- ===== src/Evals/Scans.antt =====
-- The checks of evals/gate.py that start a process: tests, lint and secrets. The process is an
-- answer. Of an output the check's detail keeps all, where the source keeps the end.
use adaptive_agent_orchestra.Base.{
  ℕ, Bool, true, false, ◌==◌, Option, none, some, List, [], ◌∷◌, is_empty, filter, any, String,
  Result, ok, err, Error, timeout_error, if◌then◌else◌,
}
use adaptive_agent_orchestra.Evals.{EvalStatus, EvalCheck}
use adaptive_agent_orchestra.Evals.Paths.{PathRules, canonical_relative_path, check}

-- How `create_subprocess_exec` and the wait for the process end.
pub data Process : Type 0 where
  exited : ℕ → String → Process
  timed_out : Process
  not_found : String → Process
  raised : Error → Process

-- `finds_secret` says that one of the three patterns is found in a text.
pub record Tools : Type 0 where
  pub has_python_project : Bool
  pub has_package_json : Bool
  pub run_tests : List String → Process
  pub run_ruff : List String → Process
  pub run_gitleaks : Process
  pub is_python : String → Bool
  pub read_text : String → Option String
  pub finds_secret : String → Bool

abbrev pub tests_verdict : Process → Result EvalCheck
tests_verdict (exited code output) =
    ok (check "tests" (if code == 0 then EvalStatus.pass else EvalStatus.fail) output true)
tests_verdict timed_out = ok (check "tests" EvalStatus.fail "test run timed out (120s)" true)
tests_verdict (not_found problem) = ok (check "tests" EvalStatus.skip "runner not found" false)
tests_verdict (raised e) = err e

unfoldable pub check_tests : Tools → List String → Result EvalCheck
check_tests tools changed =
    if is_empty changed
    then ok (check "tests" EvalStatus.skip "no files changed" true)
    else if tools.has_python_project
    then tests_verdict (tools.run_tests ("python" ∷ "-m" ∷ "pytest" ∷ "--tb=short" ∷ "-q" ∷ []))
    else if tools.has_package_json
    then tests_verdict (tools.run_tests ("npm" ∷ "test" ∷ "--" ∷ "--passWithNoTests" ∷ []))
    else ok (check "tests" EvalStatus.skip "no recognised test runner" false)

abbrev pub lint_verdict : Process → Result EvalCheck
lint_verdict (exited code output) = ok (
    if code == 0
    then check "lint" EvalStatus.pass "ruff: no issues" true
    else check "lint" EvalStatus.fail output false)
lint_verdict timed_out = ok (check "lint" EvalStatus.skip "ruff not available" false)
lint_verdict (not_found problem) = ok (check "lint" EvalStatus.skip "ruff not available" false)
lint_verdict (raised e) = err e

unfoldable pub check_lint : Tools → List String → Result EvalCheck
check_lint tools changed =
    if is_empty (filter tools.is_python changed)
    then ok (check "lint" EvalStatus.skip "no Python files changed" true)
    else lint_verdict (tools.run_ruff (filter tools.is_python changed))

-- A file of the naive scan: one that is outside or cannot be read is passed over.
abbrev pub text_leaks : Tools → Option String → Bool
text_leaks tools none = false
text_leaks tools (some content) = tools.finds_secret content

abbrev pub path_leaks : Tools → Option String → Bool
path_leaks tools none = false
path_leaks tools (some path) = text_leaks tools (tools.read_text path)

unfoldable pub leaks : PathRules → Tools → String → Bool
leaks rules tools file = path_leaks tools (canonical_relative_path rules file)

-- Nothing catches the time-out here.
abbrev pub secrets_verdict : PathRules → Tools → List String → Process → Result EvalCheck
secrets_verdict rules tools changed (exited code output) = ok (
    if code == 0
    then check "secrets" EvalStatus.pass "gitleaks: no leaks found" true
    else check "secrets" EvalStatus.fail output true)
secrets_verdict rules tools changed timed_out = err (timeout_error "")
secrets_verdict rules tools changed (raised e) = err e
secrets_verdict rules tools changed (not_found problem) = ok (
    if any (leaks rules tools) changed
    then check "secrets" EvalStatus.fail "potential secret pattern found" true
    else check "secrets" EvalStatus.pass "naive scan: no obvious leaks" true)

unfoldable pub check_secrets : PathRules → Tools → List String → Result EvalCheck
unfolding leaks
check_secrets rules tools changed =
    if is_empty changed
    then ok (check "secrets" EvalStatus.skip "no files changed" true)
    else secrets_verdict rules tools changed tools.run_gitleaks
