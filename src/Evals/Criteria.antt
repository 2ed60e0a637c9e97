-- ===== src/Evals/Criteria.antt =====
-- evals/verifier.py, contracts/execution.py and `check_success_criteria` of evals/gate.py. Processes,
-- files and the registered verifiers are the fields of `Verifier`, for one repository.
use adaptive_agent_orchestra.Base.{
  ℕ, Bool, true, false, ◌&&◌, ◌==◌, not, Option, none, some, List, [], ◌∷◌, ◌++◌, is_empty, all,
  String, str_eq, Result, ok, err, value_error, os_error, ◌>>=◌, if◌then◌else◌,
}
use adaptive_agent_orchestra.Contracts.Task.{
  CriterionType, SuccessCriterion, Criterion, text, structured,
}
use adaptive_agent_orchestra.Evals.{EvalStatus, EvalCheck}
use adaptive_agent_orchestra.Evals.Paths.{check}

pub record CriterionResult : Type 0 where
  pub criterion : SuccessCriterion
  pub passed : Bool
  pub detail : String

pub record TaskOutcome : Type 0 where
  pub completed : Bool
  pub criteria : List CriterionResult

-- `TaskOutcome.passed`.
unfoldable pub outcome_passed : TaskOutcome → Bool
outcome_passed o =
    o.completed && (not (is_empty o.criteria) && all (λ (r : CriterionResult). r.passed) o.criteria)

-- A process has ended with a code and its output, or could not be run or waited for.
pub data ToolRun : Type 0 where
  exited : ℕ → String → ToolRun
  tool_failed : String → ToolRun

-- `resolve` gives the path of a target that lies in the repository; `contains_text` is the search in
-- the text of a file, which may fail to be read.
pub record Verifier : Type 0 where
  pub run : List String → ℕ → ToolRun
  pub resolve : String → Option String
  pub is_file : String → Bool
  pub contains_text : String → String → Result Bool
  pub registered : String → Option (SuccessCriterion → Result (Bool × String))

abbrev pub verdict : SuccessCriterion → Bool → String → CriterionResult
verdict c passed detail = record { criterion = c; passed = passed; detail = detail }

abbrev pub or_empty : Option String → String
or_empty none = ""
or_empty (some s) = s

-- `if criterion.target: command.append(criterion.target)`.
abbrev pub with_target : List String → Option String → List String
with_target command target =
    if str_eq (or_empty target) "" then command else command ++ or_empty target ∷ []

abbrev pub run_verdict : SuccessCriterion → ToolRun → CriterionResult
run_verdict c (exited code output) = verdict c (code == 0) output
run_verdict c (tool_failed problem) = verdict c false problem

abbrev pub diff_verdict : SuccessCriterion → ToolRun → CriterionResult
diff_verdict c (exited code output) =
    verdict c (code == 1) (if code == 1 then "diff present" else "no diff or git error")
diff_verdict c (tool_failed problem) = verdict c false problem

-- `except (OSError, subprocess.SubprocessError)`.
abbrev pub catch_os : SuccessCriterion → Result CriterionResult → Result CriterionResult
catch_os c (err (os_error problem)) = ok (verdict c false problem)
catch_os c result = result

-- What `relative_to` raises for a path outside is no `OSError`.
abbrev pub inside : Option String → Result String
inside none = err (value_error "path is not in the subpath")
inside (some path) = ok path

abbrev pub by_callback :
    SuccessCriterion → Option (SuccessCriterion → Result (Bool × String)) → Result CriterionResult
by_callback c none = ok (verdict c false "unknown verifier")
by_callback c (some callback) = callback c >>= (λ answer. ok (verdict c answer.0 answer.1))

-- `_verify_output_equals`.
abbrev pub verify_output_equals : SuccessCriterion → Option String → Option String → CriterionResult
verify_output_equals c none value = verdict c false "observed runtime output unavailable"
verify_output_equals c (some output) none = verdict c false "expected output missing"
verify_output_equals c (some output) (some value) = verdict c (str_eq output value) (
    if str_eq output value
    then "observed runtime output matched exactly"
    else "observed runtime output did not match expected value")

abbrev pub criteria_check : Bool → List CriterionResult → EvalCheck
criteria_check completed results =
    if outcome_passed (record { completed = completed; criteria = results })
    then check "success_criteria" EvalStatus.pass "all criteria passed" true
    else check "success_criteria" EvalStatus.fail "failed criteria" true

abbrev pub texts_of : List Criterion → List String
texts_of [] = []
texts_of (text t ∷ cs) = t ∷ texts_of cs
texts_of (structured c ∷ cs) = texts_of cs

abbrev pub structured_of : List Criterion → List SuccessCriterion
structured_of [] = []
structured_of (text t ∷ cs) = structured_of cs
structured_of (structured c ∷ cs) = c ∷ structured_of cs

module _ (v : Verifier) where
  unfoldable pub safe_path : Option String → Result String
  safe_path target =
      if str_eq (or_empty target) ""
      then err (os_error "target missing")
      else inside (v.resolve (or_empty target))

  abbrev pub file_contains :
      SuccessCriterion → String → Bool → Option String → Result CriterionResult
  file_contains c path true (some value) =
      v.contains_text path value >>= (λ found. ok (verdict c found path))
  file_contains c path _ _ = ok (verdict c false path)

  -- The body of the `try`.
  abbrev pub verify_type : SuccessCriterion → CriterionType → Result CriterionResult
  verify_type c CriterionType.pytest = ok (
      run_verdict c
        (v.run (with_target ("python" ∷ "-m" ∷ "pytest" ∷ "-q" ∷ []) c.target) c.timeout_s))
  verify_type c CriterionType.command =
      if is_empty c.command
      then ok (verdict c false "command missing")
      else ok (run_verdict c (v.run c.command c.timeout_s))
  verify_type c CriterionType.file_exists = do
    path ← safe_path c.target
    ok (verdict c (v.is_file path) path)
  verify_type c CriterionType.file_contains = do
    path ← safe_path c.target
    file_contains c path (v.is_file path) c.value
  verify_type c CriterionType.git_diff = ok (
      diff_verdict c
        (v.run (with_target ("git" ∷ "diff" ∷ "--quiet" ∷ "HEAD" ∷ "--" ∷ []) c.target) 0))
  verify_type c CriterionType.registered = by_callback c (v.registered (or_empty c.name))
  verify_type c CriterionType.output_equals = ok (verdict c false "unsupported criterion")

  unfoldable pub verify_one : SuccessCriterion → Result CriterionResult
  unfolding safe_path
  verify_one c = catch_os c (verify_type c c.type)

  abbrev pub verify_criterion :
      Option String → SuccessCriterion → CriterionType → Result CriterionResult
  verify_criterion observed c CriterionType.output_equals =
      ok (verify_output_equals c observed c.value)
  verify_criterion observed c _ = verify_one c

  unfoldable pub verify_all : Option String → List SuccessCriterion → Result (List CriterionResult)
  unfolding verify_one
  verify_all observed [] = ok []
  verify_all observed (c ∷ cs) = do
    result ← verify_criterion observed c c.type
    results ← verify_all observed cs
    ok (result ∷ results)

  -- `check_success_criteria`, on the task's criteria.
  unfoldable pub check_success_criteria : List Criterion → Bool → Option String → Result EvalCheck
  unfolding verify_all
  check_success_criteria criteria completed observed =
      if not (is_empty (texts_of criteria))
      then ok (check "success_criteria" EvalStatus.fail "unverifiable criteria" true)
      else if is_empty (structured_of criteria)
      then ok (check "success_criteria" EvalStatus.skip "no criteria" true)
      else (verify_all observed (structured_of criteria)
          >>= (λ results. ok (criteria_check completed results)))
