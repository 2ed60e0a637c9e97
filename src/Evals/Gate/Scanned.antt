-- ===== src/Evals/Gate/Scanned.antt =====
-- When the checks of evals/gate.py that start a process let a run pass.
use adaptive_agent_orchestra.Base.{
  ◌≡◌, refl, ◌↔◌, ◌⊎◌, inl, inr, Bool, true, false, ◌==◌, not, List, [], ◌∷◌, is_empty, filter, any,
  String, ok, arith, if◌then◌else◌,
}
use adaptive_agent_orchestra.Evals.{EvalStatus, EvalCheck}
use adaptive_agent_orchestra.Evals.Paths.{PathRules, check}
use adaptive_agent_orchestra.Evals.Scans.{
  Process, Tools, exited, timed_out, not_found, raised, tests_verdict, lint_verdict,
  secrets_verdict, check_tests, check_lint, check_secrets, leaks,
}
use adaptive_agent_orchestra.Evals.Gate.Checks.{Allows}

-- What the runner of the tests, where there is one, may do without stopping the run.
abbrev pub ends_well : Process → Bool
ends_well (exited code output) = code == 0
ends_well (not_found problem) = true
ends_well _ = false

abbrev pub test_command : Bool → List String
test_command true = "python" ∷ "-m" ∷ "pytest" ∷ "--tb=short" ∷ "-q" ∷ []
test_command false = "npm" ∷ "test" ∷ "--" ∷ "--passWithNoTests" ∷ []

abbrev pub TestsHold : Tools → List String → Type 0
TestsHold tools changed =
    (is_empty changed ≡ true)
    ⊎ (((tools.has_python_project ≡ false) × (tools.has_package_json ≡ false))
        ⊎ (ends_well (tools.run_tests (test_command tools.has_python_project)) ≡ true))

tests_verdict-Allows_iff :
    (p : Process) (c : EvalCheck) → tests_verdict p ≡ ok c → Allows c ↔ (ends_well p ≡ true)
tests_verdict-Allows_iff (exited code output) c h = ground (arith, h)
tests_verdict-Allows_iff timed_out c h = ground (arith, h)
tests_verdict-Allows_iff (not_found problem) c h = ground (arith, h)
tests_verdict-Allows_iff (raised e) c h = cc

pub check_tests-Allows_iff :
    (tools : Tools) (changed : List String) (c : EvalCheck)
    → check_tests tools changed ≡ ok c
    → Allows c ↔ TestsHold tools changed
unfolding check_tests
check_tests-Allows_iff tools changed c h =
    by_tests (is_empty changed) tools.has_python_project tools.has_package_json h
  where
    by_tests :
        (clean python npm : Bool)
        → (if clean
            then ok (check "tests" EvalStatus.skip "no files changed" true)
            else if python
            then tests_verdict (tools.run_tests (test_command true))
            else if npm
            then tests_verdict (tools.run_tests (test_command false))
            else ok (check "tests" EvalStatus.skip "no recognised test runner" false))
          ≡ ok c
        → Allows c ↔ (
            (clean ≡ true)
            ⊎ (((python ≡ false) × (npm ≡ false))
                ⊎ (ends_well (tools.run_tests (test_command python)) ≡ true)))
    by_tests true python npm h = ((λ _. inl refl), (λ _. ground (arith, h)))
    by_tests false true npm h =
        let runs = tests_verdict-Allows_iff _ c h in
        ((λ a. inr (inr (runs.0 a))), (λ k. ground (arith, k, runs)))
    by_tests false false true h =
        let runs = tests_verdict-Allows_iff _ c h in
        ((λ a. inr (inr (runs.0 a))), (λ k. ground (arith, k, runs)))
    by_tests false false false h = ((λ _. inr (inl (refl, refl))), (λ _. ground (arith, h)))

-- Lint never stops a run.
pub check_lint-Allows :
    (tools : Tools) (changed : List String) (c : EvalCheck)
    → check_lint tools changed ≡ ok c
    → Allows c
unfolding check_lint
check_lint-Allows tools changed c h =
    by_files (is_empty (filter tools.is_python changed))
      (tools.run_ruff (filter tools.is_python changed)) h
  where
    by_files :
        (clean : Bool) (p : Process)
        → (if clean
            then ok (check "lint" EvalStatus.skip "no Python files changed" true)
            else lint_verdict p)
          ≡ ok c
        → Allows c
    by_files true p h = ground (arith, h)
    by_files false (exited code output) h = ground (arith, h)
    by_files false timed_out h = ground (arith, h)
    by_files false (not_found problem) h = ground (arith, h)
    by_files false (raised e) h = cc

-- Gitleaks ends well; or it is not there, and the naive scan has no hit.
abbrev pub finds_nothing : Process → Bool → Bool
finds_nothing (exited code output) hit = code == 0
finds_nothing (not_found problem) hit = not hit
finds_nothing _ hit = false

abbrev pub SecretsHold : PathRules → Tools → List String → Type 0
SecretsHold rules tools changed =
    (is_empty changed ≡ true)
    ⊎ (finds_nothing tools.run_gitleaks (any (leaks rules tools) changed) ≡ true)

pub check_secrets-Allows_iff :
    (rules : PathRules) (tools : Tools) (changed : List String) (c : EvalCheck)
    → check_secrets rules tools changed ≡ ok c
    → Allows c ↔ SecretsHold rules tools changed
unfolding check_secrets
check_secrets-Allows_iff rules tools changed c h = by_files (is_empty changed) tools.run_gitleaks h
  where
    by_files :
        (clean : Bool) (p : Process)
        → (if clean
            then ok (check "secrets" EvalStatus.skip "no files changed" true)
            else secrets_verdict rules tools changed p)
          ≡ ok c
        → Allows c ↔ ((clean ≡ true) ⊎ (finds_nothing p (any (leaks rules tools) changed) ≡ true))
    by_files true p h = ((λ _. inl refl), (λ _. ground (arith, h)))
    by_files false (exited code output) h = ground (arith, h)
    by_files false timed_out h = cc
    by_files false (not_found problem) h = ground (arith, h)
    by_files false (raised e) h = cc
