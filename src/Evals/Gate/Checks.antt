-- ===== src/Evals/Gate/Checks.antt =====
-- When each check of evals/gate.py lets a run pass.
use adaptive_agent_orchestra.Base.{
  ◌≤◌, ◌≡◌, refl, ◌↔◌, ◌⊎◌, inl, inr, Bool, true, false, not, List, is_empty, any, All, All-imp,
  All-of_filter-empty, filter-empty_of_All, String, arith, if◌then◌else◌,
}
use adaptive_agent_orchestra.Contracts.Task.{TaskType}
use adaptive_agent_orchestra.Budget.{BudgetState, is_over_budget}
use adaptive_agent_orchestra.Evals.{EvalStatus, EvalCheck, is_failed_blocker}
use adaptive_agent_orchestra.Evals.Paths.{
  PathRules, is_unsafe, matches_any, canonical_relative_path, violations, check, check_paths,
}
use adaptive_agent_orchestra.Evals.Gate.{check_budget, is_read_only, check_read_only}

-- The check does not stop the run.
abbrev pub Allows : EvalCheck → Type 0
Allows c = is_failed_blocker c ≡ false

-- The path of a file is safe and matches an allowed pattern.
abbrev pub IsAllowed : PathRules → List String → String → Type 0
IsAllowed rules patterns file =
    matches_any rules patterns (canonical_relative_path rules file) ≡ true

-- No pattern restricts the files; or no pattern is unsafe and every file is allowed.
abbrev pub PathsHold : PathRules → List String → List String → Type 0
PathsHold rules patterns files =
    (is_empty patterns ≡ true)
    ⊎ ((any (is_unsafe rules) patterns ≡ false) × All (IsAllowed rules patterns) files)

violations-none :
    (rules : PathRules) (patterns files : List String)
    → (is_empty (violations rules patterns files) ≡ true) ↔ All (IsAllowed rules patterns) files
violations-none rules patterns files = (
  (λ h.
      All-imp _ _
        (λ file. not_false (matches_any rules patterns (canonical_relative_path rules file))) files
        (All-of_filter-empty
          (λ file. not (matches_any rules patterns (canonical_relative_path rules file))) files h)),
  (λ h.
      rw
        (filter-empty_of_All
          (λ file. not (matches_any rules patterns (canonical_relative_path rules file))) files
          (All-imp _ _ (λ file (k : IsAllowed rules patterns file). rw k refl) files h))
        refl),
)
  where
    not_false : (b : Bool) → not b ≡ false → b ≡ true
    not_false b h = ground arith

pub check_paths-Allows_iff :
    (rules : PathRules) (patterns files : List String)
    → Allows (check_paths rules patterns files) ↔ PathsHold rules patterns files
unfolding check_paths
check_paths-Allows_iff rules patterns files =
    by_tests (is_empty patterns) (any (is_unsafe rules) patterns)
      (is_empty (violations rules patterns files)) (violations-none rules patterns files)
  where
    by_tests :
        (free unsafe clean : Bool)
        → ((clean ≡ true) ↔ All (IsAllowed rules patterns) files)
        → Allows (
            if free
            then check "paths" EvalStatus.skip "no allowed_paths defined" true
            else if unsafe
            then check "paths" EvalStatus.fail "unsafe allowed_paths pattern" true
            else if clean
            then check "paths" EvalStatus.pass "all files within allowed_paths" true
            else check "paths" EvalStatus.fail "files outside allowed_paths" true)
          ↔ ((free ≡ true) ⊎ ((unsafe ≡ false) × All (IsAllowed rules patterns) files))
    by_tests true unsafe clean clean_iff = ((λ h. inl refl), (λ h. refl))
    by_tests false true clean clean_iff = ((λ h. cc), no_way)
      where
        no_way :
            (false ≡ true) ⊎ ((true ≡ false) × All (IsAllowed rules patterns) files) → true ≡ false
        no_way (inl h) = cc
        no_way (inr (h, _)) = cc
    by_tests false false true clean_iff = ((λ h. inr (refl, clean_iff.0 refl)), (λ h. refl))
    by_tests false false false clean_iff = ((λ h. cc), outside)
      where
        outside :
            (false ≡ true) ⊎ ((false ≡ false) × All (IsAllowed rules patterns) files) → true ≡ false
        outside (inl h) = cc
        outside (inr (_, h)) = cc (clean_iff.1 h)

pub check_budget-Allows_iff :
    (b : BudgetState) → Allows (check_budget b) ↔ (b.calls_used ≤ b.config.max_total_calls)
unfolding check_budget is_over_budget
check_budget-Allows_iff b = ground arith

pub check_read_only-Allows_iff :
    (changed : List String) (type : TaskType)
    → Allows (check_read_only changed type)
      ↔ ((is_read_only type ≡ false) ⊎ (is_empty changed ≡ true))
unfolding check_read_only
check_read_only-Allows_iff changed type = ground arith
