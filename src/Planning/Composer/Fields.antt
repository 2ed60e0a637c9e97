-- ===== src/Planning/Composer/Fields.antt =====
-- What `compose_runtime_plan` of orchestrator/runtime_plan_composer.py puts into a plan, and when.
use adaptive_agent_orchestra.Base.{
  ◌≡◌, refl, sym, ap, subst, ◌∙◌, Bool, true, false, not, Option, none, some, String, str_eq,
  str_eq_iff, str_eq_refl, is_blank, ok, raise_if, >>-eq-ok, raise_if-eq-ok,
}
use adaptive_agent_orchestra.Contracts.Selection.{RuntimeSelectionDecision, is_blank_name}
use adaptive_agent_orchestra.Contracts.Plan.{
  ExecutionMode, ExecutionModeDecision, RuntimePlan, validate_plan, is_name, is_known_arrangement,
}
use adaptive_agent_orchestra.Planning.Composer.{
  PlanOptions, composed_plan, compose_checked, compose_runtime_plan,
}

pub not-eq-false : (b : Bool) → not b ≡ false → b ≡ true
not-eq-false true h = refl
not-eq-false false h = cc

-- What the validator of a plan has checked of it.
pub record IsChecked (p : RuntimePlan) : Type 0 where
  pub planner_named : is_blank_name p.planner ≡ false
  pub executor_named : is_blank p.executor ≡ false
  pub independent : is_name p.reviewer p.executor ≡ false
  pub arranged : is_known_arrangement p.executor p.execution_mode ≡ true

pub validate_plan-IsChecked : (p q : RuntimePlan) → validate_plan p ≡ ok q → (p ≡ q) × IsChecked p
unfolding validate_plan
validate_plan-IsChecked p q h =
    let (a, h₁) = >>-eq-ok (raise_if (is_blank_name p.planner) _) _ h in
    let (b, h₂) = >>-eq-ok (raise_if (is_blank p.executor) _) _ h₁ in
    let (c, h₃) = >>-eq-ok (raise_if (is_blank_name p.reviewer) _) _ h₂ in
    let (d, h₄) = >>-eq-ok (raise_if (is_blank_name p.fallback) _) _ h₃ in
    let (e, h₅) = >>-eq-ok (raise_if (is_blank p.policy_version) _) _ h₄ in
    let (f, h₆) = >>-eq-ok (raise_if (is_blank_name p.selection_policy_version) _) _ h₅ in
    let (g, h₇) = >>-eq-ok (raise_if (is_blank_name p.execution_mode_policy_version) _) _ h₆ in
    let (i, h₈) = >>-eq-ok (raise_if (is_name p.reviewer p.executor) _) _ h₇ in
    let (j, h₉) =
      >>-eq-ok (raise_if (not (is_known_arrangement p.executor p.execution_mode)) _) _ h₈ in
    (
      cc h₉,
      record {
        planner_named = raise_if-eq-ok _ _ a;
        executor_named = raise_if-eq-ok _ _ b;
        independent = raise_if-eq-ok _ _ i;
        arranged = not-eq-false _ (raise_if-eq-ok _ _ j);
      },
    )

-- A composed plan runs the selected runtime in the mode that was decided for it.
pub record IsComposed (selection : RuntimeSelectionDecision)
    (execution_mode : ExecutionModeDecision) (options : PlanOptions) (plan : RuntimePlan)
    : Type 0 where
  pub selected : selection.selected_runtime ≡ some plan.executor
  pub same_runtime : execution_mode.runtime ≡ some plan.executor
  pub decided : execution_mode.mode ≡ some plan.execution_mode
  pub planner_kept : plan.planner ≡ options.planner
  pub reviewer_kept : plan.reviewer ≡ options.reviewer
  pub approval_kept : plan.approval_required ≡ options.approval_required
  pub no_fallback : plan.fallback ≡ none
  pub checked : IsChecked plan

module _ (selection : RuntimeSelectionDecision) (execution_mode : ExecutionModeDecision)
    (options : PlanOptions) (plan : RuntimePlan) where
  compose_checked-IsComposed :
      (selected runtime : Option String) (mode : Option ExecutionMode)
      → selection.selected_runtime ≡ selected
      → execution_mode.runtime ≡ runtime
      → execution_mode.mode ≡ mode
      → compose_checked selection execution_mode options selected runtime mode ≡ ok plan
      → IsComposed selection execution_mode options plan
  unfolding compose_checked
  compose_checked-IsComposed none runtime mode es er em h = cc
  compose_checked-IsComposed (some s) none mode es er em h = cc
  compose_checked-IsComposed (some s) (some r) none es er em h = cc
  compose_checked-IsComposed (some s) (some r) (some m) es er em h =
      let (equal, made) = >>-eq-ok (raise_if (not (str_eq s r)) _) _ h in
      let same : s ≡ r = (str_eq_iff s r).0 (not-eq-false _ (raise_if-eq-ok _ _ equal)) in
      let (it, checked) = validate_plan-IsChecked _ plan made in
      record {
        selected = cc (es, ap (λ (q : RuntimePlan). q.executor) it);
        same_runtime = cc (er, same, ap (λ (q : RuntimePlan). q.executor) it);
        decided = cc (em, ap (λ (q : RuntimePlan). q.execution_mode) it);
        planner_kept = sym (ap (λ (q : RuntimePlan). q.planner) it);
        reviewer_kept = sym (ap (λ (q : RuntimePlan). q.reviewer) it);
        approval_kept = sym (ap (λ (q : RuntimePlan). q.approval_required) it);
        no_fallback = sym (ap (λ (q : RuntimePlan). q.fallback) it);
        checked = subst IsChecked it checked;
      }

  -- A plan that `compose_runtime_plan` returns names the selected runtime, which is the runtime of
  -- the mode decision, as its executor, has the decided mode, keeps the planner, the reviewer and the
  -- approval flag of the caller, has no fallback, has a reviewer other than the executor, and an
  -- arrangement of executor and mode that is known.
  pub compose_runtime_plan-IsComposed :
      compose_runtime_plan selection execution_mode options ≡ ok plan
      → IsComposed selection execution_mode options plan
  unfolding compose_runtime_plan
  compose_runtime_plan-IsComposed h =
      compose_checked-IsComposed selection.selected_runtime execution_mode.runtime
        execution_mode.mode refl refl refl
        (>>-eq-ok (raise_if (is_blank options.plan_policy_version) _) _ h).1

-- Named parts and a reviewer that is not the executor are enough for a plan.
module _ (selection : RuntimeSelectionDecision) (execution_mode : ExecutionModeDecision)
    (options : PlanOptions) (runtime : String) (mode : ExecutionMode) where
  compose_checked_ok :
      is_blank options.plan_policy_version ≡ false
      → is_blank runtime ≡ false
      → is_blank_name options.planner ≡ false
      → is_blank_name options.reviewer ≡ false
      → is_blank selection.policy_version ≡ false
      → is_blank execution_mode.policy_version ≡ false
      → is_name options.reviewer runtime ≡ false
      → is_known_arrangement runtime mode ≡ true
      → compose_checked selection execution_mode options (some runtime) (some runtime) (some mode)
        ≡ ok (composed_plan selection execution_mode options runtime mode)
  unfolding compose_checked validate_plan
  compose_checked_ok version named planner reviewer sv mv independent known =
      simp (str_eq_refl runtime, version, named, planner, reviewer, sv, mv, independent, known)

  pub compose_runtime_plan_ok :
      is_blank options.plan_policy_version ≡ false
      → is_blank runtime ≡ false
      → is_blank_name options.planner ≡ false
      → is_blank_name options.reviewer ≡ false
      → is_blank selection.policy_version ≡ false
      → is_blank execution_mode.policy_version ≡ false
      → is_name options.reviewer runtime ≡ false
      → is_known_arrangement runtime mode ≡ true
      → selection.selected_runtime ≡ some runtime
      → execution_mode.runtime ≡ some runtime
      → execution_mode.mode ≡ some mode
      → compose_runtime_plan selection execution_mode options
        ≡ ok (composed_plan selection execution_mode options runtime mode)
  unfolding compose_runtime_plan
  compose_runtime_plan_ok version named planner reviewer sv mv independent known es er em =
      rw version (
        (λ i. compose_checked selection execution_mode options (es i) (er i) (em i))
        ∙ compose_checked_ok version named planner reviewer sv mv independent known)
