-- ===== src/Contracts/Experiment/Validators.antt =====
-- The validators of lifecycles and budgets of contracts/experiment_profile.py.
use adaptive_agent_orchestra.Base.{
  ◌≡◌, sym, ◌∙◌, ◌↔◌, ◌⊎◌, Bool, true, false, not, is_some, String, str_eq, str_eq_iff, ok,
  >>-eq-ok, raise_if, raise_if-eq-ok, arith,
}
use adaptive_agent_orchestra.Budget.{BudgetConfig}
use adaptive_agent_orchestra.Contracts.Experiment.Profiles.{Json}
use adaptive_agent_orchestra.Contracts.Experiment.{
  ConfiguredBudget, Lifecycle, budget_projection, validate_budget, validate_lifecycle,
}

-- A failure before the submission: nothing is claimed of a runtime, and phase and reason are there.
abbrev pub IsUnsubmitted : Lifecycle → Type 0
IsUnsubmitted l =
    (l.runtime_adapter_invoked ≡ false)
    × (is_some l.runtime_run_id ≡ false)
    × (is_some l.terminal_status ≡ false)
    × (is_some l.failure_phase ≡ true)
    × (is_some l.failure_reason ≡ true)

-- A lifecycle is accepted exactly when the run was submitted, or failed before that with a phase and a
-- reason and without any claim of a runtime; and a run id comes with an invoked runtime.
pub validate_lifecycle_ok_iff :
    (l : Lifecycle)
    → (validate_lifecycle l ≡ ok l) ↔ (
        ((l.submission_attempted ≡ true) ⊎ IsUnsubmitted l)
        × ((l.runtime_adapter_invoked ≡ true) ⊎ (is_some l.runtime_run_id ≡ false)))
unfolding validate_lifecycle
validate_lifecycle_ok_iff l = ground arith

budget_projection-eq : (c d : BudgetConfig) → budget_projection c ≡ budget_projection d → c ≡ d
budget_projection-eq c d h = cc

-- Two accepted budgets with one id have the same limits, where the digest has no collision on the two.
pub validate_budget-budget_id :
    (digest : Json → String) (a b : ConfiguredBudget)
    → validate_budget digest a ≡ ok a
    → validate_budget digest b ≡ ok b
    → (digest (budget_projection a.config) ≡ digest (budget_projection b.config)
        → budget_projection a.config ≡ budget_projection b.config)
    → a.budget_id ≡ b.budget_id
    → a.config ≡ b.config
unfolding validate_budget
validate_budget-budget_id digest a b ha hb collision_free same =
    budget_projection-eq a.config b.config (collision_free (sym (id_of a ha) ∙ (same ∙ id_of b hb)))
  where
    id_of :
        (x : ConfiguredBudget)
        → validate_budget digest x ≡ ok x
        → x.budget_id ≡ digest (budget_projection x.config)
    id_of x h = (str_eq_iff x.budget_id (digest (budget_projection x.config))).0 (
        kept (
          raise_if-eq-ok _ _
            (>>-eq-ok (raise_if (not (str_eq x.budget_id (digest (budget_projection x.config)))) _)
              _ h).0))
      where
        kept : {b : Bool} → not b ≡ false → b ≡ true
        kept {b} h = ground arith
