-- ===== src/Contracts/Experiment.antt =====
-- contracts/experiment_profile.py: the identities of budgets, profiles and tasks in the evidence of an
-- experiment, and its validators. A projection is a JSON value, and `digest` stands for the canonical
-- JSON text and its SHA-256. A record has the fields that its string constraints have let through;
-- the observed usage and the costs, which nothing checks, are left out.
pub mod Profiles
pub mod Identities
pub mod Validators
pub mod TaskIdentity
use adaptive_agent_orchestra.Base.{
  ℕ, Bool, true, false, ◌&&◌, ◌||◌, not, Option, none, some, is_some, List, [], ◌∷◌, ◌++◌, map,
  is_empty, String, str_append, str_eq, Result, ok, err, value_error, ◌>>=◌, ◌>>◌, raise_if,
  if◌then◌else◌,
}
use adaptive_agent_orchestra.Budget.{BudgetConfig, BudgetState}
use adaptive_agent_orchestra.Contracts.Experiment.Profiles.{
  Json, null, text, number, object, end, field, opt_text, ComparisonKind, ConfiguredProfile,
  ObservedProfile, configured_projection, effective_projection, missing_configured,
  missing_observed,
}

pub data ArmId : Type 0 where
  arm_a arm_b : ArmId

pub record ExperimentBinding : Type 0 where
  pub experiment_id : String
  pub experiment_definition_revision : String
  pub experiment_definition_sha256 : String
  pub comparison_kind : ComparisonKind
  pub pair_id : String
  pub trial_id : ℕ
  pub arm_id : ArmId

pub record ConfiguredBudget : Type 0 where
  pub config : BudgetConfig
  pub budget_id : String

pub record EnforcedBudget : Type 0 where
  pub calls_used : ℕ
  pub calls_reserved : ℕ
  pub retries_used : ℕ
  pub children_used : ℕ
  pub depth_used : ℕ
  pub submission_prevented : Option Bool
  pub retry_prevented : Option Bool
  pub approval_required : Option Bool
  pub approval_granted : Option Bool

-- `EnforcedBudgetV1.from_state`.
unfoldable pub from_state :
    BudgetState → (prevented retry required granted : Option Bool) → EnforcedBudget
from_state state prevented retry required granted = record {
  calls_used = state.calls_used;
  calls_reserved = state.calls_reserved;
  retries_used = state.retries_used;
  children_used = state.children_used;
  depth_used = state.depth_used;
  submission_prevented = prevented;
  retry_prevented = retry;
  approval_required = required;
  approval_granted = granted;
}

pub data Completeness : Type 0 where
  complete incomplete : Completeness

pub record ProfileIdentity : Type 0 where
  pub configured_profile_id : Option String
  pub effective_profile_id : Option String
  pub completeness : Completeness
  pub incompleteness_reasons : List String

-- `validate_completeness`.
unfoldable pub validate_completeness : ProfileIdentity → Result ProfileIdentity
validate_completeness i = elim i.completeness [
  | complete ↦ (do
    raise_if (not (is_some i.configured_profile_id && is_some i.effective_profile_id))
        (value_error "complete profile requires configured and effective profile identities")
    raise_if (not (is_empty i.incompleteness_reasons))
        (value_error "complete profile cannot have incompleteness reasons")
    ok i)
  | incomplete ↦ (do
    raise_if (is_empty i.incompleteness_reasons) (value_error "incomplete profile requires reasons")
    ok i)
]

pub data Terminal : Type 0 where
  completed failed cancelled timeout : Terminal

pub record Lifecycle : Type 0 where
  pub submission_attempted : Bool
  pub runtime_adapter_invoked : Bool
  pub runtime_run_id : Option String
  pub terminal_status : Option Terminal
  pub failure_phase : Option String
  pub failure_reason : Option String

-- The checks of a failure before the submission.
abbrev pub check_unsubmitted : Lifecycle → Result (Unit {0})
check_unsubmitted l = do
  raise_if (l.runtime_adapter_invoked || is_some l.runtime_run_id)
      (value_error "pre-submission failure cannot claim runtime invocation or run ID")
  raise_if (is_some l.terminal_status)
      (value_error "pre-submission failure cannot claim a runtime terminal status")
  raise_if (not (is_some l.failure_phase && is_some l.failure_reason))
      (value_error "pre-submission failure requires phase and reason")

unfoldable pub validate_lifecycle : Lifecycle → Result Lifecycle
validate_lifecycle l = do
  if l.submission_attempted then ok tt else check_unsubmitted l
  raise_if (not l.runtime_adapter_invoked && is_some l.runtime_run_id)
      (value_error "runtime_run_id requires runtime adapter invocation")
  ok l

-- `AAOExperimentV1` without its task, which Contracts/Experiment/TaskIdentity builds and no validator
-- of the experiment reads.
pub record Experiment : Type 0 where
  pub experiment : ExperimentBinding
  pub configured_profile : ConfiguredProfile
  pub observed_profile : ObservedProfile
  pub profile_identity : ProfileIdentity
  pub configured_budget : ConfiguredBudget
  pub enforced_budget : EnforcedBudget
  pub lifecycle : Lifecycle

abbrev pub same_text : Option String → Option String → Bool
same_text none none = true
same_text (some a) (some b) = str_eq a b
same_text _ _ = false

-- The run id is that of the experiment or of the pair.
abbrev pub is_shared : ExperimentBinding → Option String → Bool
is_shared b none = false
is_shared b (some run_id) = str_eq run_id b.experiment_id || str_eq run_id b.pair_id

abbrev pub same_completeness : Completeness → Completeness → Bool
same_completeness complete complete = true
same_completeness incomplete incomplete = true
same_completeness _ _ = false

abbrev pub same_texts : List String → List String → Bool
same_texts [] [] = true
same_texts (x ∷ xs) (y ∷ ys) = str_eq x y && same_texts xs ys
same_texts _ _ = false

-- `==` on two identities.
unfoldable pub same_identity : ProfileIdentity → ProfileIdentity → Bool
same_identity i j =
    (same_text i.configured_profile_id j.configured_profile_id
      && same_text i.effective_profile_id j.effective_profile_id)
    && (same_completeness i.completeness j.completeness
        && same_texts i.incompleteness_reasons j.incompleteness_reasons)

abbrev pub budget_projection : BudgetConfig → Json
budget_projection c = object (
    field "max_children" (number c.max_children) (
      field "max_depth" (number c.max_depth) (
        field "max_retries" (number c.max_retries) (
          field "max_total_calls" (number c.max_total_calls)
            (field "require_approval_above_calls" (number c.require_approval_above_calls) end)))))

module _ (digest : Json → String) where
  -- `validate_identity`.
  unfoldable pub validate_budget : ConfiguredBudget → Result ConfiguredBudget
  validate_budget b = do
    raise_if (not (str_eq b.budget_id (digest (budget_projection b.config))))
        (value_error "budget_id does not match configured budget semantic projection")
    ok b

  unfoldable pub configured_budget_from_config : BudgetConfig → Result ConfiguredBudget
  unfolding validate_budget
  configured_budget_from_config c =
      validate_budget (record { config = c; budget_id = digest (budget_projection c) })

  abbrev pub id_unless : List String → Json → Option String
  id_unless [] projection = some (digest projection)
  id_unless (_ ∷ _) projection = none

  abbrev pub completeness_of : List String → Completeness
  completeness_of [] = complete
  completeness_of (_ ∷ _) = incomplete

  -- The identity that `_profile_identity` hands to the validator.
  unfoldable pub expected_identity :
      ComparisonKind → ConfiguredProfile → ObservedProfile → ProfileIdentity
  expected_identity kind configured observed = record {
    configured_profile_id =
        id_unless (missing_configured kind configured) (configured_projection configured);
    effective_profile_id =
        id_unless (missing_observed kind observed) (effective_projection observed);
    completeness =
        completeness_of (missing_configured kind configured ++ missing_observed kind observed);
    incompleteness_reasons = missing_configured kind configured ++ missing_observed kind observed;
  }

  -- `_profile_identity`.
  unfoldable pub profile_identity :
      ComparisonKind → ConfiguredProfile → ObservedProfile → Result ProfileIdentity
  unfolding expected_identity validate_completeness
  profile_identity kind configured observed =
      validate_completeness (expected_identity kind configured observed)

  -- `validate_cross_field_identities`.
  unfoldable pub validate_experiment : Experiment → Result Experiment
  unfolding profile_identity same_identity
  validate_experiment e = do
    raise_if (not (same_text e.configured_profile.budget_id (some e.configured_budget.budget_id)))
        (value_error "configured profile budget_id must match configured budget")
    raise_if (is_shared e.experiment e.lifecycle.runtime_run_id)
        (value_error "runtime_run_id must remain separate from experiment and pair IDs")
    expected ← profile_identity e.experiment.comparison_kind e.configured_profile e.observed_profile
    raise_if (not (same_identity e.profile_identity expected))
        (value_error "profile_identity does not match canonical profile projections")
    ok e

  -- `build_aao_experiment_v1`.
  unfoldable pub build_experiment :
      ExperimentBinding
      → ConfiguredProfile
      → ObservedProfile
      → ConfiguredBudget
      → EnforcedBudget
      → Lifecycle
      → Result Experiment
  unfolding validate_experiment
  build_experiment binding configured observed budget enforced lifecycle = do
    identity ← profile_identity binding.comparison_kind configured observed
    validate_experiment (record {
      experiment = binding;
      configured_profile = configured;
      observed_profile = observed;
      profile_identity = identity;
      configured_budget = budget;
      enforced_budget = enforced;
      lifecycle = lifecycle;
    })
