-- ===== src/Planning/Hmc.antt =====
-- orchestrator/hmc_planner_consumer.py and orchestrator/hmc_planning.py: the typed request to the
-- external planner, and the evidence that comes back. The package `model_council` is the record
-- `Council`; a `PlannerRequest` is read here in the two fields that the source reads.
pub mod Mapping
use adaptive_agent_orchestra.Base.{
  ℕ, zero, suc, ◌≡◌, Bool, true, false, ◌||◌, not, Option, none, some, List, String, str_eq, Result,
  ok, err, value_error, key_error, ◌>>=◌, ◌>>◌, raise_if,
}
use adaptive_agent_orchestra.Contracts.Task.{TaskType, RiskLevel, TaskContract}
use adaptive_agent_orchestra.Contracts.Runtime.{TaskProfile, TaskRequirements}
use adaptive_agent_orchestra.Planning.Intake.{TaskIntake, intake_task}

pub record HmcTaskProfile : Type 0 where
  pub kind : String
  pub complexity : ℕ
  pub risk : ℕ
  pub needs_tools : Bool
  pub needs_freshness : Bool
  pub benefits_from_diversity : Bool

pub record PlannerRequest : Type 0 where
  pub task_profile : HmcTaskProfile
  pub contract_version : String

-- What the orchestrator uses of `model_council`. `default_version` is the version that a new
-- `PlannerRequest` carries.
pub record Council : Type 1 where
  pub ModelSpec : Type 0
  pub Plan : Type 0
  pub Recommendation : Type 0
  pub contract_version : String
  pub default_version : String
  pub recommend_plans : HmcTaskProfile → List ModelSpec → Plan
  pub plan_task : PlannerRequest → Plan → Recommendation
  pub planner_contract_version : Recommendation → String

abbrev pub mapping_policy_version : String
mapping_policy_version = "aao-hmc-planner-mapping-v1"

abbrev pub planner_name : String
planner_name = "model_council"

-- `_TASK_KIND_BY_TYPE`.
unfoldable pub task_kind : TaskType → String
task_kind TaskType.code_fix = "code"
task_kind TaskType.multi_file_refactor = "code"
task_kind TaskType.test_and_implement = "code"
task_kind TaskType.code_review = "code"
task_kind TaskType.parallel_research = "research"
task_kind TaskType.general = "general"

-- `_HMC_RISK_BY_AAO_RISK`.
unfoldable pub hmc_risk : RiskLevel → ℕ
hmc_risk RiskLevel.low = 1
hmc_risk RiskLevel.medium = 3
hmc_risk RiskLevel.high = 4
hmc_risk RiskLevel.critical = 5

-- `_HMC_COMPLEXITY_BY_AAO_COMPLEXITY[complexity]`; another key raises.
unfoldable pub hmc_complexity : ℕ → Result ℕ
hmc_complexity (suc zero) = ok 1
hmc_complexity (suc (suc zero)) = ok 2
hmc_complexity (suc (suc (suc zero))) = ok 3
hmc_complexity (suc (suc (suc (suc zero)))) = ok 4
hmc_complexity (suc (suc (suc (suc (suc zero))))) = ok 5
hmc_complexity _ = err (key_error "complexity")

module _ (council : Council) where
  open council use {
    ModelSpec, Recommendation, contract_version, default_version, recommend_plans, plan_task,
    planner_contract_version,
  }

  pub record HmcPlanningContext : Type 0 where
    pub request : PlannerRequest
    pub recommendation : Recommendation
    pub mapping_version : String
    pub planner_id : String

  -- `HMCPlanningContext.__post_init__`; the two `isinstance` tests are the types of the fields.
  unfoldable pub validate_context : HmcPlanningContext → Result HmcPlanningContext
  validate_context c = do
    raise_if
        (not (str_eq c.request.contract_version contract_version)
          || not (str_eq (planner_contract_version c.recommendation) contract_version))
        (value_error "planner contract version must match hmc-planner-v1.0")
    raise_if (not (str_eq c.mapping_version mapping_policy_version))
        (value_error "mapping policy version must match AAO policy")
    raise_if (not (str_eq c.planner_id planner_name))
        (value_error "planner_id must be model_council")
    ok c

  abbrev pub planner_request :
      TaskContract → TaskProfile → TaskRequirements → Bool → ℕ → PlannerRequest
  planner_request task profile requirements needs_freshness complexity = record {
    task_profile = record {
      kind = task_kind task.task_type;
      complexity = complexity;
      risk = hmc_risk task.risk;
      needs_tools =
          requirements.filesystem_read
          || (requirements.filesystem_write
              || (requirements.shell || (requirements.tests || requirements.web)));
      needs_freshness = needs_freshness;
      benefits_from_diversity = profile.decision_diversity;
    };
    contract_version = default_version;
  }

  unfoldable pub build_hmc_planner_request :
      TaskContract → TaskProfile → TaskRequirements → Bool → Result PlannerRequest
  unfolding hmc_complexity hmc_risk task_kind
  build_hmc_planner_request task profile requirements needs_freshness = do
    complexity ← hmc_complexity task.complexity
    ok (planner_request task profile requirements needs_freshness complexity)

  pub record HmcPlanningEvidence : Type 0 where
    pub intake : TaskIntake
    pub context : HmcPlanningContext

  -- `intake.requirements.web if needs_freshness is None else needs_freshness`.
  abbrev pub freshness : Option Bool → Bool → Bool
  freshness none web = web
  freshness (some needed) web = needed

  abbrev pub planning_context : PlannerRequest → List ModelSpec → HmcPlanningContext
  planning_context request models = record {
    request = request;
    recommendation = plan_task request (recommend_plans request.task_profile models);
    mapping_version = mapping_policy_version;
    planner_id = planner_name;
  }

  -- `models` is what the model discoverer returns.
  unfoldable pub build_hmc_planning :
      TaskContract → List ModelSpec → Option Bool → Result HmcPlanningEvidence
  unfolding intake_task build_hmc_planner_request validate_context
  build_hmc_planning task models needs_freshness = do
    let intake = intake_task task
    request ←
        build_hmc_planner_request task intake.profile intake.requirements
          (freshness needs_freshness intake.requirements.web)
    context ← validate_context (planning_context request models)
    ok (record { intake = intake; context = context })
