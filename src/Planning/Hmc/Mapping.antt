-- ===== src/Planning/Hmc/Mapping.antt =====
-- The mapping of orchestrator/hmc_planner_consumer.py to the external planner: tables and checks.
use adaptive_agent_orchestra.Base.{
  ℕ, zero, suc, ◌≤◌, ◌≡◌, refl, ◌↔◌, Bool, true, ◌||◌, str_eq, str_eq_refl, Option, List, ok, ◌>>=◌,
  raise_if, >>-eq-ok, raise_if-eq-ok, ltb, or_false, arith, ap,
}
use adaptive_agent_orchestra.Contracts.Task.{
  RiskLevel, risk_value, TaskContract, validate_task_fields,
}
use adaptive_agent_orchestra.Contracts.Runtime.{TaskProfile, TaskRequirements}
use adaptive_agent_orchestra.Planning.Intake.{intake_task}
use adaptive_agent_orchestra.Planning.Hmc.{
  Council, PlannerRequest, HmcPlanningEvidence, hmc_risk, hmc_complexity, planner_request,
  planning_context, validate_context, build_hmc_planner_request, build_hmc_planning, freshness,
}

-- A higher risk of the task is a higher risk for the planner, and both scales have the same order.
pub hmc_risk-le_iff : (a b : RiskLevel) → (risk_value a ≤ risk_value b) ↔ (hmc_risk a ≤ hmc_risk b)
unfolding hmc_risk
hmc_risk-le_iff a b = ground arith

pub hmc_complexity_ok : (n : ℕ) → 1 ≤ n → n ≤ 5 → hmc_complexity n ≡ ok n
unfolding hmc_complexity
hmc_complexity_ok zero lo hi = absurd (omega arith)
hmc_complexity_ok (suc zero) lo hi = refl
hmc_complexity_ok (suc (suc zero)) lo hi = refl
hmc_complexity_ok (suc (suc (suc zero))) lo hi = refl
hmc_complexity_ok (suc (suc (suc (suc zero)))) lo hi = refl
hmc_complexity_ok (suc (suc (suc (suc (suc zero))))) lo hi = refl
hmc_complexity_ok (suc (suc (suc (suc (suc (suc n)))))) lo hi = absurd (omega arith)

complexity_bounds :
    (task : TaskContract)
    → validate_task_fields task ≡ ok task
    → (1 ≤ task.complexity) × (task.complexity ≤ 5)
unfolding validate_task_fields
complexity_bounds task h =
    let out =
      raise_if-eq-ok _ _
        (>>-eq-ok (raise_if (ltb task.complexity 1 || ltb 5 task.complexity) _) _ h).0 in
    let (low, high) = or_false (ltb task.complexity 1) (ltb 5 task.complexity) out in
    (ground arith, ground arith)

module _ (council : Council) where
  -- The versions that the external package carries are the version it announces.
  abbrev pub IsVersioned : Type 0
  IsVersioned =
      (council.default_version ≡ council.contract_version)
      × ((request : PlannerRequest) (plan : council.Plan)
          → council.planner_contract_version (council.plan_task request plan)
            ≡ council.contract_version)

  validate_context_ok :
      (request : PlannerRequest) (models : List council.ModelSpec)
      → request.contract_version ≡ council.contract_version
      → IsVersioned
      → validate_context council (planning_context council request models)
        ≡ ok (planning_context council request models)
  unfolding validate_context
  validate_context_ok request models version (request_version, plan_version) =
      let plans = council.recommend_plans request.task_profile models in
      let first : str_eq request.contract_version council.contract_version ≡ true =
        rw version (str_eq_refl council.contract_version) in
      let second : str_eq (council.planner_contract_version (council.plan_task request plans))
            council.contract_version
          ≡ true =
        rw (plan_version request plans) (str_eq_refl council.contract_version) in
      rw (first, second) refl

  build_hmc_planner_request_ok :
      (task : TaskContract) (profile : TaskProfile) (requirements : TaskRequirements) (fresh : Bool)
      → validate_task_fields task ≡ ok task
      → build_hmc_planner_request council task profile requirements fresh
        ≡ ok (planner_request council task profile requirements fresh task.complexity)
  unfolding build_hmc_planner_request
  build_hmc_planner_request_ok task profile requirements fresh valid =
      let (low, high) = complexity_bounds task valid in
      ap (λ c. c >>= λ n. ok (planner_request council task profile requirements fresh n))
        (hmc_complexity_ok task.complexity low high)

  -- For a valid task, and a package `model_council` whose requests and recommendations carry the
  -- contract version that it announces, planning evidence is returned: no table lookup misses and
  -- the context passes its checks. The request carries the task's complexity unchanged and its
  -- mapped risk, and the planner's id is the one that the pipeline will name.
  pub build_hmc_planning_ok :
      (task : TaskContract) (models : List council.ModelSpec) (needs_freshness : Option Bool)
      → validate_task_fields task ≡ ok task
      → IsVersioned
      → (evidence : HmcPlanningEvidence council) × (build_hmc_planning council task models
            needs_freshness
          ≡ ok evidence)
        × (evidence.intake ≡ intake_task task)
        × (evidence.context.request.task_profile.complexity ≡ task.complexity)
        × (evidence.context.request.task_profile.risk ≡ hmc_risk task.risk)
        × (evidence.context.planner_id ≡ "model_council")
  unfolding build_hmc_planning
  build_hmc_planning_ok task models needs_freshness valid versioned =
      let intake = intake_task task in
      let fresh = freshness council needs_freshness intake.requirements.web in
      let request =
        planner_request council task intake.profile intake.requirements fresh task.complexity in
      (
        record { intake = intake; context = planning_context council request models },
        rw
            (
              build_hmc_planner_request_ok task intake.profile intake.requirements fresh valid,
              validate_context_ok request models versioned.0 versioned,
            )
            refl,
        refl,
        refl,
        refl,
        refl,
      )
