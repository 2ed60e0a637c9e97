-- ===== src/Planning/Filter.antt =====
-- orchestrator/candidate_filter.py: which of the supplied runtimes can take the task.
pub mod Eligibility
use adaptive_agent_orchestra.Base.{
  Bool, true, false, ◌&&◌, not, List, [], ◌∷◌, ◌++◌, map, filter, is_empty, String, str_eq,
  str_append, is_blank, Result, ok, value_error, ◌>>◌, raise_if, if◌then◌else◌,
}
use adaptive_agent_orchestra.Contracts.Runtime.{
  Capability, TaskRequirements, RuntimeCapabilities, HealthStatus, RuntimeHealth, requires, offers,
}

pub data RejectionCode : Type 0 where
  missing_capability health_unknown health_unavailable contract_mismatch : RejectionCode

pub record RuntimeCandidate : Type 0 where
  pub runtime : String
  pub capabilities : RuntimeCapabilities
  pub health : RuntimeHealth

-- `RuntimeCandidate.validate_runtime_identity`.
unfoldable pub validate_candidate : RuntimeCandidate → Result RuntimeCandidate
validate_candidate c = do
  raise_if (is_blank c.runtime) (value_error "runtime must not be blank")
  raise_if (not (str_eq c.health.runtime c.runtime))
      (value_error "candidate runtime must match health runtime")
  ok c

pub record CandidateAssessment : Type 0 where
  pub runtime : String
  pub eligible : Bool
  pub degraded : Bool
  pub health_status : HealthStatus
  pub missing_capabilities : List Capability
  pub rejection_codes : List RejectionCode
  pub reasons : List String

-- The field names of `TaskRequirements`, in the order of `model_dump`.
abbrev pub capability_names : List Capability
capability_names =
    Capability.filesystem_read ∷ Capability.filesystem_write ∷ Capability.shell ∷ Capability.tests
    ∷ Capability.web ∷ Capability.background_execution ∷ Capability.persistent_tasks
    ∷ Capability.human_in_loop ∷ []

abbrev pub capability_text : Capability → String
capability_text Capability.filesystem_read = "filesystem_read"
capability_text Capability.filesystem_write = "filesystem_write"
capability_text Capability.shell = "shell"
capability_text Capability.tests = "tests"
capability_text Capability.web = "web"
capability_text Capability.background_execution = "background_execution"
capability_text Capability.persistent_tasks = "persistent_tasks"
capability_text Capability.human_in_loop = "human_in_loop"

-- The `if` clause of the comprehension that collects `missing_capabilities`.
unfoldable pub is_missing : TaskRequirements → RuntimeCapabilities → Capability → Bool
unfolding requires offers
is_missing requirements capabilities name =
    requires requirements name && not (offers capabilities name)

unfoldable pub missing_in : TaskRequirements → RuntimeCapabilities → List Capability
unfolding is_missing
missing_in requirements capabilities =
    filter (is_missing requirements capabilities) capability_names

abbrev pub capability_codes : List Capability → List RejectionCode
capability_codes [] = []
capability_codes (_ ∷ _) = RejectionCode.missing_capability ∷ []

-- The rejection code and the reasons that the branches on `health_status` add.
abbrev pub health_codes : HealthStatus → List RejectionCode
health_codes HealthStatus.unknown = RejectionCode.health_unknown ∷ []
health_codes HealthStatus.unavailable = RejectionCode.health_unavailable ∷ []
health_codes _ = []

abbrev pub reasons_or : List String → List String → List String
reasons_or [] other = other
reasons_or (r ∷ rs) other = r ∷ rs

abbrev pub health_reasons : HealthStatus → List String → List String
health_reasons HealthStatus.unknown reasons = "runtime health is unknown" ∷ []
health_reasons HealthStatus.unavailable reasons = reasons_or reasons ("runtime is unavailable" ∷ [])
health_reasons HealthStatus.degraded reasons = reasons
health_reasons HealthStatus.available reasons = []

abbrev pub is_usable : HealthStatus → Bool
is_usable HealthStatus.available = true
is_usable HealthStatus.degraded = true
is_usable _ = false

abbrev pub is_degraded : HealthStatus → Bool
is_degraded HealthStatus.degraded = true
is_degraded _ = false

unfoldable pub assess_candidate : TaskRequirements → RuntimeCandidate → CandidateAssessment
unfolding missing_in
assess_candidate requirements candidate =
    let missing = missing_in requirements candidate.capabilities in
    let status = candidate.health.status in
    record {
      runtime = candidate.runtime;
      eligible = is_empty missing && is_usable status;
      degraded = is_degraded status;
      health_status = status;
      missing_capabilities = missing;
      rejection_codes = capability_codes missing ++ health_codes status;
      reasons =
          map (λ name. str_append "missing required capability: " (capability_text name)) missing
          ++ health_reasons status candidate.health.reasons;
    }

unfoldable pub assess_candidates :
    TaskRequirements → List RuntimeCandidate → List CandidateAssessment
assess_candidates requirements candidates = map (assess_candidate requirements) candidates
