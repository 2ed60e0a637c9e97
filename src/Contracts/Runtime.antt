-- ===== src/Contracts/Runtime.antt =====
-- contracts/requirements.py, contracts/runtime_health.py, contracts/task_profile.py and the
-- capability flags of adapters/runtime.py. A pydantic model is a record, and a function named after
-- its validators gives the record back or the first `ValueError` that they raise.
use adaptive_agent_orchestra.Base.{
  ℕ, Bool, true, false, ◌&&◌, not, Option, is_some, List, String, is_blank, Result, ok, value_error,
  ◌>>◌, raise_if,
}

-- The capabilities that a task may require. `TaskRequirements` and `RuntimeCapabilities` both have a
-- flag of each of these names, and `assess_candidate` reads them by name.
pub data Capability : Type 0 where
  filesystem_read filesystem_write shell tests web : Capability
  background_execution persistent_tasks human_in_loop : Capability

pub record TaskRequirements : Type 0 where
  pub filesystem_read : Bool
  pub filesystem_write : Bool
  pub shell : Bool
  pub tests : Bool
  pub web : Bool
  pub background_execution : Bool
  pub persistent_tasks : Bool
  pub human_in_loop : Bool

-- `requirements.model_dump()[name]`.
unfoldable pub requires : TaskRequirements → Capability → Bool
requires r Capability.filesystem_read = r.filesystem_read
requires r Capability.filesystem_write = r.filesystem_write
requires r Capability.shell = r.shell
requires r Capability.tests = r.tests
requires r Capability.web = r.web
requires r Capability.background_execution = r.background_execution
requires r Capability.persistent_tasks = r.persistent_tasks
requires r Capability.human_in_loop = r.human_in_loop

pub record RuntimeCapabilities : Type 0 where
  pub streaming_events : Bool
  pub mid_run_steer : Bool
  pub native_delegation : Bool
  pub cancellation : Bool
  pub session_resume : Bool
  pub max_concurrent_runs : ℕ
  pub filesystem_read : Bool
  pub filesystem_write : Bool
  pub shell : Bool
  pub tests : Bool
  pub web : Bool
  pub background_execution : Bool
  pub persistent_tasks : Bool
  pub human_in_loop : Bool
  pub native_kanban : Bool
  pub structured_output : Bool
  pub usage_observable : Bool
  pub cost_observable : Bool

-- `RuntimeCapabilities()`: the defaults of the dataclass.
abbrev pub default_capabilities : RuntimeCapabilities
default_capabilities = record {
  streaming_events = true;
  mid_run_steer = false;
  native_delegation = false;
  cancellation = true;
  session_resume = false;
  max_concurrent_runs = 8;
  filesystem_read = false;
  filesystem_write = false;
  shell = false;
  tests = false;
  web = false;
  background_execution = false;
  persistent_tasks = false;
  human_in_loop = false;
  native_kanban = false;
  structured_output = false;
  usage_observable = false;
  cost_observable = false;
}

-- `getattr(candidate.capabilities, name)`.
unfoldable pub offers : RuntimeCapabilities → Capability → Bool
offers c Capability.filesystem_read = c.filesystem_read
offers c Capability.filesystem_write = c.filesystem_write
offers c Capability.shell = c.shell
offers c Capability.tests = c.tests
offers c Capability.web = c.web
offers c Capability.background_execution = c.background_execution
offers c Capability.persistent_tasks = c.persistent_tasks
offers c Capability.human_in_loop = c.human_in_loop

pub data HealthStatus : Type 0 where
  available degraded unavailable unknown : HealthStatus

-- A time stamp is a number: only its presence is read.
pub record RuntimeHealth : Type 0 where
  pub runtime : String
  pub status : HealthStatus
  pub reasons : List String
  pub checked_at : Option ℕ

abbrev pub is_unknown : HealthStatus → Bool
is_unknown HealthStatus.unknown = true
is_unknown _ = false

-- `validate_runtime_identity`, then `validate_observed_status_has_timestamp`.
unfoldable pub validate_health : RuntimeHealth → Result RuntimeHealth
validate_health h = do
  raise_if (is_blank h.runtime) (value_error "runtime must not be blank")
  raise_if (not (is_unknown h.status) && not (is_some h.checked_at))
      (value_error "observed runtime health requires checked_at")
  ok h

pub data ComplexityLevel : Type 0 where
  low medium high : ComplexityLevel

-- The cross-runtime task shape of contracts/task_profile.py.
pub record TaskProfile : Type 0 where
  pub reasoning_complexity : ComplexityLevel
  pub execution_complexity : ComplexityLevel
  pub persistent_execution : Bool
  pub long_running : Bool
  pub parallelizable : Bool
  pub cross_role_dependencies : Bool
  pub human_in_loop : Bool
  pub decision_diversity : Bool
  pub external_effects : Bool
