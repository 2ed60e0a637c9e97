-- ===== src/Evals.antt =====
-- contracts/evaluation.py: the checks of the evaluation gate and the verdict over them. The time of
-- the evaluation is left out.
pub mod Verdict
pub mod Paths
pub mod Criteria
pub mod Scans
pub mod Gate
use adaptive_agent_orchestra.Base.{
  Bool, true, false, ◌&&◌, not, Option, List, filter, is_empty, String, if◌then◌else◌,
}

pub data EvalStatus : Type 0 where
  pass fail skip : EvalStatus

pub record EvalCheck : Type 0 where
  pub name : String
  pub status : EvalStatus
  pub detail : String
  pub blocker : Bool

pub record EvalResult : Type 0 where
  pub task_id : String
  pub run_id : Option String
  pub overall : EvalStatus
  pub checks : List EvalCheck

abbrev pub is_fail : EvalStatus → Bool
is_fail EvalStatus.fail = true
is_fail _ = false

abbrev pub is_pass : EvalStatus → Bool
is_pass EvalStatus.pass = true
is_pass _ = false

-- The test of the comprehension `failed_blockers`.
abbrev pub is_failed_blocker : EvalCheck → Bool
is_failed_blocker c = c.blocker && is_fail c.status

unfoldable pub aggregate : String → Option String → List EvalCheck → EvalResult
aggregate task_id run_id checks = record {
  task_id = task_id;
  run_id = run_id;
  overall = if is_empty (filter is_failed_blocker checks) then EvalStatus.pass else EvalStatus.fail;
  checks = checks;
}

unfoldable pub failed_checks : EvalResult → List EvalCheck
failed_checks r = filter (λ (c : EvalCheck). is_fail c.status) r.checks
