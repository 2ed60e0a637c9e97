-- ===== src/Contracts/Task.antt =====
-- contracts/task.py and the success criteria of contracts/execution.py: the task contract and its
-- validators. The `visit` walk over the subtask graph stands in Contracts/Subtasks.antt.
use adaptive_agent_orchestra.Base.{
  ℕ, Bool, ◌&&◌, ◌||◌, leb, ltb, is_empty, Option, List, String, Result, ok, value_error, ◌>>◌,
  raise_if,
}

pub data TaskType : Type 0 where
  code_fix multi_file_refactor parallel_research : TaskType
  test_and_implement code_review general : TaskType

pub data RiskLevel : Type 0 where
  low medium high critical : RiskLevel

-- The value of the `IntEnum`.
abbrev pub risk_value : RiskLevel → ℕ
risk_value RiskLevel.low = 1
risk_value RiskLevel.medium = 2
risk_value RiskLevel.high = 3
risk_value RiskLevel.critical = 4

pub record WorkspaceSpec : Type 0 where
  pub path : String
  pub branch : Option String
  pub child_id : Option String
  pub repo_path : Option String

pub record SubtaskSpec : Type 0 where
  pub id : String
  pub goal : String
  pub allowed_paths : List String
  pub dependencies : List String
  pub expected_output : String

pub data CriterionType : Type 0 where
  pytest command file_exists file_contains git_diff registered output_equals : CriterionType

-- `timeout_s` is a whole number of seconds here.
pub record SuccessCriterion : Type 0 where
  pub type : CriterionType
  pub target : Option String
  pub value : Option String
  pub command : List String
  pub name : Option String
  pub timeout_s : ℕ

-- `str | SuccessCriterion`.
pub data Criterion : Type 0 where
  text : String → Criterion
  structured : SuccessCriterion → Criterion

-- The dict `context`: the keys that the orchestrator writes and reads, and the caller's own items.
-- A key that is not there is `none`.
pub record TaskContext : Type 0 where
  pub items : List (String × String)
  pub eval_base_sha : Option String
  pub subtask_id : Option String
  pub dependencies : Option (List String)
  pub expected_output : Option String
  pub decomposition_mode : Option String
  pub child_id : Option String

pub record TaskContract : Type 0 where
  pub id : String
  pub task_type : TaskType
  pub goal : String
  pub context : TaskContext
  pub allowed_paths : List String
  pub forbidden_actions : List String
  pub success_criteria : List Criterion
  pub output_schema : List String
  pub risk : RiskLevel
  pub complexity : ℕ
  pub workspace : Option WorkspaceSpec
  pub parent_task_id : Option String
  pub subtasks : List SubtaskSpec

abbrev pub is_high_risk : RiskLevel → Bool
is_high_risk r = leb (risk_value RiskLevel.high) (risk_value r)

-- `validate_high_risk_has_criteria`, behind the bounds of the field `complexity`.
unfoldable pub validate_task_fields : TaskContract → Result TaskContract
validate_task_fields t = do
  raise_if (ltb t.complexity 1 || ltb 5 t.complexity) (value_error "complexity must be from 1 to 5")
  raise_if (is_high_risk t.risk && is_empty t.success_criteria)
      (value_error "High-risk tasks must define success_criteria")
  ok t
