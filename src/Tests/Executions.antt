-- ===== src/Tests/Executions.antt =====
-- The theorems on executions at concrete inputs: a runtime whose first run is found wanting and whose
-- second passes.
use adaptive_agent_orchestra.Base.{
  ◌≡◌, ◌≢◌, refl, Bool, true, false, ℕ, some, none, [], ◌∷◌, ok, err, Result, runtime_error,
  os_error, length, ◌==◌, if◌then◌else◌, filter, arith,
}
use adaptive_agent_orchestra.Contracts.Runtime.{HealthStatus}
use adaptive_agent_orchestra.Contracts.Task.{TaskContract}
use adaptive_agent_orchestra.Budget.{
  default_config, check_retries, reserve_calls, can_submit_calls, commit_reserved_call,
  release_reserved_call, check_calls, requires_approval,
}
use adaptive_agent_orchestra.Budget.Policy.{authorize_submission}
use adaptive_agent_orchestra.Delegation.{RunStatus, AgentResult}
use adaptive_agent_orchestra.Evals.{EvalStatus, EvalResult}
use adaptive_agent_orchestra.Routing.{
  RuleRouter, route_task, delegation_signals, estimate_input_tokens, text_length,
}
use adaptive_agent_orchestra.State.{
  create, transition, transitions, is_allowed, mark_routed, mark_running, mark_failed, mark_retry,
}
use adaptive_agent_orchestra.Engine.Action.{
  Step, Trail, ◌>>=◌, ◌>>◌, try_except, when, branch, ask, on_record, on_budget,
}
use adaptive_agent_orchestra.Engine.Outside.{
  EventType, Answers, rollback, cleanup, integrate, cancel_and_confirm_terminal,
}
use adaptive_agent_orchestra.Engine.Summary.{
  RunOutcome, Summary, Orchestrator, runtime_terminal_outcome,
}
use adaptive_agent_orchestra.Engine.Submission.{runtime_identity, authorize, submit, mark_submitted}
use adaptive_agent_orchestra.Engine.Stream.{await_result, watch, abort_stream, stream_stage}
use adaptive_agent_orchestra.Engine.Ending.{
  evaluation, refuse_mutation, deliver_stage, evaluation_passed, evaluation_failed, outcome_stage,
}
use adaptive_agent_orchestra.Engine.Execution.{
  finished, again, run_reserved, decline, execute_single, decision, profile_and_route, check_budget,
  check_approval, prepare, preflight, dispatch, attempt, execute, run,
}
use adaptive_agent_orchestra.Engine.Quiet.{alive, contained}
use adaptive_agent_orchestra.Engine.Reports.{Reported}
use adaptive_agent_orchestra.Engine.Guarantees.{run-Contained, run-Reported}
use adaptive_agent_orchestra.Engine.Terminates.{run-IsLast}
use adaptive_agent_orchestra.Tests.{fix_task}

abbrev task : TaskContract
task = record fix_task { subtasks = [] }

abbrev router : RuleRouter
router = record {
  policy_version = "r1";
  min_independent_subtasks = 2;
  min_estimated_input_tokens = 1000;
  allowed_task_types = [];
  max_complexity = 3;
  max_affected_modules = 2;
  sequential_dep_forces_single = true;
}

abbrev orchestrator : Orchestrator
orchestrator = record {
  profile = λ t. record {
    independent_subtask_count = 0;
    has_sequential_dependency = false;
    affected_module_count = 1;
  };
  context_text = λ c. "";
  criterion_json = λ c. "";
  router = router;
  has_workspaces = true;
  readonly_task_types = [];
  identities = "hermes" ∷ [];
  runtime_priority = "hermes" ∷ [];
  health = ("hermes", HealthStatus.available) ∷ [];
  policy = record {
    max_total_calls = 8;
    require_approval_above_calls = 5;
    always_require_actions = [];
  };
  approval = record { always_require = []; require_for_risk = [] };
  budget_config = default_config;
  planning_required = false;
}

abbrev result : AgentResult
result = record {
  run_id = some "r";
  task_id = "t1";
  status = RunStatus.completed;
  usage = none;
  files_changed = none;
  summary = none;
  error = none;
}

abbrev submissions : Trail → ℕ
submissions trail = length (filter (λ c. is_submit c.0) trail)
  where
    is_submit : Step → Bool
    is_submit Step.submit = true
    is_submit _ = false

-- The evaluation passes from the second submission on.
abbrev evaluated : Trail → EvalResult
evaluated trail = record {
  task_id = "t1";
  run_id = some "r";
  overall = if submissions trail == 1 then EvalStatus.fail else EvalStatus.pass;
  checks = [];
}

abbrev answers : Answers
answers = record {
  create_workspace = λ t. ok "base";
  remove_artifacts = λ t. ok tt;
  deliver = λ t. ok tt;
  changed_files = λ t. ok ("src/parse" ∷ []);
  capture = λ t. ok tt;
  check_root = λ t. ok tt;
  baseline_changes = λ t. ok [];
  submit = λ t. ok "r";
  stream = λ t. ok (EventType.message ∷ EventType.completed ∷ [], none);
  cancel = λ t. ok tt;
  wait = λ t. ok result;
  quiesce = λ t. ok tt;
  read_usage = λ t. ok (record {
    input_tokens = some 1;
    output_tokens = some 2;
    cached_tokens = none;
    total_tokens = none;
  });
  evaluate = λ t. ok (evaluated t);
  check_paths =
      λ files. record { name = "paths"; status = EvalStatus.pass; detail = ""; blocker = true };
  prepare_planning = λ t. ok none;
  prompt_user = λ t. ok false;
  write = λ t. ok tt;
  save = λ t. ok tt;
}

run-Contained_example : contained (run orchestrator answers task 2).1.trail ≡ true
run-Contained_example = run-Contained orchestrator answers task 2 (λ t. refl)

-- The runtime whose quiescence fails, and whose failure the database does not take.
abbrev unrecorded : Answers
unrecorded = record answers { quiesce = λ t. err (runtime_error "lost"); save = after_quiesce }
  where
    after_quiesce : Trail → Result (Unit {0})
    after_quiesce ((Step.quiesce, false) ∷ trail) = err (os_error "locked")
    after_quiesce _ = ok tt

-- Without the condition on that write, the workspace of a live run is removed.
run_unrecorded : contained (run orchestrator unrecorded task 2).1.trail ≡ false
unfolding contained alive run execute attempt profile_and_route check_budget check_approval prepare
    preflight dispatch decision execute_single run_reserved decline runtime_identity authorize
    submit mark_submitted stream_stage await_result watch abort_stream evaluation refuse_mutation
    deliver_stage evaluation_passed evaluation_failed outcome_stage runtime_terminal_outcome
    rollback cleanup integrate cancel_and_confirm_terminal ◌>>=◌ ◌>>◌ try_except when branch ask
    on_record on_budget create transition transitions is_allowed mark_routed mark_running
    mark_failed mark_retry route_task delegation_signals estimate_input_tokens text_length
    authorize_submission check_retries reserve_calls can_submit_calls commit_reserved_call
    release_reserved_call check_calls requires_approval
run_unrecorded = refl

run-IsLast_example : (run orchestrator answers task 2).0 ≢ ok again
run-IsLast_example = run-IsLast orchestrator answers task 2 (omega arith)

abbrev summary : Summary
summary = record {
  task_id = "t1";
  run_id = some "r";
  outcome = RunOutcome.completed;
  route = some "single";
  retry_count = 1;
  detail = "";
  eval_result =
      some (record { task_id = "t1"; run_id = some "r"; overall = EvalStatus.pass; checks = [] });
  usage = some (record {
    input_tokens = some 1;
    output_tokens = some 2;
    cached_tokens = none;
    total_tokens = none;
  });
  files_changed = some ("src/parse" ∷ []);
  verification_status = some EvalStatus.pass;
}

run_retries : (run orchestrator answers task 2).0 ≡ ok (finished summary)
unfolding run execute attempt profile_and_route check_budget check_approval prepare preflight
    dispatch decision execute_single run_reserved decline runtime_identity authorize submit
    mark_submitted stream_stage await_result watch abort_stream evaluation refuse_mutation
    deliver_stage evaluation_passed evaluation_failed outcome_stage runtime_terminal_outcome
    rollback cleanup integrate cancel_and_confirm_terminal ◌>>=◌ ◌>>◌ try_except when branch ask
    on_record on_budget create transition transitions is_allowed mark_routed mark_running
    mark_failed mark_retry route_task delegation_signals estimate_input_tokens text_length
    authorize_submission check_retries reserve_calls can_submit_calls commit_reserved_call
    release_reserved_call check_calls requires_approval
run_retries = refl

run-Reported_example : Reported summary (run orchestrator answers task 2).1
run-Reported_example = run-Reported orchestrator answers task 2 summary run_retries
