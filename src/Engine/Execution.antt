-- ===== src/Engine/Execution.antt =====
-- `Orchestrator._execute_single`, `_execute` and `run` of orchestrator/engine.py. An execution ends in
-- `delegated` where the source calls `_execute_delegation`.
use adaptive_agent_orchestra.Base.{
  ℕ, zero, suc, Bool, true, false, ◌&&◌, not, ltb, Option, none, some, [], is_empty, String, Result,
}
use adaptive_agent_orchestra.Contracts.Task.{TaskContract}
use adaptive_agent_orchestra.Budget.{
  BudgetViolation, requires_approval, check_calls, ApprovalReason, new_budget,
}
use adaptive_agent_orchestra.Routing.{Route, RoutingDecision, route_task}
use adaptive_agent_orchestra.State.{TaskStatus, create, transition, mark_failed, mark_routed}
use adaptive_agent_orchestra.State
use adaptive_agent_orchestra.Engine.Action.{
  Step, Session, Action, pure, raise, ◌>>=◌, ◌>>◌, try_except, when, branch, from_result, ask,
  on_record, set_cleaned, set_confirmed,
}
use adaptive_agent_orchestra.Engine.Outside.{Planned, Answers, rollback}
use adaptive_agent_orchestra.Engine.Summary.{
  RunOutcome, Summary, no_extra, Flow, done, go, continue_flow, Orchestrator, TaskProfile,
  needs_worktree,
}
use adaptive_agent_orchestra.Engine.Submission.{
  write, fail_with, abandon_with, runtime_identity, authorize, reserve, submit, mark_submitted,
}
use adaptive_agent_orchestra.Engine.Stream.{stream_stage}
use adaptive_agent_orchestra.Engine.Ending.{error_text, evaluation, outcome_stage}

unfoldable pub decline : Answers → String → Action (Flow (Unit {0}))
decline answers reason = rollback answers >> abandon_with answers reason

module _ (o : Orchestrator) (answers : Answers) (task : TaskContract) where
  abbrev pub write_task : Bool
  write_task = needs_worktree o task.task_type

  -- After the reservation.
  unfoldable pub run_reserved : Option Planned → String → Action (Flow (Unit {0}))
  run_reserved planned route = do
    run_id ← submit o answers planned write_task
    mark_submitted answers run_id
    set_confirmed false
    streamed ← stream_stage answers
    continue_flow
        (λ seen.
          evaluation answers seen.1
          >>= (λ result. outcome_stage answers route write_task result seen.1))
        streamed

  abbrev pub run_unless :
      Option Planned → String → Option BudgetViolation → Action (Flow (Unit {0}))
  run_unless planned route (some violation) = decline answers "call budget exceeded"
  run_unless planned route none = run_reserved planned route

  unfoldable pub execute_single : Option Planned → String → Action (Flow (Unit {0}))
  execute_single planned route = do
    identity ← runtime_identity o planned
    branch (not o.has_workspaces)
        (fail_with answers "workspace unavailable for repository task" RunOutcome.failed
          "workspace unavailable for repository task" no_extra)
        (do
          base_sha ← ask Step.create_workspace answers.create_workspace
          set_cleaned false
          decision ← authorize o answers
          branch (not decision.allowed) (decline answers decision.reason)
              (reserve >>= run_unless planned route))

-- How one pass of `_execute` ends: with a summary, in its own call for the retry, or in the call of
-- `_execute_delegation`.
pub data Next : Type 0 where
  finished : Summary → Next
  again delegated : Next

abbrev pub next_of : Flow (Unit {0}) → Next
next_of (done summary) = finished summary
next_of (go _) = again

abbrev pub abandon_over : Answers → Option BudgetViolation → Action (Flow (Unit {0}))
abandon_over answers none = pure (go tt)
abandon_over answers (some violation) = abandon_with answers "call budget exceeded"

-- "3. Budget + approval check".
unfoldable pub check_budget : Answers → Action (Flow (Unit {0}))
check_budget answers s = (from_result (check_calls s.budget) >>= abandon_over answers) s

abbrev pub ask_approval : Answers → Option ApprovalReason → Action (Flow (Unit {0}))
ask_approval answers none = pure (go tt)
ask_approval answers (some reason) =
    ask Step.prompt_user answers.prompt_user
    >>= (λ approved. branch approved (pure (go tt)) (abandon_with answers "declined by user"))

abbrev pub with_plan : Answers → Option Planned → Action (Flow (Option Planned))
with_plan answers none =
    fail_with answers "planning_failed" RunOutcome.failed
      "HMC/AAO planning produced no executable RuntimePlan" no_extra
with_plan answers (some planned) = pure (go (some planned))

abbrev pub next_or : {A : Type 0} → (A → Action Next) → Flow A → Action Next
next_or next (done summary) = pure (finished summary)
next_or next (go value) = next value

abbrev pub repeat : Action Next → Next → Action Next
repeat retried again = retried
repeat retried (finished summary) = pure (finished summary)
repeat retried delegated = pure delegated

abbrev pub is_delegation : Route → Bool
is_delegation Route.delegation = true
is_delegation Route.single = false

abbrev pub route_value : Route → String
route_value Route.single = "single"
route_value Route.delegation = "delegation"

module _ (o : Orchestrator) (answers : Answers) (task : TaskContract) where
  abbrev pub profile : TaskProfile
  profile = o.profile task

  unfoldable pub decision : RoutingDecision
  decision =
      route_task o.context_text o.criterion_json o.router task profile.independent_subtask_count
        profile.has_sequential_dependency profile.affected_module_count

  -- "1. Profile" and "2. Route".
  unfoldable pub profile_and_route : Bool → Action (Unit {0})
  unfolding decision
  profile_and_route is_retry = when (not is_retry) (do
    on_record answers.save (λ r. transition r TaskStatus.profiled State.no_extra)
    write answers
    on_record answers.save (λ r. mark_routed r (route_value decision.route))
    write answers
    write answers)

  unfoldable pub check_approval : Action (Flow (Unit {0}))
  check_approval = ask_approval answers (requires_approval o.approval task [])

  unfoldable pub prepare : Action (Flow (Option Planned))
  prepare = branch (not o.planning_required) (pure (go none)) (
      branch (is_empty task.subtasks)
        (try_except (ask Step.plan answers.prepare_planning >>= (λ planned. pure (go planned)))
            (λ e.
              fail_with answers "planning_failed" RunOutcome.failed "HMC/AAO planning failed"
                no_extra)
          >>= continue_flow (with_plan answers))
        (fail_with answers "planning_failed" RunOutcome.failed
          "planned delegation execution is not available" no_extra))

  -- "4. Pre-flight: subtask count vs budget".
  unfoldable pub preflight : Action (Flow (Unit {0}))
  unfolding decision
  preflight s =
      branch
        (is_delegation decision.route
          && ltb s.budget.config.max_children profile.independent_subtask_count)
        (branch (is_empty task.subtasks) (write answers >> pure (go tt))
          (abandon_with answers "explicit subtasks exceed max_children"))
        (pure (go tt)) s

  abbrev pub run_single : Option Planned → Action Next
  run_single planned =
      execute_single o answers task planned (route_value decision.route)
      >>= (λ flow. pure (next_of flow))

  abbrev pub dispatch_delegation : Option Planned → Action Next
  dispatch_delegation none = pure delegated
  dispatch_delegation (some planned) = branch planned.is_direct (run_single (some planned)) (
      fail_with answers "planning_failed" RunOutcome.failed
        "planned execution mode is not supported by E2E-1B" no_extra
      >>= (λ flow. pure (next_of flow)))

  unfoldable pub dispatch : Option Planned → Action Next
  unfolding decision
  dispatch planned =
      branch (is_delegation decision.route) (dispatch_delegation planned) (run_single planned)

  -- One pass of `_execute`.
  unfoldable pub attempt : Bool → Action Next
  attempt is_retry = do
    profile_and_route is_retry
    check_budget answers
        >>= next_or (λ _.
          check_approval
          >>= next_or
              (λ _. prepare >>= next_or (λ planned. preflight >>= next_or (λ _. dispatch planned))))

  -- `_execute`, whose calls of itself the fuel counts; `again` where there is none left.
  unfoldable pub execute : ℕ → Bool → Action Next
  execute zero is_retry = pure again
  execute (suc fuel) is_retry = attempt is_retry >>= repeat (execute fuel true)

  abbrev pub start : Session
  start = record {
    task = create task.id;
    budget = new_budget task.id o.budget_config;
    cleaned = false;
    terminal_confirmed = false;
    trail = [];
  }

  -- `run`, whose first call is the `create` of the state machine.
  unfoldable pub run : ℕ → Result Next × Session
  run fuel =
      (ask Step.save_record answers.save
          >> try_except (execute fuel false)
              (λ e. on_record answers.save (λ r. mark_failed r (error_text e)) >> raise e))
        start
