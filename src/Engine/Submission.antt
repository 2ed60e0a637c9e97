-- ===== src/Engine/Submission.antt =====
-- `Orchestrator._execute_single` of orchestrator/engine.py up to the submission: the runtime, the
-- workspace, the authorisation, the reservation and the call of the runtime. A detail keeps the fixed
-- part of its text.
use adaptive_agent_orchestra.Base.{
  ℕ, Bool, true, false, not, Option, none, some, List, [], ◌∷◌, contains, String, str_eq, Result,
  ok, err, key_error, runtime_error, if◌then◌else◌,
}
use adaptive_agent_orchestra.Contracts.Runtime.{HealthStatus}
use adaptive_agent_orchestra.Budget.{
  BudgetState, BudgetViolation, reserve_calls, commit_reserved_call, release_reserved_call,
}
use adaptive_agent_orchestra.Budget.Policy.{PolicyDecision, authorize_submission}
use adaptive_agent_orchestra.State.{
  TaskStatus, transition, mark_running, mark_failed, mark_retry, mark_routed,
}
use adaptive_agent_orchestra.State
use adaptive_agent_orchestra.Engine.Action.{
  Step, Session, Action, pure, raise, from_result, ◌>>=◌, ◌>>◌, try_except, when, branch, ask,
  on_record, on_budget,
}
use adaptive_agent_orchestra.Engine.Outside.{
  Planned, Answers, rollback, cancel_and_confirm_terminal,
}
use adaptive_agent_orchestra.Engine.Summary.{
  RunOutcome, Extra, no_extra, Flow, finish, Orchestrator, first_of,
}

abbrev pub same_name : Option String → Option String → Bool
same_name none none = true
same_name (some a) (some b) = str_eq a b
same_name _ _ = false

abbrev pub planned_runtime : Option Planned → Option String
planned_runtime none = none
planned_runtime (some p) = p.executor

abbrev pub mismatch : Option Planned → Bool
mismatch none = false
mismatch (some p) = not (same_name p.selected_runtime p.executor)

abbrev pub health_of : String → List (String × HealthStatus) → Result HealthStatus
health_of name [] = err (key_error name)
health_of name (entry ∷ rest) = if str_eq name entry.0 then ok entry.1 else health_of name rest

abbrev pub is_available : HealthStatus → Bool
is_available HealthStatus.available = true
is_available _ = false

abbrev pub mark_evaluating : State.TaskRecord → State.Outcome
mark_evaluating r = transition r TaskStatus.evaluating State.no_extra

abbrev pub mark_completed : State.TaskRecord → State.Outcome
mark_completed r = transition r TaskStatus.completed State.no_extra

abbrev pub mark_abandoned : State.TaskRecord → State.Outcome
mark_abandoned r = transition r TaskStatus.abandoned State.no_extra

-- `await record.mark_failed(reason)`, then `return summary("failed", detail, …)`.
abbrev pub fail_with :
    {A : Type 0} → Answers → String → RunOutcome → String → Extra → Action (Flow A)
fail_with answers reason outcome detail extra =
    on_record answers.save (λ r. mark_failed r reason) >> finish outcome detail extra

abbrev pub abandon_with : {A : Type 0} → Answers → String → Action (Flow A)
abandon_with answers detail =
    on_record answers.save mark_abandoned >> finish RunOutcome.abandoned detail no_extra

-- `budget.reserve_calls(1)`.
abbrev pub reserved :
    Session
    → Result (BudgetState × Option BudgetViolation)
    → Result (Option BudgetViolation) × Session
reserved s (err e) = (err e, s)
reserved s (ok (b, violation)) = (ok violation, record s { budget = b })

abbrev pub reserve : Action (Option BudgetViolation)
reserve s = reserved s (reserve_calls s.budget 1)

-- `await self._tel.record(…)`, or another write of evidence.
abbrev pub write : Answers → Action (Unit {0})
write answers = ask Step.write answers.write

unfoldable pub mark_submitted : Answers → String → Action (Unit {0})
mark_submitted answers run_id =
    try_except
      (do
        on_budget commit_reserved_call
        on_record answers.save (λ r. mark_running r run_id)
        write answers)
      (λ e. cancel_and_confirm_terminal answers >> (rollback answers >> raise e))

module _ (o : Orchestrator) where
  abbrev pub executor_or_first : Option String → Action String
  executor_or_first (some executor) =
      branch (str_eq executor "") (from_result (first_of o.runtime_priority)) (pure executor)
  executor_or_first none = from_result (first_of o.runtime_priority)

  -- The runtime that is to run the task: planned, or else the first of the order.
  unfoldable pub runtime_identity : Option Planned → Action String
  runtime_identity planned = do
    when (mismatch planned)
        (raise (runtime_error "RuntimePlan executor must match runtime selection"))
    identity ← executor_or_first (planned_runtime planned)
    when (not (contains identity o.identities)) (raise (key_error identity))
    pure identity

  -- The two calls of `authorize_submission`, the second with the user's answer.
  abbrev pub authorized : ℕ → Option Bool → PolicyDecision
  authorized calls_used approval = authorize_submission o.policy calls_used [] approval

  -- The checks of a required plan before the submission.
  abbrev pub check_executable : Option String → Action (Unit {0})
  check_executable none =
      raise (runtime_error "runtime submission requires an executable RuntimePlan")
  check_executable (some executor) = do
    status ← from_result (health_of executor o.health)
    when (not (is_available status))
        (raise (runtime_error "runtime submission requires available observed runtime health"))

  unfoldable pub authorize : Answers → Action PolicyDecision
  authorize answers s =
      branch (authorized s.budget.calls_used none).allowed
        (pure (authorized s.budget.calls_used none))
        (ask Step.prompt_user answers.prompt_user
          >>= (λ approved s'. (ok (authorized s'.budget.calls_used (some approved)), s')))
        s

  unfoldable pub submit : Answers → Option Planned → Bool → Action String
  submit answers planned write_task =
      try_except
        (do
          when (not write_task)
              (ask Step.capture answers.capture >> ask Step.capture answers.capture)
          when o.planning_required (check_executable (planned_runtime planned))
          ask Step.submit answers.submit)
        (λ e. on_budget release_reserved_call >> (rollback answers >> raise e))
