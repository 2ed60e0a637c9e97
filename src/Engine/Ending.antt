-- ===== src/Engine/Ending.antt =====
-- The evaluation and the outcome of `Orchestrator._execute_single` (orchestrator/engine.py, "9. Eval
-- gate" and "10. Outcome"). Where the source calls `_execute` again, the flow goes on.
use adaptive_agent_orchestra.Base.{
  ◌+◌, Bool, true, false, ◌&&◌, Option, none, some, List, is_empty, String, Error, value_error,
  key_error, runtime_error, illegal_transition_error, index_error, os_error, timeout_error, ok,
}
use adaptive_agent_orchestra.Budget.{BudgetViolation, check_retries}
use adaptive_agent_orchestra.Delegation.{Usage}
use adaptive_agent_orchestra.Evals.{EvalStatus, EvalResult, is_fail, is_pass}
use adaptive_agent_orchestra.State.{mark_failed, mark_retry, mark_routed}
use adaptive_agent_orchestra.Engine.Action.{
  Step, Action, pure, raise, ◌>>=◌, ◌>>◌, try_except, when, branch, ask, on_record, on_budget,
}
use adaptive_agent_orchestra.Engine.Outside.{Answers, rollback, cleanup, integrate}
use adaptive_agent_orchestra.Engine.Summary.{
  RunOutcome, Extra, no_extra, Flow, go, finish, continue_flow,
}
use adaptive_agent_orchestra.Engine.Submission.{write, fail_with, mark_evaluating, mark_completed}

abbrev pub is_observed : {A : Type 0} → Option A → Bool
is_observed none = false
is_observed (some value) = true

abbrev pub only_eval : EvalResult → Extra
only_eval result = record no_extra { eval_result = some result }

abbrev pub error_text : Error → String
error_text (value_error text) = text
error_text (runtime_error text) = text
error_text (key_error text) = text
error_text (illegal_transition_error text) = text
error_text (index_error text) = text
error_text (os_error text) = text
error_text (timeout_error text) = text

module _ (answers : Answers) where
  -- The handler `if not workspace.cleaned: workspace.rollback()`, then `raise`.
  abbrev pub roll_back_and_raise : {A : Type 0} → Error → Action A
  roll_back_and_raise e = rollback answers >> raise e

  unfoldable pub evaluation : Usage → Action EvalResult
  evaluation usage =
      try_except
        (do
          when (is_observed usage.input_tokens && is_observed usage.output_tokens) (write answers)
          on_record answers.save mark_evaluating
          result ← ask Step.evaluate answers.evaluate
          write answers
          write answers
          pure result)
        roll_back_and_raise

  -- The root and the workspace against their baselines.
  abbrev pub changes : Action (List String × List String)
  changes =
      ask Step.scan answers.baseline_changes
      >>= (λ root. ask Step.scan answers.baseline_changes >>= (λ workspace. pure (root, workspace)))

  abbrev pub mutation_extra : EvalResult → Usage → List String → Extra
  mutation_extra result usage files = record {
    eval_result = some result;
    usage = some usage;
    files_changed = some files;
    verification_status = some EvalStatus.fail;
  }

  unfoldable pub refuse_mutation : EvalResult → Usage → Bool → Action (Flow (Unit {0}))
  refuse_mutation result usage write_task = branch write_task (pure (go tt)) (
      changes >>= (λ seen. branch (is_empty seen.0 && is_empty seen.1) (pure (go tt)) (do
        try_except (cleanup answers) (λ e. pure tt)
        fail_with answers "read_only_mutation" RunOutcome.failed "read-only final baseline mismatch"
            (mutation_extra result usage seen.1))))

  -- The body of the last `try`, with the list of changed files.
  unfoldable pub deliver_stage : Bool → Action (List String)
  deliver_stage write_task = do
    files ← ask Step.scan answers.changed_files
    when (is_fail (answers.check_paths files).status)
        (raise (runtime_error (answers.check_paths files).detail))
    branch write_task (integrate answers) (cleanup answers)
    on_record answers.save mark_completed
    pure files

  -- Its handler.
  abbrev pub undo : Action (Unit {0})
  undo s = branch s.cleaned (ask Step.check_root answers.check_root) (rollback answers) s

  abbrev pub completed_extra : EvalResult → Usage → List String → Extra
  completed_extra result usage files = record {
    eval_result = some result;
    usage = some usage;
    files_changed = some files;
    verification_status = none;
  }

  abbrev pub finish_passed : EvalResult → Usage → Bool → Action (Flow (Unit {0}))
  finish_passed result usage write_task =
      try_except (deliver_stage write_task >>= (λ files. pure (go files))) (λ e.
        undo
        >> fail_with answers "integration_failed" RunOutcome.failed (error_text e)
            (only_eval result))
      >>= continue_flow
          (λ files. finish RunOutcome.completed "" (completed_extra result usage files))

  unfoldable pub evaluation_passed : EvalResult → Usage → Bool → Action (Flow (Unit {0}))
  evaluation_passed result usage write_task = do
    checked ← refuse_mutation result usage write_task
    continue_flow (λ _. finish_passed result usage write_task) checked

  -- `budget.retries_used += 1`.
  abbrev pub use_retry : Action (Unit {0})
  use_retry = on_budget (λ b. ok (record b { retries_used = b.retries_used + 1 }))

  abbrev pub retry_or_fail : String → EvalResult → Option BudgetViolation → Action (Flow (Unit {0}))
  retry_or_fail route result (some violation) =
      fail_with answers "eval_failed_no_retries" RunOutcome.failed
        "eval failed and retries exhausted" (only_eval result)
  retry_or_fail route result none = do
    on_record answers.save (λ r. mark_failed r "eval_failed")
    on_record answers.save mark_retry
    use_retry
    on_record answers.save (λ r. mark_routed r route)
    pure (go tt)

  unfoldable pub evaluation_failed : String → EvalResult → Action (Flow (Unit {0}))
  unfolding check_retries
  evaluation_failed route result = do
    rollback answers
    (λ s. retry_or_fail route result (check_retries s.budget) s)

  unfoldable pub outcome_stage : String → Bool → EvalResult → Usage → Action (Flow (Unit {0}))
  outcome_stage route write_task result usage =
      branch (is_pass result.overall) (evaluation_passed result usage write_task)
        (evaluation_failed route result)
