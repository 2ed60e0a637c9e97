-- ===== src/Engine/Retries.antt =====
-- The retries of orchestrator/engine.py: every pass but one that ends in a retry leaves the budget's
-- limits as they were, and that one uses a retry that the budget has.
use adaptive_agent_orchestra.Base.{
  refl, Bool, Option, some, none, List, [], ◌∷◌, String, Result, Error,
}
use adaptive_agent_orchestra.Delegation.{Usage, AgentResult}
use adaptive_agent_orchestra.Engine.Action.{◌>>◌, Action, from_result}
use adaptive_agent_orchestra.Engine.Outside.{
  EventType, Planned, Answers, rollback, cleanup, integrate, cancel_and_confirm_terminal, remove,
}
use adaptive_agent_orchestra.Engine.Summary.{
  RunOutcome, no_extra, Flow, done, go, continue_flow, Orchestrator,
}
use adaptive_agent_orchestra.Engine.Submission.{
  executor_or_first, runtime_identity, check_executable, authorized, authorize, submit,
  mark_submitted,
}
use adaptive_agent_orchestra.Engine.Stream.{
  after_quiet, await_result, watch, abort_stream, stream_stage,
}
use adaptive_agent_orchestra.Engine.Ending.{evaluation}
use adaptive_agent_orchestra.Engine.Keeps.{
  Keeps, keeps, >>=-Keeps, >>-Keeps, try_except-Keeps, branch-Keeps, when-Keeps, ask-Keeps,
  on_record-Keeps, on_budget-Keeps, fail_with-Keeps, commit-SameLimits, release-SameLimits,
}

-- An action that touches no session.
still : {A : Type 0} {r : Result A} → Keeps (from_result r)
still = keeps (λ s. (refl, refl))

continue_flow-Keeps :
    {A B : Type 0} (next : A → Action (Flow B)) (flow : Flow A)
    → ((value : A) → Keeps (next value))
    → Keeps (continue_flow next flow)
continue_flow-Keeps next (done summary) h = keeps (λ s. (refl, refl))
continue_flow-Keeps next (go value) h = keeps (λ s. (h value).same s)

module _ (answers : Answers) where
  remove-Keeps : Keeps (remove answers)
  remove-Keeps = >>-Keeps _ _ (ask-Keeps _ _) (keeps (λ s. (refl, refl)))

  pub rollback-Keeps : Keeps (rollback answers)
  unfolding rollback
  rollback-Keeps =
      keeps (λ s. (branch-Keeps s.cleaned _ _ (keeps (λ s. (refl, refl))) remove-Keeps).same s)

  cleanup-Keeps : Keeps (cleanup answers)
  unfolding cleanup
  cleanup-Keeps =
      keeps (λ s. (branch-Keeps s.cleaned _ _ (keeps (λ s. (refl, refl))) remove-Keeps).same s)

  -- A rollback and what is still.
  roll_back_and : {A : Type 0} (next : Action A) → Keeps next → Keeps (rollback answers >> next)
  roll_back_and next h = >>-Keeps _ _ rollback-Keeps h

  integrate-Keeps : Keeps (integrate answers)
  unfolding integrate
  integrate-Keeps = keeps (λ s.
      (branch-Keeps s.cleaned _ _ (keeps (λ s. (refl, refl))) (
          try_except-Keeps _ _ (>>-Keeps _ _ (ask-Keeps _ _) cleanup-Keeps) (λ e.
            >>-Keeps _ _
              (try_except-Keeps _ _ rollback-Keeps (λ problem.
                branch-Keeps _ _ _ (keeps (λ s. (refl, refl))) (keeps (λ s. (refl, refl)))))
              (keeps (λ s. (refl, refl)))))).same
        s)

  confirm-Keeps : Keeps (cancel_and_confirm_terminal answers)
  unfolding cancel_and_confirm_terminal
  confirm-Keeps =
      >>-Keeps _ _ (try_except-Keeps _ _ (ask-Keeps _ _) (λ e. keeps (λ s. (refl, refl)))) (
        >>=-Keeps _ _ (try_except-Keeps _ _ (ask-Keeps _ _) (λ e. keeps (λ s. (refl, refl))))
          (λ result.
            branch-Keeps _ _ _
              (try_except-Keeps _ _ (ask-Keeps _ _) (λ e. keeps (λ s. (refl, refl))))
              (keeps (λ s. (refl, refl)))))

  pub mark_submitted-Keeps : (run_id : String) → Keeps (mark_submitted answers run_id)
  unfolding mark_submitted
  mark_submitted-Keeps run_id =
      try_except-Keeps _ _
        (>>-Keeps _ _ (on_budget-Keeps _ commit-SameLimits)
          (>>-Keeps _ _ (on_record-Keeps _ _) (ask-Keeps _ _)))
        (λ e. >>-Keeps _ _ confirm-Keeps (roll_back_and _ (keeps (λ s. (refl, refl)))))

  after_quiet-Keeps :
      (result : AgentResult) (outcome : Option RunOutcome)
      → Keeps (after_quiet answers result outcome)
  after_quiet-Keeps result (some RunOutcome.completed) =
      >>=-Keeps _ _ (ask-Keeps _ _) (λ usage. keeps (λ s. (refl, refl)))
  after_quiet-Keeps result none = roll_back_and _ (fail_with-Keeps answers _ _ _ _ no_extra)
  after_quiet-Keeps result (some outcome) =
      roll_back_and _ (fail_with-Keeps answers _ _ _ _ no_extra)

  await_result-Keeps : Keeps (await_result answers)
  unfolding await_result
  await_result-Keeps = >>=-Keeps _ _ (ask-Keeps _ _) (λ result.
      >>-Keeps _ _ (keeps (λ s. (refl, refl))) (
        >>-Keeps _ _ (when-Keeps _ _ (keeps (λ s. (refl, refl)))) (
          >>=-Keeps _ _
            (try_except-Keeps _ _ (>>-Keeps _ _ (ask-Keeps _ _) (keeps (λ s. (refl, refl))))
              (λ e. fail_with-Keeps answers _ _ _ _ no_extra))
            (λ quiet. continue_flow-Keeps _ quiet (λ _. after_quiet-Keeps result _)))))

  watch-Keeps :
      (events : List EventType) (end : Option Error)
      → Keeps (watch answers events end (await_result answers))
  unfolding watch
  watch-Keeps [] none = await_result-Keeps
  watch-Keeps [] (some e) = keeps (λ s. (refl, refl))
  watch-Keeps (EventType.approval_request ∷ events) end = >>-Keeps _ _ (ask-Keeps _ _) (
      >>-Keeps _ _ confirm-Keeps (
        >>-Keeps _ _ (keeps (λ s. (refl, refl)))
          (roll_back_and _ (fail_with-Keeps answers _ _ _ _ no_extra))))
  watch-Keeps (EventType.completed ∷ events) end = >>-Keeps _ _ (ask-Keeps _ _) await_result-Keeps
  watch-Keeps (EventType.error ∷ events) end = >>-Keeps _ _ (ask-Keeps _ _) await_result-Keeps
  watch-Keeps (event ∷ events) end = >>-Keeps _ _ (ask-Keeps _ _) (watch-Keeps events end)

  pub stream_stage-Keeps : Keeps (stream_stage answers)
  unfolding stream_stage abort_stream
  stream_stage-Keeps =
      try_except-Keeps _ _ (>>=-Keeps _ _ (ask-Keeps _ _) (λ seen. watch-Keeps seen.0 seen.1)) (λ e.
        keeps (λ s.
          (branch-Keeps s.terminal_confirmed _ _ (roll_back_and _ (keeps (λ s. (refl, refl)))) (
              >>-Keeps _ _
                (try_except-Keeps _ _ (>>-Keeps _ _ confirm-Keeps (keeps (λ s. (refl, refl))))
                  (λ problem. keeps (λ s. (refl, refl))))
                (roll_back_and _ (keeps (λ s. (refl, refl)))))).same
            s))

  pub evaluation-Keeps : (usage : Usage) → Keeps (evaluation answers usage)
  unfolding evaluation
  evaluation-Keeps usage =
      try_except-Keeps _ _
        (>>-Keeps _ _ (when-Keeps _ _ (ask-Keeps _ _)) (
          >>-Keeps _ _ (on_record-Keeps _ _) (
            >>=-Keeps _ _ (ask-Keeps _ _) (λ result.
              >>-Keeps _ _ (ask-Keeps _ _)
                (>>-Keeps _ _ (ask-Keeps _ _) (keeps (λ s. (refl, refl))))))))
        (λ e. roll_back_and _ (keeps (λ s. (refl, refl))))

  pub submit-Keeps :
      (o : Orchestrator) (planned : Option Planned) (writing : Bool)
      → Keeps (submit o answers planned writing)
  unfolding submit
  submit-Keeps o planned writing =
      try_except-Keeps _ _
        (>>-Keeps _ _ (when-Keeps _ _ (>>-Keeps _ _ (ask-Keeps _ _) (ask-Keeps _ _)))
          (>>-Keeps _ _ (when-Keeps _ _ (by_executor _)) (ask-Keeps _ _)))
        (λ e.
          >>-Keeps _ _ (on_budget-Keeps _ release-SameLimits)
            (roll_back_and _ (keeps (λ s. (refl, refl)))))
    where
      by_executor : (executor : Option String) → Keeps (check_executable o executor)
      by_executor none = keeps (λ s. (refl, refl))
      by_executor (some executor) =
          >>=-Keeps _ _ still (λ status. when-Keeps _ _ (keeps (λ s. (refl, refl))))

  pub authorize-Keeps : (o : Orchestrator) → Keeps (authorize o answers)
  unfolding authorize
  authorize-Keeps o = keeps (λ s.
      (branch-Keeps (authorized o s.budget.calls_used none).allowed _ _ (keeps (λ s. (refl, refl)))
          (>>=-Keeps _ _ (ask-Keeps _ _) (λ approved. keeps (λ s. (refl, refl))))).same
        s)

pub runtime_identity-Keeps :
    (o : Orchestrator) (planned : Option Planned) → Keeps (runtime_identity o planned)
unfolding runtime_identity
runtime_identity-Keeps o planned = >>-Keeps _ _ (when-Keeps _ _ (keeps (λ s. (refl, refl)))) (
    >>=-Keeps _ _ (by_executor _) (λ identity.
      >>-Keeps _ _ (when-Keeps _ _ (keeps (λ s. (refl, refl)))) (keeps (λ s. (refl, refl)))))
  where
    by_executor : (executor : Option String) → Keeps (executor_or_first o executor)
    by_executor none = still
    by_executor (some executor) = branch-Keeps _ _ _ still (keeps (λ s. (refl, refl)))
