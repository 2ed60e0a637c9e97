-- ===== src/Engine/Stream.antt =====
-- The event stream of `Orchestrator._execute_single` (orchestrator/engine.py, "7. Stream events"): the
-- body of its `try` up to the usage, and the handler.
use adaptive_agent_orchestra.Base.{
  Bool, true, not, Option, none, some, List, [], ◌∷◌, String, str_eq, Error, runtime_error,
  if◌then◌else◌,
}
use adaptive_agent_orchestra.Delegation.{Usage, AgentResult}
use adaptive_agent_orchestra.Engine.Action.{
  Step, Action, pure, raise, ◌>>=◌, ◌>>◌, try_except, when, branch, ask, set_confirmed,
}
use adaptive_agent_orchestra.Engine.Outside.{
  EventType, Answers, is_terminal, rollback, cancel_and_confirm_terminal,
}
use adaptive_agent_orchestra.Engine.Summary.{
  RunOutcome, no_extra, Flow, go, continue_flow, runtime_terminal_outcome,
}
use adaptive_agent_orchestra.Engine.Submission.{write, fail_with}

abbrev pub or_text : Option String → String → String
or_text none text = text
or_text (some detail) text = if str_eq detail "" then text else detail

module _ (answers : Answers) where
  -- What follows on a terminal status whose run has become quiet.
  abbrev pub after_quiet : AgentResult → Option RunOutcome → Action (Flow (AgentResult × Usage))
  after_quiet result (some RunOutcome.completed) =
      ask Step.read_usage answers.read_usage >>= (λ usage. pure (go (result, usage)))
  after_quiet result none = do
    rollback answers
    fail_with answers (or_text result.error "runtime ended") RunOutcome.failed
        (or_text result.error "runtime ended") no_extra
  after_quiet result (some outcome) = do
    rollback answers
    fail_with answers (or_text result.error "runtime ended") outcome
        (or_text result.error "runtime ended") no_extra

  -- `agent_result = await runtime.wait(handle)` and what follows it in the `try`.
  abbrev pub await_quiet : Action (Flow Bool)
  await_quiet = try_except (ask Step.quiesce answers.quiesce >> pure (go true)) (λ e.
      fail_with answers "runtime quiescence failed" RunOutcome.failed "runtime quiescence failed"
        no_extra)

  unfoldable pub await_result : Action (Flow (AgentResult × Usage))
  unfolding runtime_terminal_outcome
  await_result = do
    result ← ask Step.wait answers.wait
    set_confirmed (is_terminal result.status)
    when (not (is_terminal result.status))
        (raise (runtime_error "runtime wait returned non-terminal status"))
    quiet ← await_quiet
    continue_flow (λ _. after_quiet result (runtime_terminal_outcome result.status)) quiet

  -- `async for event in runtime.events(handle)`.
  unfoldable pub watch :
      {A : Type 0} → List EventType → Option Error → Action (Flow A) → Action (Flow A)
  watch [] none next = next
  watch [] (some e) next = raise e
  watch (EventType.approval_request ∷ events) end next = do
    write answers
    cancel_and_confirm_terminal answers
    set_confirmed true
    rollback answers
    fail_with answers "runtime approval request cannot be resumed" RunOutcome.failed
        "runtime approval request failed closed" no_extra
  watch (EventType.completed ∷ events) end next = write answers >> next
  watch (EventType.error ∷ events) end next = write answers >> next
  watch (event ∷ events) end next = write answers >> watch events end next

  -- The handler of the stream's `try`.
  unfoldable pub abort_stream : {A : Type 0} → Error → Action A
  abort_stream e s =
      branch s.terminal_confirmed (rollback answers >> raise e)
        (do
          try_except (do cancel_and_confirm_terminal answers; set_confirmed true)
              (λ problem. raise (runtime_error "runtime quiescence could not be established"))
          rollback answers
          raise e)
        s

  unfoldable pub stream_stage : Action (Flow (AgentResult × Usage))
  stream_stage =
      try_except (ask Step.stream answers.stream >>= (λ seen. watch seen.0 seen.1 await_result))
        abort_stream
