-- ===== src/Engine/Guarantees.antt =====
-- What `Orchestrator._execute` and `run` of orchestrator/engine.py guarantee for every configuration
-- and every behaviour of the runtime, of git, of the gate, of the database and of the user, up to a
-- call of `_execute_delegation`.
use adaptive_agent_orchestra.Base.{◌≡◌, true, false, ◌∷◌, ℕ, Result, ok, err, subst}
use adaptive_agent_orchestra.Contracts.Task.{TaskContract}
use adaptive_agent_orchestra.Engine.Action.{Step, Trail, Session}
use adaptive_agent_orchestra.Engine.Outside.{Answers}
use adaptive_agent_orchestra.Engine.Summary.{Summary, Orchestrator}
use adaptive_agent_orchestra.Engine.Rules.{After}
use adaptive_agent_orchestra.Engine.Quiet.{contained}
use adaptive_agent_orchestra.Engine.Streamed.{ContainedIf}
use adaptive_agent_orchestra.Engine.Reports.{Reported}
use adaptive_agent_orchestra.Engine.Passes.{Ending, run-After}
use adaptive_agent_orchestra.Engine.Execution.{Next, finished, again, delegated, run}

summary-Reported :
    {summary : Summary} (other : Summary) (s : Session)
    → other ≡ summary
    → Reported other s
    → Reported summary s
summary-Reported other s same h = subst (λ m. Reported m s) same h

module _ (o : Orchestrator) (answers : Answers) (task : TaskContract) where
  -- Whatever the runtime, git, the gate, the planning, the telemetry, the database and the user answer,
  -- and wherever they raise, up to a call of `_execute_delegation`: no workspace is removed or
  -- delivered between the submission of a run and a quiescence that has returned, if a write of the
  -- task's record that follows at once on a failed quiescence returns.
  pub run-Contained :
      (fuel : ℕ)
      → ((trail : Trail) → answers.save ((Step.quiesce, false) ∷ trail) ≡ ok tt)
      → contained (run o answers task fuel).1.trail ≡ true
  run-Contained fuel recorded = by_result (run o answers task fuel) (run-After o answers task fuel)
    where
      by_result :
          (x : Result Next × Session)
          → After Ending (ContainedIf answers) x
          → contained x.1.trail ≡ true
      by_result (ok (finished summary), s) ending = ending.holds.0
      by_result (ok again, s) ending = ending.holds.0
      by_result (ok delegated, s) ending = ending.holds.0
      by_result (err e, s) c = c.holds recorded

  -- A summary that is returned agrees with the record: its outcome is `completed` or `abandoned` if
  -- the task's status is, and one of the failing outcomes if that is FAILED; and a summary that says
  -- `completed` says that the evaluation has passed, and then no run is alive.
  pub run-Reported :
      (fuel : ℕ) (summary : Summary)
      → (run o answers task fuel).0 ≡ ok (finished summary)
      → Reported summary (run o answers task fuel).1
  run-Reported fuel summary = by_result (run o answers task fuel) (run-After o answers task fuel)
    where
      by_result :
          (x : Result Next × Session)
          → After Ending (ContainedIf answers) x
          → x.0 ≡ ok (finished summary)
          → Reported summary x.1
      by_result (ok (finished other), s) ending same =
          summary-Reported {summary = summary} other s (cc) ending.holds
      by_result (ok again, s) ending same = cc
      by_result (ok delegated, s) ending same = cc
      by_result (err e, s) ending same = cc
