-- ===== src/Engine/Finished.antt =====
-- Containment and agreement through a whole execution of orchestrator/engine.py.
use adaptive_agent_orchestra.Base.{refl, Bool, Option, some, none, String, Result, ok, err, Error}
use adaptive_agent_orchestra.Budget.{BudgetState, BudgetViolation, reserve_calls}
use adaptive_agent_orchestra.Contracts.Task.{TaskContract}
use adaptive_agent_orchestra.State.{TaskStatus, TaskRecord, call, run_as, mark_running}
use adaptive_agent_orchestra.State.Paths.{Moves, call-Moves}
use adaptive_agent_orchestra.Engine.Action.{Session, raise, when, from_result}
use adaptive_agent_orchestra.Engine.Outside.{Planned, Answers}
use adaptive_agent_orchestra.Engine.Summary.{no_extra, Orchestrator}
use adaptive_agent_orchestra.Engine.Submission.{
  runtime_identity, authorize, reserved, reserve, executor_or_first, check_executable, submit,
  mark_submitted,
}
use adaptive_agent_orchestra.Engine.Rules.{
  After, after, After-imp, >>=-After, >>-After, try_except-After, when-After, ask-After,
  branch-After, on_record-After, on_budget-After,
}
use adaptive_agent_orchestra.Engine.Quiet.{
  alive, contained, Contained, Quiet, rollback-After, cancel_and_confirm_terminal-After,
}
use adaptive_agent_orchestra.Engine.Reports.{
  Settled, fail_with-After, abandon_with-After, continue_flow-After,
}
use adaptive_agent_orchestra.Engine.Streamed.{
  ContainedIf, if_recorded, Streaming, Running, stream_stage-After,
}
use adaptive_agent_orchestra.Engine.Ended.{evaluation-After, outcome_stage-After}
use adaptive_agent_orchestra.Engine.Execution.{run_reserved, decline, run_unless, execute_single}

mark_running-Moves :
    (r : TaskRecord) (run_id : String)
    → Moves r.status r.writes TaskStatus.running (mark_running r run_id)
unfolding call
mark_running-Moves r run_id = call-Moves (run_as run_id) r

pub from_result-After :
    {A : Type 0} (r : Result A) (s : Session) → Quiet s → After (λ _. Quiet) Quiet (from_result r s)
from_result-After (ok value) s quiet = after quiet
from_result-After (err e) s quiet = after quiet

module _ (o : Orchestrator) (answers : Answers) (task : TaskContract) where
  -- A test that raises.
  guard-After :
      (test : Bool) (e : Error) (s : Session)
      → Quiet s
      → After (λ _. Quiet) Quiet (when test (raise e) s)
  guard-After test e s quiet = when-After _ _ _ (λ _. after quiet) (λ _. quiet)

  check_executable-After :
      (executor : Option String) (s : Session)
      → Quiet s
      → After (λ _. Quiet) Quiet (check_executable o executor s)
  check_executable-After none s quiet = after quiet
  check_executable-After (some executor) s quiet =
      >>=-After _ _ _ (from_result-After _ s quiet) (λ status s1 q1. guard-After _ _ s1 q1)

  executor_or_first-After :
      (executor : Option String) (s : Session)
      → Quiet s
      → After (λ _. Quiet) Quiet (executor_or_first o executor s)
  executor_or_first-After none s quiet = from_result-After _ s quiet
  executor_or_first-After (some executor) s quiet =
      branch-After _ _ _ _ (λ _. from_result-After _ s quiet) (λ _. after quiet)

  runtime_identity-After :
      (planned : Option Planned) (s : Session)
      → Quiet s
      → After (λ _. Quiet) Quiet (runtime_identity o planned s)
  unfolding runtime_identity
  runtime_identity-After planned s quiet = >>-After _ _ _ (guard-After _ _ s quiet) (λ s1 q1.
      >>=-After _ _ _ (executor_or_first-After _ s1 q1)
        (λ identity s2 q2. >>-After _ _ _ (guard-After _ _ s2 q2) (λ s3 q3. after q3)))

  authorize-After : (s : Session) → Quiet s → After (λ _. Quiet) Contained (authorize o answers s)
  unfolding authorize contained alive
  authorize-After s (c, q) =
      branch-After _ _ _ _ (λ _. after (c, q))
        (λ _.
          >>=-After {Q = λ _. Quiet} _ _ _ (ask-After _ _ _ (λ _. (c, q)) c)
            (λ approved s1 q1. after q1))

  reserve-After : (s : Session) → Quiet s → After (λ _. Quiet) Contained (reserve s)
  reserve-After s (c, q) = by_result (reserve_calls s.budget 1)
    where
      by_result :
          (r : Result (BudgetState × Option BudgetViolation))
          → After (λ _. Quiet) Contained (reserved s r)
      by_result (ok (b, violation)) = after (c, q)
      by_result (err e) = after c

  -- The run that is submitted may be alive.
  submit-After :
      (planned : Option Planned) (writing : Bool) (s : Session)
      → Quiet s
      → After (λ _. Contained) Contained (submit o answers planned writing s)
  unfolding submit contained alive
  submit-After planned writing s quiet =
      try_except-After {F = Quiet} _ _ _
        (>>-After {Q = Quiet} _ _ _
          (when-After _ _ _
            (λ _.
              >>-After {Q = Quiet} _ _ _ (ask-After _ _ _ (λ _. quiet) quiet)
                (λ s1 q1. ask-After _ _ _ (λ _. q1) q1))
            (λ _. quiet))
          (λ s1 q1.
            >>-After {Q = Quiet} _ _ _
              (when-After _ _ _ (λ _. check_executable-After _ s1 q1) (λ _. q1))
              (λ s2 q2. ask-After _ _ _ (λ _. q2.0) q2)))
        (λ e s1 (c1, q1).
          >>-After {E = Contained} {Q = Quiet} _ _ _ (on_budget-After _ _ (λ b _. (c1, q1)) c1)
            (λ s2 q2.
              >>-After {E = Contained} {Q = Quiet} _ _ _
                (After-imp _ (rollback-After answers s2 q2) (λ _ s3 k. k) (λ s3 (c, _). c))
                (λ s3 (c3, _). after c3)))

  mark_submitted-After :
      (run_id : String) (s : Session)
      → Contained s
      → After (λ _. Running) Contained (mark_submitted answers run_id s)
  unfolding mark_submitted contained alive
  mark_submitted-After run_id s c =
      try_except-After {F = Contained} _ _ _
        (>>-After {Q = Contained} _ _ _ (on_budget-After _ _ (λ b _. c) c) (λ s1 c1.
          >>-After {Q = Running} _ _ _
            (on_record-After _ _ _ (mark_running-Moves _ run_id) (λ r now. (c1, now))
              (λ r refused. c1) (λ r _ _. c1))
            (λ s2 (c2, running). ask-After _ _ _ (λ _. (c2, running)) c2)))
        (λ e s1 c1.
          >>-After {E = Contained} {Q = Quiet} _ _ _
            (After-imp _ (cancel_and_confirm_terminal-After answers s1 c1) (λ _ s2 k. k)
              (λ s2 (c2, _). c2))
            (λ s2 q2.
              >>-After {E = Contained} {Q = Quiet} _ _ _
                (After-imp _ (rollback-After answers s2 q2) (λ _ s3 k. k) (λ s3 (c3, _). c3))
                (λ s3 (c3, _). after c3)))

  run_reserved-After :
      (planned : Option Planned) (route : String) (s : Session)
      → Quiet s
      → After (Settled Quiet) (ContainedIf answers) (run_reserved o answers task planned route s)
  unfolding run_reserved
  run_reserved-After planned route s quiet =
      >>=-After {Q = λ _. Contained} _ _ _ (if_recorded answers _ (submit-After planned _ s quiet))
        (λ run_id s1 c1.
          >>-After {Q = Running} _ _ _ (if_recorded answers _ (mark_submitted-After run_id s1 c1))
            (λ s2 running. >>-After {Q = Streaming} _ _ _ (after (running, refl)) (λ s3 streaming.
              >>=-After _ _ _ (stream_stage-After answers s3 streaming) (λ flow s4 settled.
                continue_flow-After Quiet _ flow s4 settled (λ seen q4.
                  >>=-After {Q = λ _. Quiet} _ _ _
                    (if_recorded answers _ (evaluation-After answers seen.1 s4 q4))
                    (λ result s5 q5.
                      if_recorded answers _
                        (outcome_stage-After answers route _ result seen.1 s5 q5)))))))

  decline-After :
      (reason : String) (s : Session)
      → Quiet s
      → After (Settled Quiet) Contained (decline answers reason s)
  unfolding decline contained alive
  decline-After reason s quiet =
      >>-After {E = Contained} {Q = Quiet} _ _ _
        (After-imp _ (rollback-After answers s quiet) (λ _ s1 k. k) (λ s1 (c, _). c))
        (λ s1 (c, _). abandon_with-After answers reason s1 c (λ r. c) (λ r. c))

  run_unless-After :
      (planned : Option Planned) (route : String) (violation : Option BudgetViolation) (s : Session)
      → Quiet s
      → After
          (Settled Quiet)
          (ContainedIf answers)
          (run_unless o answers task planned route violation s)
  run_unless-After planned route (some violation) s quiet =
      if_recorded answers _ (decline-After _ s quiet)
  run_unless-After planned route none s quiet = run_reserved-After planned route s quiet

  pub execute_single-After :
      (planned : Option Planned) (route : String) (s : Session)
      → Quiet s
      → After (Settled Quiet) (ContainedIf answers) (execute_single o answers task planned route s)
  unfolding execute_single contained alive
  execute_single-After planned route s quiet =
      >>=-After {Q = λ _. Quiet} _ _ _
        (After-imp _ (runtime_identity-After planned s quiet) (λ _ s1 k. k) (λ s1 (c, _) _. c))
        (λ identity s1 (c1, q1).
          branch-After _ _ _ _
            (λ _.
              fail_with-After answers _ _ _ no_extra _ c1 refl refl (λ r _ _. c1) (λ r _ _ _. c1))
            (λ _.
              >>=-After {Q = λ _. Quiet} _ _ _ (ask-After _ _ _ (λ _. (c1, q1)) (λ _. c1))
                (λ base_sha s2 q2. >>-After {Q = Quiet} _ _ _ (after q2) (λ s3 q3.
                  >>=-After {Q = λ _. Quiet} _ _ _ (if_recorded answers _ (authorize-After s3 q3))
                    (λ decision s4 q4.
                      branch-After _ _ _ _ (λ _. if_recorded answers _ (decline-After _ s4 q4))
                        (λ _.
                          >>=-After {Q = λ _. Quiet} _ _ _
                            (if_recorded answers _ (reserve-After s4 q4))
                            (λ violation s5 q5.
                              run_unless-After planned route violation s5 q5)))))))
