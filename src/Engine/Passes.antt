-- ===== src/Engine/Passes.antt =====
-- Containment and agreement through the passes of `_execute` and through `run` of
-- orchestrator/engine.py.
use adaptive_agent_orchestra.Base.{
  refl, Bool, true, false, ℕ, zero, suc, Option, some, none, [], String,
}
use adaptive_agent_orchestra.Budget.{
  BudgetViolation, check_calls, ApprovalReason, requires_approval,
}
use adaptive_agent_orchestra.Contracts.Task.{TaskContract}
use adaptive_agent_orchestra.State.{
  TaskStatus, TaskRecord, call, profile as profile_call, transition,
}
use adaptive_agent_orchestra.State
use adaptive_agent_orchestra.State.Paths.{Moves, call-Moves}
use adaptive_agent_orchestra.Engine.Action.{Session, Action}
use adaptive_agent_orchestra.Engine.Outside.{Planned, Answers}
use adaptive_agent_orchestra.Engine.Summary.{RunOutcome, no_extra, Flow, done, go, Orchestrator}
use adaptive_agent_orchestra.Engine.Submission.{fail_with}
use adaptive_agent_orchestra.Engine.Rules.{
  After, after, After-imp, >>=-After, >>-After, try_except-After, when-After, ask-After,
  branch-After, on_record-After,
}
use adaptive_agent_orchestra.Engine.Quiet.{alive, contained, Contained, Quiet}
use adaptive_agent_orchestra.Engine.Reports.{
  Reported, Settled, mark_failed-Moves, fail_with-After, abandon_with-After, continue_flow-After,
}
use adaptive_agent_orchestra.Engine.Ended.{mark_routed-Moves, write-After}
use adaptive_agent_orchestra.Engine.Streamed.{ContainedIf, if_recorded}
use adaptive_agent_orchestra.Engine.Finished.{from_result-After, execute_single-After}
use adaptive_agent_orchestra.Engine.Execution.{
  Next, finished, again, delegated, next_of, profile_and_route, abandon_over, check_budget,
  ask_approval, check_approval, with_plan, prepare, preflight, run_single, dispatch_delegation,
  dispatch, next_or, attempt, repeat, execute, run,
}

-- A pass ends in a summary that agrees with the session, or with no run alive.
abbrev pub Ending : Next → Session → Type 0
Ending (finished summary) s = Reported summary s
Ending again s = Quiet s
Ending delegated s = Quiet s

transition-profiled :
    (r : TaskRecord)
    → Moves r.status r.writes TaskStatus.profiled (transition r TaskStatus.profiled State.no_extra)
unfolding call
transition-profiled r = call-Moves profile_call r

next_or-After :
    {A : Type 0} {E : Session → Type 0} (next : A → Action Next) (flow : Flow A) (s : Session)
    → Settled Quiet flow s
    → ((value : A) → Quiet s → After Ending E (next value s))
    → After Ending E (next_or next flow s)
next_or-After next (done summary) s h k = after h
next_or-After next (go value) s h k = k value h

next_of-Ending :
    (flow : Flow (Unit {0})) (s : Session) → Settled Quiet flow s → Ending (next_of flow) s
next_of-Ending (done summary) s h = h
next_of-Ending (go _) s h = h

repeat-After :
    {retried : Action Next} {E : Session → Type 0} (next : Next) (s : Session)
    → Ending next s
    → ((s' : Session) → Quiet s' → After Ending E (retried s'))
    → After Ending E (repeat retried next s)
repeat-After (finished summary) s ending k = after ending
repeat-After again s ending k = k s ending
repeat-After delegated s ending k = after ending

module _ (o : Orchestrator) (answers : Answers) (task : TaskContract) where
  profile_and_route-After :
      (is_retry : Bool) (s : Session)
      → Quiet s
      → After (λ _. Quiet) Quiet (profile_and_route o answers task is_retry s)
  unfolding profile_and_route contained alive
  profile_and_route-After is_retry s quiet =
      when-After _ _ _
        (λ _.
          >>-After {Q = Quiet} _ _ _
            (on_record-After _ _ _ (transition-profiled _) (λ r _. quiet) (λ r _. quiet)
              (λ r _ _. quiet))
            (λ s1 q1. >>-After _ _ _ (write-After answers s1 q1) (λ s2 q2.
              >>-After {Q = Quiet} _ _ _
                (on_record-After _ _ _ (mark_routed-Moves _ _) (λ r _. q2) (λ r _. q2)
                  (λ r _ _. q2))
                (λ s3 q3.
                  >>-After _ _ _ (write-After answers s3 q3)
                    (λ s4 q4. write-After answers s4 q4)))))
        (λ _. quiet)

  check_budget-After :
      (s : Session) → Quiet s → After (Settled Quiet) Contained (check_budget answers s)
  unfolding check_budget contained alive
  check_budget-After s quiet =
      >>=-After {Q = λ _. Quiet} _ _ _
        (After-imp _ (from_result-After (check_calls s.budget) s quiet) (λ _ s1 k. k)
          (λ s1 (c, _). c))
        (λ violation s1 q1. by_violation violation s1 q1)
    where
      by_violation :
          (violation : Option BudgetViolation) (s1 : Session)
          → Quiet s1
          → After (Settled Quiet) Contained (abandon_over answers violation s1)
      by_violation none s1 q1 = after q1
      by_violation (some violation) s1 q1 =
          abandon_with-After answers _ s1 q1.0 (λ r. q1.0) (λ r. q1.0)

  check_approval-After :
      (s : Session) → Quiet s → After (Settled Quiet) Contained (check_approval o answers task s)
  unfolding check_approval contained alive
  check_approval-After s quiet = by_reason (requires_approval o.approval task [])
    where
      by_reason :
          (reason : Option ApprovalReason)
          → After (Settled Quiet) Contained (ask_approval answers reason s)
      by_reason none = after quiet
      by_reason (some reason) =
          >>=-After {Q = λ _. Quiet} _ _ _ (ask-After _ _ _ (λ _. quiet) quiet.0) (λ approved s1 q1.
            branch-After _ _ _ _ (λ _. after q1)
              (λ _. abandon_with-After answers _ s1 q1.0 (λ r. q1.0) (λ r. q1.0)))

  planning_failed :
      {A : Type 0} (detail : String) (s : Session)
      → Quiet s
      → After
          (Settled {A = A} Quiet)
          Contained
          (fail_with answers "planning_failed" RunOutcome.failed detail no_extra s)
  unfolding contained alive
  planning_failed detail s (c, q) =
      fail_with-After answers _ _ _ no_extra _ c refl refl (λ r _. c) (λ r _ _. c)

  prepare-After :
      (s : Session) → Quiet s → After (Settled Quiet) Contained (prepare o answers task s)
  unfolding prepare contained alive
  prepare-After s quiet =
      branch-After _ _ _ _ (λ _. after quiet)
        (λ _.
          branch-After _ _ _ _
            (λ _.
              >>=-After _ _ _
                (try_except-After {F = Quiet} _ _ _
                  (>>=-After {Q = λ _. Quiet} _ _ _ (ask-After _ _ _ (λ _. quiet) quiet)
                    (λ planned s1 q1. after q1))
                  (λ e s1 q1. planning_failed _ s1 q1))
                (λ flow s1 settled.
                  continue_flow-After Quiet _ flow s1 settled
                    (λ planned q1. planned_or_fail planned s1 q1)))
            (λ _. planning_failed _ s quiet))
    where
      planned_or_fail :
          (planned : Option Planned) (s1 : Session)
          → Quiet s1
          → After (Settled Quiet) Contained (with_plan answers planned s1)
      planned_or_fail none s1 q1 = planning_failed _ s1 q1
      planned_or_fail (some planned) s1 q1 = after q1

  preflight-After :
      (s : Session) → Quiet s → After (Settled Quiet) Contained (preflight o answers task s)
  unfolding preflight contained alive
  preflight-After s (c, q) =
      branch-After _ _ _ _
        (λ _.
          branch-After _ _ _ _
            (λ _.
              >>-After {E = Contained} {Q = Quiet} _ _ _
                (After-imp _ (write-After answers s (c, q)) (λ _ s1 k. k) (λ s1 (c1, _). c1))
                (λ s1 q1. after q1))
            (λ _. abandon_with-After answers _ s c (λ r. c) (λ r. c)))
        (λ _. after (c, q))

  run_single-After :
      (planned : Option Planned) (s : Session)
      → Quiet s
      → After Ending (ContainedIf answers) (run_single o answers task planned s)
  run_single-After planned s quiet =
      >>=-After _ _ _ (execute_single-After o answers task planned _ s quiet)
        (λ flow s1 settled. after (next_of-Ending flow s1 settled))

  dispatch-After :
      (planned : Option Planned) (s : Session)
      → Quiet s
      → After Ending (ContainedIf answers) (dispatch o answers task planned s)
  unfolding dispatch
  dispatch-After planned s quiet =
      branch-After _ _ _ _ (λ _. by_plan planned) (λ _. run_single-After planned s quiet)
    where
      by_plan :
          (p : Option Planned)
          → After Ending (ContainedIf answers) (dispatch_delegation o answers task p s)
      by_plan none = after quiet
      by_plan (some p) =
          branch-After _ _ _ _ (λ _. run_single-After (some p) s quiet)
            (λ _.
              >>=-After _ _ _ (if_recorded answers _ (planning_failed _ s quiet))
                (λ flow s1 settled. after (next_of-Ending flow s1 settled)))

  attempt-After :
      (is_retry : Bool) (s : Session)
      → Quiet s
      → After Ending (ContainedIf answers) (attempt o answers task is_retry s)
  unfolding attempt
  attempt-After is_retry s quiet =
      >>-After {E = ContainedIf answers} {Q = Quiet} _ _ _
        (After-imp _ (profile_and_route-After is_retry s quiet) (λ _ s1 k. k) (λ s1 (c, _) _. c))
        (λ s1 q1. >>=-After _ _ _ (if_recorded answers _ (check_budget-After s1 q1)) (λ f1 s2 d2.
          next_or-After _ f1 s2 d2 (λ _ q2.
            >>=-After _ _ _ (if_recorded answers _ (check_approval-After s2 q2)) (λ f2 s3 d3.
              next_or-After _ f2 s3 d3 (λ _ q3.
                >>=-After _ _ _ (if_recorded answers _ (prepare-After s3 q3)) (λ f3 s4 d4.
                  next_or-After _ f3 s4 d4 (λ planned q4.
                    >>=-After _ _ _ (if_recorded answers _ (preflight-After s4 q4)) (λ f4 s5 d5.
                      next_or-After _ f4 s5 d5 (λ _ q5. dispatch-After planned s5 q5)))))))))

  execute-After :
      (fuel : ℕ) (is_retry : Bool) (s : Session)
      → Quiet s
      → After Ending (ContainedIf answers) (execute o answers task fuel is_retry s)
  unfolding execute
  execute-After zero is_retry s quiet = after quiet
  execute-After (suc fuel) is_retry s quiet =
      >>=-After _ _ _ (attempt-After is_retry s quiet)
        (λ next s1 ending. repeat-After next s1 ending (execute-After fuel true))

  pub run-After : (fuel : ℕ) → After Ending (ContainedIf answers) (run o answers task fuel)
  unfolding run contained alive
  run-After fuel =
      >>-After {E = ContainedIf answers} {Q = Quiet} _ _ _
        (ask-After _ _ _ (λ _. (refl, refl)) (λ _. refl))
        (λ s quiet.
          try_except-After {F = ContainedIf answers} _ _ _ (execute-After fuel false s quiet)
            (λ e s1 c1.
              >>-After {Q = ContainedIf answers} _ _ _
                (on_record-After _ _ _ (mark_failed-Moves _ _) (λ r _. c1) (λ r _. c1)
                  (λ r _ _. c1))
                (λ s2 c2. after c2)))
