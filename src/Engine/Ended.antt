-- ===== src/Engine/Ended.antt =====
-- Containment and agreement through the evaluation and the outcome of orchestrator/engine.py.
use adaptive_agent_orchestra.Base.{◌≡◌, refl, Bool, true, inr, Option, some, none, String}
use adaptive_agent_orchestra.Budget.{BudgetViolation}
use adaptive_agent_orchestra.Delegation.{Usage}
use adaptive_agent_orchestra.Evals.{EvalStatus, EvalResult, is_pass}
use adaptive_agent_orchestra.State.{
  TaskStatus, TaskRecord, call, evaluate, complete, retry, route_to, mark_retry, mark_routed,
}
use adaptive_agent_orchestra.State.Paths.{Moves, call-Moves}
use adaptive_agent_orchestra.Engine.Action.{Session}
use adaptive_agent_orchestra.Engine.Outside.{Answers}
use adaptive_agent_orchestra.Engine.Submission.{write, mark_evaluating, mark_completed}
use adaptive_agent_orchestra.Engine.Ending.{
  only_eval, evaluation, changes, mutation_extra, refuse_mutation, deliver_stage, undo,
  finish_passed, evaluation_passed, retry_or_fail, evaluation_failed, outcome_stage,
}
use adaptive_agent_orchestra.Engine.Rules.{
  After, after, After-imp, >>=-After, >>-After, try_except-After, when-After, ask-After,
  branch-After, on_record-After, on_budget-After,
}
use adaptive_agent_orchestra.Engine.Quiet.{
  alive, contained, Contained, Quiet, rollback-After, cleanup-After, integrate-After,
}
use adaptive_agent_orchestra.Engine.Reports.{
  Settled, mark_failed-Moves, fail_with-After, continue_flow-After,
}

mark_evaluating-Moves :
    (r : TaskRecord) → Moves r.status r.writes TaskStatus.evaluating (mark_evaluating r)
unfolding call
mark_evaluating-Moves r = call-Moves evaluate r

mark_completed-Moves :
    (r : TaskRecord) → Moves r.status r.writes TaskStatus.completed (mark_completed r)
unfolding call
mark_completed-Moves r = call-Moves complete r

mark_retry-Moves : (r : TaskRecord) → Moves r.status r.writes TaskStatus.retrying (mark_retry r)
unfolding call
mark_retry-Moves r = call-Moves retry r

pub mark_routed-Moves :
    (r : TaskRecord) (route : String)
    → Moves r.status r.writes TaskStatus.routed (mark_routed r route)
unfolding call
mark_routed-Moves r route = call-Moves (route_to route) r

module _ (answers : Answers) where
  -- Each step keeps the run quiet, whether it returns or raises.
  pub write-After : (s : Session) → Quiet s → After (λ _. Quiet) Quiet (write answers s)
  unfolding contained alive
  write-After s (c, q) = ask-After _ _ _ (λ _. (c, q)) (c, q)

  pub evaluation-After :
      (usage : Usage) (s : Session)
      → Quiet s
      → After (λ _. Quiet) Contained (evaluation answers usage s)
  unfolding evaluation contained alive
  evaluation-After usage s quiet =
      try_except-After {F = Quiet} _ _ _
        (>>-After {Q = Quiet} _ _ _ (when-After _ _ _ (λ _. write-After s quiet) (λ _. quiet))
          (λ s1 q1.
            >>-After {Q = Quiet} _ _ _
              (on_record-After _ _ _ (mark_evaluating-Moves _) (λ r now. q1) (λ r refused. q1)
                (λ r _ _. q1))
              (λ s2 q2.
                >>=-After {Q = λ _. Quiet} _ _ _ (ask-After _ _ _ (λ _. q2) q2) (λ result s3 q3.
                  >>-After {Q = Quiet} _ _ _ (write-After s3 q3) (λ s4 q4.
                    >>-After {Q = Quiet} _ _ _ (write-After s4 q4) (λ s5 q5. after q5))))))
        (λ e s' q.
          >>-After {E = Contained} {Q = Quiet} _ _ _
            (After-imp _ (rollback-After answers s' q) (λ _ s2 k. k) (λ s2 (c, _). c))
            (λ s2 (c, _). after c))

  changes-After : (s : Session) → Quiet s → After (λ _. Quiet) Quiet (changes answers s)
  unfolding contained alive
  changes-After s quiet =
      >>=-After {Q = λ _. Quiet} _ _ _ (ask-After _ _ _ (λ _. quiet) quiet) (λ root s1 q1.
        >>=-After {Q = λ _. Quiet} _ _ _ (ask-After _ _ _ (λ _. q1) q1)
          (λ workspace s2 q2. after q2))

  refuse_mutation-After :
      (result : EvalResult) (usage : Usage) (write_task : Bool) (s : Session)
      → Quiet s
      → After (Settled Quiet) Contained (refuse_mutation answers result usage write_task s)
  unfolding refuse_mutation contained alive
  refuse_mutation-After result usage write_task s quiet =
      branch-After _ _ _ _ (λ _. after quiet)
        (λ _.
          >>=-After {Q = λ _. Quiet} {E = Contained} _ _ _
            (After-imp _ (changes-After s quiet) (λ _ s1 k. k) (λ s1 (c, _). c))
            (λ seen s1 q1.
              branch-After _ _ _ _ (λ _. after q1)
                (λ _.
                  >>-After {Q = Quiet} _ _ _
                    (try_except-After {F = Quiet} _ _ _ (cleanup-After answers s1 q1)
                      (λ e s2 q2. after q2))
                    (λ s2 (c2, _).
                      fail_with-After answers _ _ _ (mutation_extra answers result usage seen.1) _
                        c2 refl refl (λ r _. c2) (λ r _ _. c2)))))

  -- A body that returns has completed the task.
  deliver_stage-After :
      (write_task : Bool) (s : Session)
      → Quiet s
      → After
          (λ _ s'. Quiet s' × (s'.task.status ≡ TaskStatus.completed))
          Quiet
          (deliver_stage answers write_task s)
  unfolding deliver_stage contained alive
  deliver_stage-After write_task s quiet =
      >>=-After {Q = λ _. Quiet} _ _ _ (ask-After _ _ _ (λ _. quiet) quiet) (λ files s1 q1.
        >>-After {Q = Quiet} _ _ _ (when-After _ _ _ (λ _. after q1) (λ _. q1)) (λ s2 q2.
          >>-After {Q = Quiet} _ _ _
            (branch-After _ _ _ _ (λ _. integrate-After answers s2 q2)
              (λ _. cleanup-After answers s2 q2))
            (λ s3 q3.
              >>-After {Q = λ s'. Quiet s' × (s'.task.status ≡ TaskStatus.completed)} _ _ _
                (on_record-After _ _ _ (mark_completed-Moves _) (λ r now. (q3, now))
                  (λ r refused. q3) (λ r _ _. q3))
                (λ s4 h. after h))))

  undo-After : (s : Session) → Quiet s → After (λ _. Quiet) Contained (undo answers s)
  unfolding contained alive
  undo-After s (c, q) =
      branch-After _ _ _ _ (λ _. ask-After _ _ _ (λ _. (c, q)) c)
        (λ _. After-imp _ (rollback-After answers s (c, q)) (λ _ s1 k. k) (λ s1 (c1, _). c1))

  finish_passed-After :
      (result : EvalResult) (usage : Usage) (write_task : Bool) (s : Session)
      → is_pass result.overall ≡ true
      → Quiet s
      → After (Settled Quiet) Contained (finish_passed answers result usage write_task s)
  unfolding contained alive
  finish_passed-After result usage write_task s pass quiet =
      let Completed : Session → Type 0 = λ s'. Quiet s' × (s'.task.status ≡ TaskStatus.completed) in
      >>=-After {Q = Settled Completed} _ _ _
        (try_except-After {F = Quiet} _ _ _
          (>>=-After {Q = λ _. Completed} _ _ _ (deliver_stage-After write_task s quiet)
            (λ files s1 h. after h))
          (λ e s1 q1. >>-After {Q = Quiet} _ _ _ (undo-After s1 q1) (λ s2 (c2, _).
            fail_with-After answers _ _ _ (only_eval result) _ c2 refl refl (λ r _. c2)
              (λ r _ _. c2))))
        (λ flow s1 settled.
          continue_flow-After Completed _ flow s1 settled
            (λ files ((c, q), now). after (c, now, inr (passes result.overall pass, q))))
    where
      passes : (status : EvalStatus) → is_pass status ≡ true → some status ≡ some EvalStatus.pass
      passes EvalStatus.pass h = refl
      passes EvalStatus.fail h = cc
      passes EvalStatus.skip h = cc

  evaluation_passed-After :
      (result : EvalResult) (usage : Usage) (write_task : Bool) (s : Session)
      → is_pass result.overall ≡ true
      → Quiet s
      → After (Settled Quiet) Contained (evaluation_passed answers result usage write_task s)
  unfolding evaluation_passed
  evaluation_passed-After result usage write_task s pass quiet =
      >>=-After _ _ _ (refuse_mutation-After result usage write_task s quiet) (λ flow s1 settled.
        continue_flow-After Quiet _ flow s1 settled
          (λ _ q1. finish_passed-After result usage write_task s1 pass q1))

  retry_or_fail-After :
      (route : String) (result : EvalResult) (violation : Option BudgetViolation) (s : Session)
      → Quiet s
      → After (Settled Quiet) Contained (retry_or_fail answers route result violation s)
  unfolding contained alive
  retry_or_fail-After route result (some violation) s (c, q) =
      fail_with-After answers _ _ _ (only_eval result) _ c refl refl (λ r _. c) (λ r _ _. c)
  retry_or_fail-After route result none s (c, q) =
      >>-After {Q = Quiet} _ _ _
        (on_record-After _ _ _ (mark_failed-Moves _ _) (λ r _. (c, q)) (λ r _. c) (λ r _ _. c))
        (λ s1 (c1, q1).
          >>-After {Q = Quiet} _ _ _
            (on_record-After _ _ _ (mark_retry-Moves _) (λ r _. (c1, q1)) (λ r _. c1) (λ r _ _. c1))
            (λ s2 (c2, q2).
              >>-After {Q = Quiet} _ _ _ (on_budget-After _ _ (λ b _. (c2, q2)) c2) (λ s3 (c3, q3).
                >>-After {Q = Quiet} _ _ _
                  (on_record-After _ _ _ (mark_routed-Moves _ route) (λ r _. (c3, q3)) (λ r _. c3)
                    (λ r _ _. c3))
                  (λ s4 q4. after q4))))

  pub outcome_stage-After :
      (route : String) (write_task : Bool) (result : EvalResult) (usage : Usage) (s : Session)
      → Quiet s
      → After (Settled Quiet) Contained (outcome_stage answers route write_task result usage s)
  unfolding outcome_stage evaluation_failed
  outcome_stage-After route write_task result usage s quiet =
      branch-After _ _ _ _ (λ pass. evaluation_passed-After result usage write_task s pass quiet)
        (λ _.
          >>-After {E = Contained} {Q = Quiet} _ _ _
            (After-imp _ (rollback-After answers s quiet) (λ _ s1 k. k) (λ s1 (c, _). c))
            (λ s1 q1. retry_or_fail-After route result _ s1 q1))
