-- ===== src/Engine/Terminates.antt =====
-- That the passes of `_execute` of orchestrator/engine.py come to an end.
use adaptive_agent_orchestra.Base.{
  ◌≢◌, refl, Bool, true, false, ltb, ◌&&◌, ℕ, zero, suc, ◌+◌, ◌<◌, ◌≤◌, Option, some, none, [],
  String, Result, ok, err, arith,
}
use adaptive_agent_orchestra.Budget.{
  BudgetViolation, check_calls, ApprovalReason, requires_approval,
}
use adaptive_agent_orchestra.Contracts.Task.{TaskContract}
use adaptive_agent_orchestra.Engine.Action.{Session, Action, from_result}
use adaptive_agent_orchestra.Engine.Outside.{Planned, Answers}
use adaptive_agent_orchestra.Engine.Summary.{no_extra, Flow, done, go, continue_flow, Orchestrator}
use adaptive_agent_orchestra.Engine.Rules.{After, after, >>=-After, >>-After, try_except-After}
use adaptive_agent_orchestra.Engine.Keeps.{
  Keeps, keeps, >>=-Keeps, >>-Keeps, try_except-Keeps, branch-Keeps, when-Keeps, ask-Keeps,
  on_record-Keeps, fail_with-Keeps,
}
use adaptive_agent_orchestra.Engine.Fuel.{Anything, Held, Again, always, held, dispatch-Again}
use adaptive_agent_orchestra.Engine.Submission.{abandon_with}
use adaptive_agent_orchestra.Engine.Execution.{
  Next, finished, again, delegated, decision, profile, is_delegation, profile_and_route,
  abandon_over, check_budget, ask_approval, check_approval, with_plan, prepare, preflight, next_or,
  attempt, repeat, execute, start, run,
}

abandon_with-Keeps :
    (answers : Answers) (A : Type 0) (detail : String) → Keeps (abandon_with {A = A} answers detail)
abandon_with-Keeps answers A detail = >>-Keeps _ _ (on_record-Keeps _ _) (keeps (λ s. (refl, refl)))

check_budget-Keeps : (answers : Answers) → Keeps (check_budget answers)
unfolding check_budget
check_budget-Keeps answers = keeps (λ s.
    (>>=-Keeps (from_result (check_calls s.budget)) _ (keeps (λ s. (refl, refl))) by_violation).same
      s)
  where
    by_violation : (violation : Option BudgetViolation) → Keeps (abandon_over answers violation)
    by_violation none = keeps (λ s. (refl, refl))
    by_violation (some violation) = abandon_with-Keeps answers _ _

module _ (o : Orchestrator) (answers : Answers) (task : TaskContract) where
  profile_and_route-Keeps : (is_retry : Bool) → Keeps (profile_and_route o answers task is_retry)
  unfolding profile_and_route
  profile_and_route-Keeps is_retry = when-Keeps _ _ (
      >>-Keeps _ _ (on_record-Keeps _ _) (
        >>-Keeps _ _ (ask-Keeps _ _)
          (>>-Keeps _ _ (on_record-Keeps _ _) (>>-Keeps _ _ (ask-Keeps _ _) (ask-Keeps _ _)))))

  check_approval-Keeps : Keeps (check_approval o answers task)
  unfolding check_approval
  check_approval-Keeps = by_reason (requires_approval o.approval task [])
    where
      by_reason : (reason : Option ApprovalReason) → Keeps (ask_approval answers reason)
      by_reason none = keeps (λ s. (refl, refl))
      by_reason (some reason) = >>=-Keeps _ _ (ask-Keeps _ _) (λ approved.
          branch-Keeps _ _ _ (keeps (λ s. (refl, refl))) (abandon_with-Keeps answers _ _))

  prepare-Keeps : Keeps (prepare o answers task)
  unfolding prepare
  prepare-Keeps = branch-Keeps _ _ _ (keeps (λ s. (refl, refl))) (
      branch-Keeps _ _ _
        (>>=-Keeps _ _
          (try_except-Keeps _ _
            (>>=-Keeps _ _ (ask-Keeps _ _) (λ planned. keeps (λ s. (refl, refl))))
            (λ e. fail_with-Keeps answers _ _ _ _ no_extra))
          by_flow)
        (fail_with-Keeps answers _ _ _ _ no_extra))
    where
      by_flow : (flow : Flow (Option Planned)) → Keeps (continue_flow (with_plan answers) flow)
      by_flow (done summary) = keeps (λ s. (refl, refl))
      by_flow (go none) = fail_with-Keeps answers _ _ _ _ no_extra
      by_flow (go (some planned)) = keeps (λ s. (refl, refl))

  preflight-Keeps : Keeps (preflight o answers task)
  unfolding preflight
  preflight-Keeps = keeps (λ s.
      (branch-Keeps
          (is_delegation (decision o answers task).route
            && ltb s.budget.config.max_children (profile o answers task).independent_subtask_count)
          _ _
          (branch-Keeps _ _ _ (>>-Keeps _ _ (ask-Keeps _ _) (keeps (λ s. (refl, refl))))
            (abandon_with-Keeps answers _ _))
          (keeps (λ s. (refl, refl)))).same
        s)

  module _ (used limit : ℕ) where
    next_or-Again :
        {A : Type 0} (next : A → Action Next) (flow : Flow A) (s : Session)
        → ((value : A) → After (Again used limit) Anything (next value s))
        → After (Again used limit) Anything (next_or next flow s)
    next_or-Again next (done summary) s k = after tt
    next_or-Again next (go value) s k = k value

    attempt-Again :
        (is_retry : Bool) (s : Session)
        → Held used limit s
        → After (Again used limit) Anything (attempt o answers task is_retry s)
    unfolding attempt
    attempt-Again is_retry s h =
        >>-After _ _ _ (held used limit _ s (profile_and_route-Keeps is_retry) h) (λ s1 h1.
          >>=-After _ _ _ (held used limit _ s1 (check_budget-Keeps answers) h1) (λ f1 s2 h2.
            next_or-Again _ f1 s2 (λ _.
              >>=-After _ _ _ (held used limit _ s2 check_approval-Keeps h2) (λ f2 s3 h3.
                next_or-Again _ f2 s3 (λ _.
                  >>=-After _ _ _ (held used limit _ s3 prepare-Keeps h3) (λ f3 s4 h4.
                    next_or-Again _ f3 s4 (λ planned.
                      >>=-After _ _ _ (held used limit _ s4 preflight-Keeps h4) (λ f4 s5 h5.
                        next_or-Again _ f4 s5
                          (λ _. dispatch-Again used limit o answers task planned s5 h5)))))))))

  -- A pass that is the last.
  abbrev IsLast : Next → Session → Type 0
  IsLast next s = next ≢ again

  execute-IsLast :
      (fuel used limit : ℕ) (is_retry : Bool) (s : Session)
      → used ≤ limit
      → limit < used + fuel
      → Held used limit s
      → After IsLast Anything (execute o answers task fuel is_retry s)
  unfolding execute
  execute-IsLast zero used limit is_retry s h enough held_now = omega arith
  execute-IsLast (suc fuel) used limit is_retry s h enough held_now =
      >>=-After _ _ _ (attempt-Again used limit is_retry s held_now) (λ next s1 more.
        by_next next s1 more (λ left held_next.
          execute-IsLast fuel (used + 1) limit true s1 (omega arith) (omega arith) held_next))
    where
      by_next :
          (next : Next) (s1 : Session)
          → Again used limit next s1
          → (used < limit
              → Held (used + 1) limit s1
              → After IsLast Anything (execute o answers task fuel true s1))
          → After IsLast Anything (repeat (execute o answers task fuel true) next s1)
      by_next (finished summary) s1 more k = after (λ same. cc)
      by_next delegated s1 more k = after (λ same. cc)
      by_next again s1 (left, held_next) k = k left held_next

  -- Where the fuel exceeds the retries that the configuration allows, a run ends in a summary, an
  -- exception or a delegated execution: it never runs out of fuel, whatever is answered.
  pub run-IsLast :
      (fuel : ℕ) → o.budget_config.max_retries < fuel → (run o answers task fuel).0 ≢ ok again
  unfolding run
  run-IsLast fuel enough = by_result _ ended
    where
      ended : After IsLast Anything (run o answers task fuel)
      ended =
          >>-After {Q = Held 0 o.budget_config.max_retries} _ _ _
            (held 0 o.budget_config.max_retries _ (start o answers task) (ask-Keeps _ _)
              (refl, refl))
            (λ s held_now.
              try_except-After {F = Anything} _ _ _
                (execute-IsLast fuel 0 o.budget_config.max_retries false s (omega arith)
                  (omega (arith, enough)) held_now)
                (λ e s1 _. >>-After {Q = Anything} _ _ _ (always _) (λ s2 _. after tt)))

      by_result : (x : Result Next × Session) → After IsLast Anything x → x.0 ≢ ok again
      by_result (ok next, s) h same = h.holds cc
      by_result (err e, s) h same = cc
