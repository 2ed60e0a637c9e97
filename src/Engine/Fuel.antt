-- ===== src/Engine/Fuel.antt =====
-- How often `_execute` of orchestrator/engine.py calls itself.
use adaptive_agent_orchestra.Base.{
  ◌≡◌, refl, ap, ◌∙◌, Bool, ℕ, ◌+◌, ◌<◌, Option, some, none, String, Result, ok, err, arith,
}
use adaptive_agent_orchestra.Budget.{BudgetState, BudgetViolation, check_retries, BudgetConfig}
use adaptive_agent_orchestra.Contracts.Task.{TaskContract}
use adaptive_agent_orchestra.Delegation.{Usage}
use adaptive_agent_orchestra.Evals.{EvalResult}
use adaptive_agent_orchestra.Engine.Action.{on_budget, Session, Action}
use adaptive_agent_orchestra.Engine.Outside.{Planned, Answers}
use adaptive_agent_orchestra.Engine.Summary.{
  RunOutcome, no_extra, Extra, Flow, done, go, continue_flow, Orchestrator,
}
use adaptive_agent_orchestra.Engine.Submission.{fail_with, abandon_with}
use adaptive_agent_orchestra.Engine.Ending.{
  only_eval, evaluation_passed, retry_or_fail, evaluation_failed, outcome_stage,
}
use adaptive_agent_orchestra.Engine.Rules.{After, after, >>=-After, >>-After, branch-After}
use adaptive_agent_orchestra.Engine.Keeps.{
  SameLimits, Keeps, ask-Keeps, on_record-Keeps, reserve-Keeps,
}
use adaptive_agent_orchestra.Engine.Retries.{
  runtime_identity-Keeps, authorize-Keeps, submit-Keeps, mark_submitted-Keeps, stream_stage-Keeps,
  evaluation-Keeps, rollback-Keeps,
}
use adaptive_agent_orchestra.Engine.Execution.{
  Next, again, next_of, decline, run_reserved, run_unless, execute_single, run_single,
  dispatch_delegation, dispatch,
}

abbrev pub Anything : Session → Type 0
Anything s = Unit {0}

-- `used` of the retries are used, of `limit`.
abbrev pub Held : (used limit : ℕ) → Session → Type 0
Held used limit s = (s.budget.retries_used ≡ used) × (s.budget.config.max_retries ≡ limit)

-- What goes on has used one more, which was there.
abbrev OneMore : {A : Type 0} → (used limit : ℕ) → Flow A → Session → Type 0
OneMore used limit (done summary) s = Unit {0}
OneMore used limit (go value) s = (used < limit) × Held (used + 1) limit s

abbrev pub Again : (used limit : ℕ) → Next → Session → Type 0
Again used limit again s = (used < limit) × Held (used + 1) limit s
Again used limit _ s = Unit {0}

pub always : {A : Type 0} (x : Result A × Session) → After (λ _. Anything) Anything x
always (ok value, s) = after tt
always (err e, s) = after tt

pub held :
    (used limit : ℕ) {A : Type 0} (action : Action A) (s : Session)
    → Keeps action
    → Held used limit s
    → After (λ _. Held used limit) Anything (action s)
held used limit {A} action s keeping (h, k) = by_result (action s) (keeping.same s)
  where
    by_result :
        (x : Result A × Session)
        → SameLimits s.budget x.1.budget
        → After (λ _. Held used limit) Anything x
    by_result (ok value, s') (h', k') =
        after (h' ∙ h, ap (λ (c : BudgetConfig). c.max_retries) k' ∙ k)
    by_result (err e, s') same = after tt

has_left :
    {used limit : ℕ} (b : BudgetState)
    → (b.retries_used ≡ used) × (b.config.max_retries ≡ limit)
    → check_retries b ≡ none
    → used < limit
unfolding check_retries
has_left b (h, k) same = ground (arith, h, k, same)

module _ (used limit : ℕ) where
  fails :
      {A : Type 0} (answers : Answers) (reason : String) (outcome : RunOutcome) (detail : String)
      (extra : Extra) (s : Session)
      → After
          (OneMore {A = A} used limit)
          Anything
          (fail_with answers reason outcome detail extra s)
  fails answers reason outcome detail extra s =
      >>-After {Q = Anything} _ _ _ (always _) (λ s1 _. after tt)

  abandons :
      {A : Type 0} (answers : Answers) (detail : String) (s : Session)
      → After (OneMore {A = A} used limit) Anything (abandon_with answers detail s)
  abandons answers detail s = >>-After {Q = Anything} _ _ _ (always _) (λ s1 _. after tt)

  -- A summary, or what follows.
  continues :
      {A B : Type 0} (next : A → Action (Flow B)) (flow : Flow A) (s : Session)
      → ((value : A) → After (OneMore used limit) Anything (next value s))
      → After (OneMore used limit) Anything (continue_flow next flow s)
  continues next (done summary) s k = after tt
  continues next (go value) s k = k value

  evaluation_passed-OneMore :
      (answers : Answers) (result : EvalResult) (usage : Usage) (write_task : Bool) (s : Session)
      → After (OneMore used limit) Anything (evaluation_passed answers result usage write_task s)
  unfolding evaluation_passed
  evaluation_passed-OneMore answers result usage write_task s =
      >>=-After {Q = λ _. Anything} _ _ _ (always _) (λ flow s1 _. continues _ flow s1 (λ _.
        >>=-After {Q = λ _. Anything} _ _ _ (always _)
          (λ files s2 _. continues _ files s2 (λ _. after tt))))

  retry_or_fail-OneMore :
      (answers : Answers) (route : String) (result : EvalResult) (s : Session)
      → Held used limit s
      → (violation : Option BudgetViolation) → check_retries s.budget ≡ violation
      → After (OneMore used limit) Anything (retry_or_fail answers route result violation s)
  unfolding on_budget
  retry_or_fail-OneMore answers route result s h (some violation) same =
      fails answers _ _ _ (only_eval result) s
  retry_or_fail-OneMore answers route result s h none same =
      >>-After {Q = Held used limit} _ _ _ (held used limit _ s (on_record-Keeps _ _) h) (λ s1 h1.
        >>-After {Q = Held used limit} _ _ _ (held used limit _ s1 (on_record-Keeps _ _) h1)
          (λ s2 h2.
            >>-After {Q = Held (used + 1) limit} _ _ _ (after (ap (λ n. n + 1) h2.0, h2.1))
              (λ s3 h3.
                >>-After {Q = Held (used + 1) limit} _ _ _
                  (held (used + 1) limit _ s3 (on_record-Keeps _ _) h3)
                  (λ s4 h4. after (has_left s.budget h same, h4)))))

  outcome_stage-OneMore :
      (answers : Answers) (route : String) (write_task : Bool) (result : EvalResult) (usage : Usage)
      (s : Session)
      → Held used limit s
      → After (OneMore used limit) Anything (outcome_stage answers route write_task result usage s)
  unfolding outcome_stage evaluation_failed
  outcome_stage-OneMore answers route write_task result usage s h =
      branch-After _ _ _ _ (λ _. evaluation_passed-OneMore answers result usage write_task s)
        (λ _.
          >>-After {Q = Held used limit} _ _ _ (held used limit _ s (rollback-Keeps answers) h)
            (λ s1 h1.
              retry_or_fail-OneMore answers route result s1 h1 (check_retries s1.budget) refl))

  declines :
      (answers : Answers) (reason : String) (s : Session)
      → After (OneMore used limit) Anything (decline answers reason s)
  unfolding decline
  declines answers reason s =
      >>-After {Q = Anything} _ _ _ (always _) (λ s1 _. abandons answers reason s1)

  module _ (o : Orchestrator) (answers : Answers) (task : TaskContract) where
    run_reserved-OneMore :
        (planned : Option Planned) (route : String) (s : Session)
        → Held used limit s
        → After (OneMore used limit) Anything (run_reserved o answers task planned route s)
    unfolding run_reserved
    run_reserved-OneMore planned route s h =
        >>=-After _ _ _ (held used limit _ s (submit-Keeps answers o planned _) h) (λ run_id s1 h1.
          >>-After {Q = Held used limit} _ _ _
            (held used limit _ s1 (mark_submitted-Keeps answers run_id) h1)
            (λ s2 h2. >>-After {Q = Held used limit} _ _ _ (after h2) (λ s3 h3.
              >>=-After _ _ _ (held used limit _ s3 (stream_stage-Keeps answers) h3) (λ flow s4 h4.
                continues _ flow s4 (λ seen.
                  >>=-After _ _ _ (held used limit _ s4 (evaluation-Keeps answers seen.1) h4)
                    (λ result s5 h5. outcome_stage-OneMore answers route _ result seen.1 s5 h5))))))

    run_unless-OneMore :
        (planned : Option Planned) (route : String) (violation : Option BudgetViolation)
        (s : Session)
        → Held used limit s
        → After (OneMore used limit) Anything (run_unless o answers task planned route violation s)
    run_unless-OneMore planned route (some violation) s h = declines answers _ s
    run_unless-OneMore planned route none s h = run_reserved-OneMore planned route s h

    execute_single-OneMore :
        (planned : Option Planned) (route : String) (s : Session)
        → Held used limit s
        → After (OneMore used limit) Anything (execute_single o answers task planned route s)
    unfolding execute_single
    execute_single-OneMore planned route s h =
        >>=-After _ _ _ (held used limit _ s (runtime_identity-Keeps o planned) h)
          (λ identity s1 h1.
            branch-After _ _ _ _ (λ _. fails answers _ _ _ no_extra s1)
              (λ _. >>=-After _ _ _ (held used limit _ s1 (ask-Keeps _ _) h1) (λ base_sha s2 h2.
                >>-After {Q = Held used limit} _ _ _ (after h2) (λ s3 h3.
                  >>=-After _ _ _ (held used limit _ s3 (authorize-Keeps answers o) h3)
                    (λ decision s4 h4.
                      branch-After _ _ _ _ (λ _. declines answers _ s4)
                        (λ _.
                          >>=-After _ _ _ (held used limit _ s4 reserve-Keeps h4)
                            (λ violation s5 h5.
                              run_unless-OneMore planned route violation s5 h5)))))))

    next_of-Again :
        (flow : Flow (Unit {0})) (s : Session)
        → OneMore used limit flow s
        → Again used limit (next_of flow) s
    next_of-Again (done summary) s h = h
    next_of-Again (go _) s h = h

    run_single-Again :
        (planned : Option Planned) (s : Session)
        → Held used limit s
        → After (Again used limit) Anything (run_single o answers task planned s)
    run_single-Again planned s h =
        >>=-After _ _ _ (execute_single-OneMore planned _ s h)
          (λ flow s1 more. after (next_of-Again flow s1 more))

    pub dispatch-Again :
        (planned : Option Planned) (s : Session)
        → Held used limit s
        → After (Again used limit) Anything (dispatch o answers task planned s)
    unfolding dispatch
    dispatch-Again planned s h =
        branch-After _ _ _ _ (λ _. by_plan planned) (λ _. run_single-Again planned s h)
      where
        by_plan :
            (p : Option Planned)
            → After (Again used limit) Anything (dispatch_delegation o answers task p s)
        by_plan none = after tt
        by_plan (some p) =
            branch-After _ _ _ _ (λ _. run_single-Again (some p) s h)
              (λ _.
                >>=-After _ _ _ (fails answers _ _ _ no_extra s)
                  (λ flow s1 more. after (next_of-Again flow s1 more)))
