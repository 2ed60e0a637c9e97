-- ===== src/Engine/Keeps.antt =====
-- The actions that leave the retries of the budget and its configuration as they are.
use adaptive_agent_orchestra.Base.{
  ◌≡◌, refl, ◌∙◌, Bool, true, false, Option, String, Result, ok, err, Error, arith,
}
use adaptive_agent_orchestra.Budget.{
  BudgetState, BudgetViolation, can_submit_calls, reserve_calls, commit_reserved_call,
  release_reserved_call,
}
use adaptive_agent_orchestra.Engine.Action.{
  Step, Trail, Session, Action, continue_with, recover_with, ◌>>=◌, ◌>>◌, try_except, when, branch,
  ask, on_record, on_budget, with_budget, with_record,
}
use adaptive_agent_orchestra.State.{TaskRecord, Outcome, mark_failed}
use adaptive_agent_orchestra.Engine.Outside.{Answers}
use adaptive_agent_orchestra.Engine.Summary.{RunOutcome, Extra, finish}
use adaptive_agent_orchestra.Engine.Submission.{reserved, reserve, fail_with}

abbrev pub SameLimits : BudgetState → BudgetState → Type 0
SameLimits b c = (c.retries_used ≡ b.retries_used) × (c.config ≡ b.config)

pub record Keeps {A : Type 0} (action : Action A) : Type 0 where
  pub same : (s : Session) → SameLimits s.budget (action s).1.budget

abbrev pub keeps :
    {A : Type 0} {action : Action A}
    → ((s : Session) → SameLimits s.budget (action s).1.budget)
    → Keeps action
keeps h = record { same = h }

SameLimits-trans : (a b c : BudgetState) → SameLimits a b → SameLimits b c → SameLimits a c
SameLimits-trans a b c (h, k) (h', k') = (h' ∙ h, k' ∙ k)

pub on_record-Keeps :
    (save : Trail → Result (Unit {0})) (method : TaskRecord → Outcome)
    → Keeps (on_record save method)
unfolding on_record ask
on_record-Keeps save method = keeps (λ s. by_outcome s (method s.task))
  where
    by_outcome :
        (s : Session) (o : Outcome)
        → SameLimits s.budget
            (continue_with (λ _. ask Step.save_record save) (with_record s o)).1.budget
    by_outcome s (ok u, r) = (refl, refl)
    by_outcome s (err e, r) = (refl, refl)

module _ {A : Type 0} where
  pub >>=-Keeps :
      {B : Type 0} (first : Action A) (next : A → Action B)
      → Keeps first
      → ((value : A) → Keeps (next value))
      → Keeps (first >>= next)
  unfolding ◌>>=◌
  >>=-Keeps {B} first next h k = keeps (λ s. by_result s (first s) (h.same s))
    where
      by_result :
          (s : Session) (x : Result A × Session)
          → SameLimits s.budget x.1.budget
          → SameLimits s.budget (continue_with next x).1.budget
      by_result s (ok value, s') same =
          SameLimits-trans s.budget s'.budget (next value s').1.budget same ((k value).same s')
      by_result s (err e, s') same = same

  pub try_except-Keeps :
      (body : Action A) (handler : Error → Action A)
      → Keeps body
      → ((e : Error) → Keeps (handler e))
      → Keeps (try_except body handler)
  unfolding try_except
  try_except-Keeps body handler h k = keeps (λ s. by_result s (body s) (h.same s))
    where
      by_result :
          (s : Session) (x : Result A × Session)
          → SameLimits s.budget x.1.budget
          → SameLimits s.budget (recover_with handler x).1.budget
      by_result s (ok value, s') same = same
      by_result s (err e, s') same =
          SameLimits-trans s.budget s'.budget (handler e s').1.budget same ((k e).same s')

  pub >>-Keeps :
      (first : Action (Unit {0})) (next : Action A)
      → Keeps first
      → Keeps next
      → Keeps (first >> next)
  unfolding ◌>>◌
  >>-Keeps first next h k = keeps (λ s. by_result s (first s) (h.same s))
    where
      by_result :
          (s : Session) (x : Result (Unit {0}) × Session)
          → SameLimits s.budget x.1.budget
          → SameLimits s.budget (continue_with (λ _. next) x).1.budget
      by_result s (ok value, s') same =
          SameLimits-trans s.budget s'.budget (next s').1.budget same (k.same s')
      by_result s (err e, s') same = same

  pub branch-Keeps :
      (test : Bool) (yes_part no_part : Action A)
      → Keeps yes_part
      → Keeps no_part
      → Keeps (branch test yes_part no_part)
  unfolding branch
  branch-Keeps true yes_part no_part h k = h
  branch-Keeps false yes_part no_part h k = k

  pub ask-Keeps : (step : Step) (answer : Trail → Result A) → Keeps (ask step answer)
  unfolding ask
  ask-Keeps step answer = keeps (λ s. (refl, refl))

pub when-Keeps : (test : Bool) (body : Action (Unit {0})) → Keeps body → Keeps (when test body)
unfolding when
when-Keeps true body h = h
when-Keeps false body h = keeps (λ s. (refl, refl))

pub on_budget-Keeps :
    (method : BudgetState → Result BudgetState)
    → ((b c : BudgetState) → method b ≡ ok c → SameLimits b c)
    → Keeps (on_budget method)
unfolding on_budget
on_budget-Keeps method h = keeps (λ s. by_result s (method s.budget) refl)
  where
    by_result :
        (s : Session) (r : Result BudgetState)
        → method s.budget ≡ r
        → SameLimits s.budget (with_budget s r).1.budget
    by_result s (ok b) same = h s.budget b same
    by_result s (err e) same = (refl, refl)

pub fail_with-Keeps :
    (answers : Answers) (A : Type 0) (reason : String) (outcome : RunOutcome) (detail : String)
    (extra : Extra)
    → Keeps (fail_with {A = A} answers reason outcome detail extra)
fail_with-Keeps answers A reason outcome detail extra =
    >>-Keeps (on_record answers.save (λ r. mark_failed r reason)) (finish outcome detail extra)
      (on_record-Keeps _ _) (keeps (λ s. (refl, refl)))

pub commit-SameLimits : (b c : BudgetState) → commit_reserved_call b ≡ ok c → SameLimits b c
unfolding commit_reserved_call
commit-SameLimits b c h = ground (arith, h)

pub release-SameLimits : (b c : BudgetState) → release_reserved_call b ≡ ok c → SameLimits b c
unfolding release_reserved_call
release-SameLimits b c h = ground (arith, h)

reserve_calls-SameLimits :
    (b c : BudgetState) (v : Option BudgetViolation)
    → reserve_calls b 1 ≡ ok (c, v)
    → SameLimits b c
unfolding reserve_calls can_submit_calls
reserve_calls-SameLimits b c v h = ground (arith, h)

pub reserve-Keeps : Keeps reserve
reserve-Keeps = keeps (λ s. by_result s (reserve_calls s.budget 1) refl)
  where
    by_result :
        (s : Session) (r : Result (BudgetState × Option BudgetViolation))
        → reserve_calls s.budget 1 ≡ r
        → SameLimits s.budget (reserved s r).1.budget
    by_result s (err e) same = (refl, refl)
    by_result s (ok (b, violation)) same = reserve_calls-SameLimits s.budget b violation same
