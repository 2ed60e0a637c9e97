-- ===== src/Engine/Action.antt =====
-- The code of orchestrator/engine.py as actions: state, exceptions, and calls of what is outside. A
-- call outside is answered by a function of all that was called before, so that the answers may
-- differ from one call to the next in any way. What was written before an exception stays.
use adaptive_agent_orchestra.Base.{
  Bool, true, false, List, ◌∷◌, Result, ok, err, Error, if◌then◌else◌,
}
use adaptive_agent_orchestra.State.{TaskRecord}
use adaptive_agent_orchestra.Budget.{BudgetState}

-- A call of the runtime, of git, of the evaluation gate, of the planning, of the user or of the
-- telemetry; `save_record` is what a method of the task's record writes to the database, and
-- `remove_artifacts` and `deliver` are what gives the workspace away.
pub data Step : Type 0 where
  create_workspace remove_artifacts deliver scan capture : Step
  submit stream cancel wait quiesce read_usage : Step
  evaluate plan prompt_user check_root write save_record : Step

-- The calls so far, the latest first, each with whether it returned.
abbrev pub Trail : Type 0
Trail = List (Step × Bool)

-- The record of the task, its budget, the flag `cleaned` of the current workspace, and the local
-- `terminal_confirmed`.
pub record Session : Type 0 where
  pub task : TaskRecord
  pub budget : BudgetState
  pub cleaned : Bool
  pub terminal_confirmed : Bool
  pub trail : Trail

abbrev pub Action : Type 0 → Type 0
Action A = Session → Result A × Session

abbrev pub returned : {A : Type 0} → Result A → Bool
returned (ok a) = true
returned (err e) = false

-- The value with the session unchanged.
abbrev pub pure : {A : Type 0} → A → Action A
pure value s = (ok value, s)

abbrev pub raise : {A : Type 0} → Error → Action A
raise e s = (err e, s)

abbrev pub from_result : {A : Type 0} → Result A → Action A
from_result r s = (r, s)

-- What follows on a result, in the session that it left.
abbrev pub continue_with : {A B : Type 0} → (A → Action B) → Result A × Session → Result B × Session
continue_with next (err e, s) = (err e, s)
continue_with next (ok value, s) = next value s

abbrev pub recover_with :
    {A : Type 0} → (Error → Action A) → Result A × Session → Result A × Session
recover_with handler (err e, s) = handler e s
recover_with handler (ok value, s) = (ok value, s)

infixl 5 ◌>>=◌ ◌>>◌
unfoldable pub ◌>>=◌ : {A B : Type 0} → Action A → (A → Action B) → Action B
◌>>=◌ first next s = continue_with next (first s)

unfoldable pub ◌>>◌ : {B : Type 0} → Action (Unit {0}) → Action B → Action B
◌>>◌ first next s = continue_with (λ _. next) (first s)

-- `try: … except Exception as e: …`.
unfoldable pub try_except : {A : Type 0} → Action A → (Error → Action A) → Action A
try_except body handler s = recover_with handler (body s)

unfoldable pub when : Bool → Action (Unit {0}) → Action (Unit {0})
when test body s = if test then body s else (ok tt, s)

unfoldable pub branch : {A : Type 0} → Bool → Action A → Action A → Action A
branch test yes_part no_part s = if test then yes_part s else no_part s

-- A call outside.
unfoldable pub ask : {A : Type 0} → Step → (Trail → Result A) → Action A
ask step answer s =
    (answer s.trail, record s { trail = (step, returned (answer s.trail)) ∷ s.trail })

-- A method of the task's record.
abbrev pub with_record : Session → Result (Unit {0}) × TaskRecord → Result (Unit {0}) × Session
with_record s (result, r) = (result, record s { task = r })

-- The method has changed the record when it awaits its writes, which may raise; a method that is
-- refused writes nothing. Where one method writes twice, `save` answers for both writes.
unfoldable pub on_record :
    (Trail → Result (Unit {0})) → (TaskRecord → Result (Unit {0}) × TaskRecord) → Action (Unit {0})
unfolding ask
on_record save method s =
    continue_with (λ _. ask Step.save_record save) (with_record s (method s.task))

-- A method of the budget that gives the changed budget.
abbrev pub with_budget : Session → Result BudgetState → Result (Unit {0}) × Session
with_budget s (err e) = (err e, s)
with_budget s (ok b) = (ok tt, record s { budget = b })

unfoldable pub on_budget : (BudgetState → Result BudgetState) → Action (Unit {0})
on_budget method s = with_budget s (method s.budget)

abbrev pub set_cleaned : Bool → Action (Unit {0})
set_cleaned flag s = (ok tt, record s { cleaned = flag })

abbrev pub set_confirmed : Bool → Action (Unit {0})
set_confirmed flag s = (ok tt, record s { terminal_confirmed = flag })
