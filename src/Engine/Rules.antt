-- ===== src/Engine/Rules.antt =====
-- Rules for actions: what holds of a result and of the session it leaves, when the action returns and
-- when it raises.
use adaptive_agent_orchestra.Base.{
  ◌≡◌, refl, ◌∷◌, Bool, true, false, inl, inr, Result, ok, err, Error,
}
use adaptive_agent_orchestra.Budget.{BudgetState}
use adaptive_agent_orchestra.State.{TaskStatus, TaskRecord, is_allowed, Outcome}
use adaptive_agent_orchestra.State.Paths.{Moves}
use adaptive_agent_orchestra.Engine.Action.{
  Step, Trail, Session, Action, returned, continue_with, recover_with, ◌>>=◌, ◌>>◌, try_except,
  when, ask, branch, on_record, on_budget, with_budget, with_record,
}

abbrev pub Holds :
    {A : Type 0} → (A → Session → Type 0) → (Session → Type 0) → Result A × Session → Type 0
Holds Q E (ok value, s) = Q value s
Holds Q E (err e, s) = E s

-- `Q` of a value that is returned, `E` of the session where the action raises.
pub record After {A : Type 0} (Q : A → Session → Type 0) (E : Session → Type 0)
    (x : Result A × Session) : Type 0 where
  pub holds : Holds Q E x

abbrev pub after :
    {A : Type 0} {Q : A → Session → Type 0} {E : Session → Type 0} {x : Result A × Session}
    → Holds Q E x
    → After Q E x
after h = record { holds = h }

module _ {A : Type 0} {Q : A → Session → Type 0} {E : Session → Type 0} where
  pub >>=-After :
      {B : Type 0} {R : B → Session → Type 0} (first : Action A) (next : A → Action B) (s : Session)
      → After Q E (first s)
      → ((value : A) (s' : Session) → Q value s' → After R E (next value s'))
      → After R E ((first >>= next) s)
  unfolding ◌>>=◌
  >>=-After {R = R} first next s h k = by_result (first s) h
    where
      by_result : (x : Result A × Session) → After Q E x → After R E (continue_with next x)
      by_result (ok value, s') done = k value s' done.holds
      by_result (err e, s') done = after done.holds

  pub try_except-After :
      {F : Session → Type 0} (body : Action A) (handler : Error → Action A) (s : Session)
      → After Q F (body s)
      → ((e : Error) (s' : Session) → F s' → After Q E (handler e s'))
      → After Q E (try_except body handler s)
  unfolding try_except
  try_except-After {F} body handler s h k = by_result (body s) h
    where
      by_result : (x : Result A × Session) → After Q F x → After Q E (recover_with handler x)
      by_result (ok value, s') done = after done.holds
      by_result (err e, s') done = k e s' done.holds

  pub After-imp :
      {R : A → Session → Type 0} {F : Session → Type 0} (x : Result A × Session)
      → After Q E x
      → ((value : A) (s : Session) → Q value s → R value s)
      → ((s : Session) → E s → F s)
      → After R F x
  After-imp (ok value, s) h on_value on_error = after (on_value value s h.holds)
  After-imp (err e, s) h on_value on_error = after (on_error s h.holds)

  pub branch-After :
      (test : Bool) (yes_part no_part : Action A) (s : Session)
      → (test ≡ true → After Q E (yes_part s))
      → (test ≡ false → After Q E (no_part s))
      → After Q E (branch test yes_part no_part s)
  unfolding branch
  branch-After true yes_part no_part s h k = h refl
  branch-After false yes_part no_part s h k = k refl

  -- Whether the call returns is in the trail.
  pub ask-After :
      (step : Step) (answer : Trail → Result A) (s : Session)
      → ((value : A) → Q value (record s { trail = (step, true) ∷ s.trail }))
      → E (record s { trail = (step, false) ∷ s.trail })
      → After Q E (ask step answer s)
  unfolding ask
  ask-After step answer s on_value on_error = by_answer (answer s.trail)
    where
      by_answer : (r : Result A) → After Q E (r, record s { trail = (step, returned r) ∷ s.trail })
      by_answer (ok value) = after (on_value value)
      by_answer (err e) = after on_error

module _ {E : Session → Type 0} where
  pub >>-After :
      {Q : Session → Type 0} {B : Type 0} {R : B → Session → Type 0} (first : Action (Unit {0}))
      (next : Action B) (s : Session)
      → After (λ _. Q) E (first s)
      → ((s' : Session) → Q s' → After R E (next s'))
      → After R E ((first >> next) s)
  unfolding ◌>>◌
  >>-After {Q} {R = R} first next s h k = by_result (first s) h
    where
      by_result :
          (x : Result (Unit {0}) × Session)
          → After (λ _. Q) E x
          → After R E (continue_with (λ _. next) x)
      by_result (ok value, s') done = k s' done.holds
      by_result (err e, s') done = after done.holds

  pub when-After :
      {Q : Session → Type 0} (test : Bool) (body : Action (Unit {0})) (s : Session)
      → (test ≡ true → After (λ _. Q) E (body s))
      → (test ≡ false → Q s)
      → After (λ _. Q) E (when test body s)
  unfolding when
  when-After true body s h k = h refl
  when-After false body s h k = after (k refl)

-- A method that moves the record along the transition table, and whose writes may raise.
pub on_record-After :
    {Q : Unit {0} → Session → Type 0} {E : Session → Type 0} (save : Trail → Result (Unit {0}))
    (method : TaskRecord → Outcome) {new : TaskStatus} (s : Session)
    → Moves s.task.status s.task.writes new (method s.task)
    → ((r : TaskRecord)
        → r.status ≡ new
        → Q tt (record s { task = r; trail = (Step.save_record, true) ∷ s.trail }))
    → ((r : TaskRecord) → is_allowed s.task.status new ≡ false → E (record s { task = r }))
    → ((r : TaskRecord) (e : Error)
        → save s.trail ≡ err e
        → E (record s { task = r; trail = (Step.save_record, false) ∷ s.trail }))
    → After Q E (on_record save method s)
unfolding on_record ask
on_record-After {Q} {E} save method {new} s moves on_value on_error on_unsaved =
    by_result (method s.task) moves
  where
    by_answer :
        (r : TaskRecord) (answer : Result (Unit {0}))
        → save s.trail ≡ answer
        → r.status ≡ new
        → After Q E
            (answer, record s { task = r; trail = (Step.save_record, returned answer) ∷ s.trail })
    by_answer r (ok u) same now = after (on_value r now)
    by_answer r (err e) same now = after (on_unsaved r e same)

    by_result :
        (o : Outcome)
        → Moves s.task.status s.task.writes new o
        → After Q E (continue_with (λ _. ask Step.save_record save) (with_record s o))
    by_result (ok u, r) (inl (_, _, now, _)) = by_answer r (save s.trail) refl now
    by_result (ok u, r) (inr (_, raised, _, _)) = cc
    by_result (err e, r) (inl (_, completed, _, _)) = cc
    by_result (err e, r) (inr (refused, _, _, _)) = after (on_error r refused)

pub on_budget-After :
    {Q : Unit {0} → Session → Type 0} {E : Session → Type 0}
    (method : BudgetState → Result BudgetState) (s : Session)
    → ((b : BudgetState) → method s.budget ≡ ok b → Q tt (record s { budget = b }))
    → E s
    → After Q E (on_budget method s)
unfolding on_budget
on_budget-After {Q} {E} method s on_value on_error = by_result (method s.budget) refl
  where
    by_result : (r : Result BudgetState) → method s.budget ≡ r → After Q E (with_budget s r)
    by_result (ok b) same = after (on_value b same)
    by_result (err e) same = after on_error
