-- ===== src/Budget/Children.antt =====
-- `DelegationExecutor._run_child` of orchestrator/delegation_executor.py, as far as it touches the
-- shared budget: child runs as tasks of one event loop, which may interleave wherever the source
-- awaits. What stands between two awaits is one event.
pub mod Interleaving
use adaptive_agent_orchestra.Base.{
  ℕ, ◌+◌, Bool, true, false, Option, none, some, List, [], ◌∷◌, get_elem?, set, replicate, String,
  Result, ok, err, ◌>>=◌, if◌then◌else◌,
}
use adaptive_agent_orchestra.Budget.{
  BudgetConfig, BudgetState, BudgetViolation, new_budget, reserve_calls, commit_reserved_call,
  release_reserved_call,
}
use adaptive_agent_orchestra.Budget.Policy.{ExecutionPolicy, authorize_submission}

-- Where a child run stands: not begun; at `await self._runtime.submit(task)`; behind it; returned.
pub data Phase : Type 0 where
  waiting submitting running ended : Phase

pub record System : Type 0 where
  pub budget : BudgetState
  pub phases : List Phase

-- `start`: from the top of `_run_child` to the await of `submit`. `submit_returns` and
-- `submit_raises`: how that await ends. `finish`: the rest of the run. `restart`: the retry round
-- runs the child again.
pub data Event : Type 0 where
  start submit_returns submit_raises finish restart : ℕ → Event

abbrev pub move : System → ℕ → Phase → BudgetState → System
move s i phase budget = record { budget = budget; phases = set s.phases i phase }

-- `if violation: return …`; no policy means no authorisation.
abbrev pub after_reserve : System → ℕ → BudgetState × Option BudgetViolation → System
after_reserve s i (budget, none) = move s i submitting budget
after_reserve s i (budget, some violation) = move s i ended budget

abbrev pub is_authorized : Option ExecutionPolicy → Option Bool → BudgetState → Bool
is_authorized none approval b = true
is_authorized (some policy) approval b =
    (authorize_submission policy (b.calls_used + b.calls_reserved) [] approval).allowed

abbrev pub child_of : Event → ℕ
child_of (start i) = i
child_of (submit_returns i) = i
child_of (submit_raises i) = i
child_of (finish i) = i
child_of (restart i) = i

module _ (policy : Option ExecutionPolicy) (approval : Option Bool) where
  start_child : System → ℕ → Result System
  start_child s i =
      if is_authorized policy approval s.budget
      then reserve_calls s.budget 1 >>= (λ r. ok (after_reserve s i r))
      else ok (move s i ended s.budget)

  -- An event of a child that is in no phase for it does nothing.
  on_phase : System → Event → Option Phase → Result System
  on_phase s (start i) (some waiting) = start_child s i
  on_phase s (submit_returns i) (some submitting) =
      commit_reserved_call s.budget >>= (λ b. ok (move s i running b))
  on_phase s (submit_raises i) (some submitting) =
      release_reserved_call s.budget >>= (λ b. ok (move s i ended b))
  on_phase s (finish i) (some running) = ok (move s i ended s.budget)
  on_phase s (restart i) (some ended) = ok (move s i waiting s.budget)
  on_phase s _ _ = ok s

  unfoldable pub step : System → Event → Result System
  unfolding on_phase start_child
  step s e = on_phase s e (get_elem? s.phases (child_of e))

  unfoldable pub run : System → List Event → Result System
  unfolding step
  run s [] = ok s
  run s (e ∷ es) = step s e >>= (λ s'. run s' es)

-- `n` children that have not begun, on a new budget.
abbrev pub new_system : String → BudgetConfig → ℕ → System
new_system task_id config n = record {
  budget = new_budget task_id config;
  phases = replicate n waiting;
}
