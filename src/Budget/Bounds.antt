-- ===== src/Budget/Bounds.antt =====
-- The hard limit on calls of orchestrator/budget.py under sequences of operations on the budget.
use adaptive_agent_orchestra.Base.{
  ℕ, ◌+◌, ◌≤◌, ◌≡◌, ◌∙◌, ap, refl, Option, none, List, [], ◌∷◌, String, Result, ok, err, arith,
}
use adaptive_agent_orchestra.Budget.{
  BudgetConfig, BudgetState, BudgetViolation, new_budget, can_submit_calls, reserve_calls,
  commit_reserved_call, release_reserved_call, is_over_budget,
}

-- The calls that are used or reserved are within the limit.
abbrev pub Within : BudgetState → Type 0
Within b = b.calls_used + b.calls_reserved ≤ b.config.max_total_calls

pub data Op : Type 0 where
  reserve : ℕ → Op
  commit release : Op

-- The state after an operation; one that raises leaves it as it was.
abbrev pub state_of : BudgetState → Result (BudgetState × Option BudgetViolation) → BudgetState
state_of b (ok (b', violation)) = b'
state_of b (err e) = b

abbrev pub kept : BudgetState → Result BudgetState → BudgetState
kept b (ok b') = b'
kept b (err e) = b

pub apply : BudgetState → Op → BudgetState
apply b (reserve count) = state_of b (reserve_calls b count)
apply b commit = kept b (commit_reserved_call b)
apply b release = kept b (release_reserved_call b)

pub apply_all : BudgetState → List Op → BudgetState
apply_all b [] = b
apply_all b (op ∷ ops) = apply_all (apply b op) ops

pub apply-Within : (b : BudgetState) (op : Op) → Within b → Within (apply b op)
unfolding apply reserve_calls can_submit_calls commit_reserved_call release_reserved_call
apply-Within b (reserve count) h = ground arith
apply-Within b commit h = ground arith
apply-Within b release h = ground arith

apply-config : (b : BudgetState) (op : Op) → (apply b op).config ≡ b.config
unfolding apply reserve_calls can_submit_calls commit_reserved_call release_reserved_call
apply-config b (reserve count) = ground arith
apply-config b commit = ground arith
apply-config b release = ground arith

apply_all-Within :
    (b : BudgetState) (ops : List Op)
    → Within b
    → Within (apply_all b ops) × ((apply_all b ops).config ≡ b.config)
unfolding apply_all
apply_all-Within b [] h = (h, refl)
apply_all-Within b (op ∷ ops) h =
    let (within, same) = apply_all-Within (apply b op) ops (apply-Within b op h) in
    (within, same ∙ apply-config b op)

-- However calls are reserved, committed and released on a new budget, also out of turn, the calls
-- that are used or reserved never pass the limit, and the gate's postflight check reports nothing.
pub apply_all-is_over_budget :
    (task_id : String) (config : BudgetConfig) (ops : List Op)
    → let b = apply_all (new_budget task_id config) ops in
      (b.calls_used + b.calls_reserved ≤ config.max_total_calls) × (is_over_budget b ≡ none)
unfolding is_over_budget
apply_all-is_over_budget task_id config ops =
    let (within, same) = apply_all-Within (new_budget task_id config) ops (omega arith) in
    let limit : (apply_all (new_budget task_id config) ops).config.max_total_calls
        ≡ config.max_total_calls =
      ap (λ (c : BudgetConfig). c.max_total_calls) same in
    (omega (arith, within, limit), ground (arith, within))

-- A reservation of one call that succeeds can be committed or released; committing turns it into a
-- used call, and releasing brings the budget back to what it was.
pub reserve-commit_release :
    (b b' : BudgetState)
    → reserve_calls b 1 ≡ ok (b', none)
    → (commit_reserved_call b' ≡ ok (record b { calls_used = b.calls_used + 1 }))
      × (release_reserved_call b' ≡ ok b)
unfolding reserve_calls can_submit_calls commit_reserved_call release_reserved_call
reserve-commit_release b b' h = ground arith
