-- ===== src/Budget/Children/Interleaving.antt =====
-- The limits on calls under the interleavings of the child runs of Budget/Children.
use adaptive_agent_orchestra.Base.{
  ℕ, zero, suc, ◌+◌, ◌≤◌, ◌≡◌, ◌≢◌, refl, sym, Bool, true, Option, some, List, [], ◌∷◌, get_elem?,
  set, replicate, String, Result, ok, err, ◌>>=◌, arith,
}
use adaptive_agent_orchestra.Budget.{
  BudgetConfig, can_submit_calls, reserve_calls, commit_reserved_call, release_reserved_call,
}
use adaptive_agent_orchestra.Budget.Policy.{ExecutionPolicy, authorize_submission-allowed_iff}
use adaptive_agent_orchestra.Budget.Children.{
  Phase, waiting, submitting, running, ended, System, Event, start, submit_returns, submit_raises,
  finish, restart, start_child, on_phase, child_of, step, run, new_system,
}

abbrev weight : Phase → ℕ
weight submitting = 1
weight _ = 0

-- How many children wait for the runtime to take their task.
abbrev pub submissions : List Phase → ℕ
submissions [] = 0
submissions (p ∷ ps) = weight p + submissions ps

submissions-set :
    (ps : List Phase) (i : ℕ) (old new : Phase)
    → get_elem? ps i ≡ some old
    → submissions (set ps i new) + weight old ≡ submissions ps + weight new
submissions-set [] i old new h = cc
submissions-set (p ∷ ps) zero old new h = let same : p ≡ old = cc in rw same (omega arith)
submissions-set (p ∷ ps) (suc i) old new h = omega (arith, submissions-set ps i old new h)

-- What holds between any two events.
pub record Inv (config : BudgetConfig) (s : System) : Type 0 where
  pub same_config : s.budget.config ≡ config
  pub within : s.budget.calls_used + s.budget.calls_reserved ≤ config.max_total_calls
  pub reserved_exact : s.budget.calls_reserved ≡ submissions s.phases

-- The event is carried out without an exception, and the predicate holds behind it.
abbrev pub Ensures : (System → Type 0) → Result System → Type 0
Ensures P (ok s) = P s
Ensures P (err e) = ⊥

module _ (policy : Option ExecutionPolicy) (approval : Option Bool) (config : BudgetConfig) where
  start_child-Inv :
      (s : System) (i : ℕ)
      → get_elem? s.phases i ≡ some waiting
      → Inv config s
      → Ensures (Inv config) (start_child policy approval s i)
  unfolding start_child reserve_calls can_submit_calls
  start_child-Inv s i at h = ground (
    arith,
    submissions-set s.phases i waiting submitting at,
    submissions-set s.phases i waiting ended at,
  )

  on_phase-Inv :
      (s : System) (e : Event) (phase : Option Phase)
      → get_elem? s.phases (child_of e) ≡ phase
      → Inv config s
      → Ensures (Inv config) (on_phase policy approval s e phase)
  unfolding on_phase commit_reserved_call release_reserved_call
  on_phase-Inv s (start i) (some waiting) at h = start_child-Inv s i at h
  on_phase-Inv s (submit_returns i) (some submitting) at h =
      ground (arith, submissions-set s.phases i submitting running at)
  on_phase-Inv s (submit_raises i) (some submitting) at h =
      ground (arith, submissions-set s.phases i submitting ended at)
  on_phase-Inv s (finish i) (some running) at h =
      ground (arith, submissions-set s.phases i running ended at)
  on_phase-Inv s (restart i) (some ended) at h =
      ground (arith, submissions-set s.phases i ended waiting at)
  on_phase-Inv s _ _ at h = h

  step-Inv :
      (s : System) (e : Event) → Inv config s → Ensures (Inv config) (step policy approval s e)
  unfolding step
  step-Inv s e h = on_phase-Inv s e (get_elem? s.phases (child_of e)) refl h

module _ (policy : Option ExecutionPolicy) (approval : Option Bool) (P : System → Type 0) where
  bind-Ensures :
      (r : Result System) (next : System → Result System)
      → Ensures P r
      → ((s : System) → P s → Ensures P (next s))
      → Ensures P (r >>= next)
  bind-Ensures (ok s) next h k = k s h
  bind-Ensures (err e) next h k = h

  -- What every event keeps holds behind any events.
  run-Ensures :
      ((s : System) (e : Event) → P s → Ensures P (step policy approval s e))
      → (s : System) (events : List Event) → P s
      → Ensures P (run policy approval s events)
  unfolding run
  run-Ensures keep s [] h = h
  run-Ensures keep s (e ∷ es) h =
      bind-Ensures (step policy approval s e) (λ s'. run policy approval s' es) (keep s e h)
        (λ s' h'. run-Ensures keep s' es h')

submissions-replicate : (n : ℕ) → submissions (replicate n waiting) ≡ 0
submissions-replicate zero = refl
submissions-replicate (suc n) = omega (arith, submissions-replicate n)

new_system-Inv :
    (task_id : String) (config : BudgetConfig) (children : ℕ)
    → Inv config (new_system task_id config children)
new_system-Inv task_id config children = record {
  same_config = refl;
  within = omega arith;
  reserved_exact = sym (submissions-replicate children);
}

-- However the runs of any number of children interleave, with or without a policy and an approval
-- and with any retries, no reserved call is missing when it is committed or released, so nothing
-- raises; the calls used and reserved stay within the limit, and the calls reserved are exactly
-- the submissions that the runtime has not answered.
pub run-Inv :
    (policy : Option ExecutionPolicy) (approval : Option Bool) (task_id : String)
    (config : BudgetConfig) (children : ℕ) (events : List Event)
    → Ensures (Inv config) (run policy approval (new_system task_id config children) events)
run-Inv policy approval task_id config children events =
    run-Ensures policy approval (Inv config) (step-Inv policy approval config)
      (new_system task_id config children) events (new_system-Inv task_id config children)

-- The calls used and reserved are no more than need no approval.
abbrev pub BelowApproval : ExecutionPolicy → System → Type 0
BelowApproval policy s =
    s.budget.calls_used + s.budget.calls_reserved ≤ policy.require_approval_above_calls

-- The predicate holds behind the event, if that raises nothing.
abbrev Upholds : (System → Type 0) → Result System → Type 0
Upholds P (ok s) = P s
Upholds P (err e) = Unit

Ensures-and :
    (P Q : System → Type 0) (r : Result System)
    → Ensures P r
    → Upholds Q r
    → Ensures (λ s. P s × Q s) r
Ensures-and P Q (ok s) p q = (p, q)
Ensures-and P Q (err e) p q = p

module _ (policy : ExecutionPolicy) (approval : Option Bool)
    (unapproved : approval ≢ some true) where
  start_child-BelowApproval :
      (s : System) (i : ℕ)
      → BelowApproval policy s
      → Upholds (BelowApproval policy) (start_child (some policy) approval s i)
  unfolding start_child reserve_calls can_submit_calls
  start_child-BelowApproval s i h = ground (
    arith,
    authorize_submission-allowed_iff policy (s.budget.calls_used + s.budget.calls_reserved) []
        approval,
  )

  on_phase-BelowApproval :
      (s : System) (e : Event) (phase : Option Phase)
      → BelowApproval policy s
      → Upholds (BelowApproval policy) (on_phase (some policy) approval s e phase)
  unfolding on_phase commit_reserved_call release_reserved_call
  on_phase-BelowApproval s (start i) (some waiting) h = start_child-BelowApproval s i h
  on_phase-BelowApproval s (submit_returns i) (some submitting) h = ground arith
  on_phase-BelowApproval s (submit_raises i) (some submitting) h = ground arith
  on_phase-BelowApproval s (finish i) (some running) h = h
  on_phase-BelowApproval s (restart i) (some ended) h = h
  on_phase-BelowApproval s _ _ h = h

-- However the runs interleave, as long as the user has not approved the batch no more calls are used
-- or reserved than the policy lets pass without approval, nor more than the budget's limit.
pub run-BelowApproval :
    (policy : ExecutionPolicy) (approval : Option Bool) (task_id : String) (config : BudgetConfig)
    (children : ℕ) (events : List Event)
    → approval ≢ some true
    → Ensures
        (λ s. Inv config s × BelowApproval policy s)
        (run (some policy) approval (new_system task_id config children) events)
run-BelowApproval policy approval task_id config children events unapproved =
    run-Ensures (some policy) approval (λ s. Inv config s × BelowApproval policy s)
      (λ s e (inv, below).
        Ensures-and (Inv config) (BelowApproval policy) (step (some policy) approval s e)
          (step-Inv (some policy) approval config s e inv)
          (unfold step in
            on_phase-BelowApproval policy approval unapproved s e (get_elem? s.phases (child_of e))
              below))
      (new_system task_id config children) events
      (new_system-Inv task_id config children, omega arith)
