-- ===== src/Tests/Runs.antt =====
-- The theorems on budgets, submissions, task records and their registry at concrete inputs.
use adaptive_agent_orchestra.Base.{
  ◌+◌, ◌≤◌, ◌<◌, true, false, none, some, List, [], ◌∷◌, ok, ◌≡◌, ◌≢◌, refl, ◌↔◌, ◌⊎◌, inl, any,
  contains,
}
use adaptive_agent_orchestra.Budget.{
  default_config, BudgetState, new_budget, reserve_calls, commit_reserved_call,
  release_reserved_call, is_over_budget,
}
use adaptive_agent_orchestra.Budget.Policy.{
  ExecutionPolicy, authorize_submission, authorize_submission-allowed_iff,
}
use adaptive_agent_orchestra.Budget.Bounds.{
  Op, apply_all, apply_all-is_over_budget, reserve-commit_release,
}
use adaptive_agent_orchestra.Budget.Children.{
  Event, start, submit_returns, submit_raises, finish, restart, run, new_system,
}
use adaptive_agent_orchestra.Budget.Children.Interleaving.{
  Inv, Ensures, BelowApproval, run-Inv, run-BelowApproval,
}
use adaptive_agent_orchestra.State.{
  TaskStatus, Method, profile, route_to, run_as, evaluate, complete, retry, fail_with, abandon_for,
  TaskRecord, create, call, calls, transition, transitions, is_allowed, mark_running, mark_routed,
  mark_retry, mark_failed,
}
use adaptive_agent_orchestra.State.Paths.{
  statuses, Moves, call-Moves, IsHistory, calls-IsHistory, calls-IsTerminal,
}
use adaptive_agent_orchestra.State.Milestones.{IsWithin, milestones, calls-milestones}
use adaptive_agent_orchestra.State.Machine.{StateMachine, create_task, get, calls_at}
use adaptive_agent_orchestra.State.Machine.Shared.{get-create_task}

abbrev budget : BudgetState
budget = new_budget "t1" default_config

abbrev reserved : BudgetState
reserved = record budget { calls_reserved = 1 }

abbrev policy : ExecutionPolicy
policy = record {
  max_total_calls = 10;
  require_approval_above_calls = 3;
  always_require_actions = "push" ∷ [];
}

abbrev events : List Event
events =
    start 0 ∷ start 1 ∷ submit_raises 1 ∷ submit_returns 0 ∷ finish 0 ∷ restart 1 ∷ start 1 ∷ []

apply_all-is_over_budget_example :
    ((apply_all budget (Op.reserve 2 ∷ Op.commit ∷ Op.release ∷ [])).calls_used
        + (apply_all budget (Op.reserve 2 ∷ Op.commit ∷ Op.release ∷ [])).calls_reserved
      ≤ default_config.max_total_calls)
    × (is_over_budget (apply_all budget (Op.reserve 2 ∷ Op.commit ∷ Op.release ∷ [])) ≡ none)
apply_all-is_over_budget_example =
    apply_all-is_over_budget "t1" default_config (Op.reserve 2 ∷ Op.commit ∷ Op.release ∷ [])

reserved_one : reserve_calls budget 1 ≡ ok (reserved, none)
unfolding reserve_calls
reserved_one = refl

reserve-commit_release_example :
    (commit_reserved_call reserved ≡ ok (record budget { calls_used = budget.calls_used + 1 }))
    × (release_reserved_call reserved ≡ ok budget)
reserve-commit_release_example = reserve-commit_release budget reserved reserved_one

authorize_submission-allowed_iff_example :
    ((authorize_submission policy 2 ("edit" ∷ []) none).allowed ≡ true) ↔ (
      (2 < policy.max_total_calls)
      × ((none ≡ some true)
          ⊎ ((any (λ a. contains a policy.always_require_actions) ("edit" ∷ []) ≡ false)
              × (2 < policy.require_approval_above_calls))))
authorize_submission-allowed_iff_example =
    authorize_submission-allowed_iff policy 2 ("edit" ∷ []) none

run-Inv_example :
    Ensures
      (Inv default_config)
      (run (some policy) (some true) (new_system "t1" default_config 2) events)
run-Inv_example = run-Inv (some policy) (some true) "t1" default_config 2 events

unapproved : none ≢ some true
unapproved h = cc

run-BelowApproval_example :
    Ensures
      (λ s. Inv default_config s × BelowApproval policy s)
      (run (some policy) none (new_system "t1" default_config 2) events)
run-BelowApproval_example = run-BelowApproval policy none "t1" default_config 2 events unapproved

abbrev methods : List Method
methods =
    profile
    ∷ route_to "single"
    ∷ run_as "r1"
    ∷ complete
    ∷ evaluate
    ∷ fail_with "checks"
    ∷ retry
    ∷ route_to "single"
    ∷ run_as "r2"
    ∷ evaluate
    ∷ complete
    ∷ []

abbrev done : TaskRecord
done = calls methods (create "t1")

test_done : done.status ≡ TaskStatus.completed
unfolding calls create call transition is_allowed transitions mark_running mark_routed mark_retry
    mark_failed
test_done = refl

call-Moves_example :
    Moves TaskStatus.received
      (create "t1").writes
      TaskStatus.completed
      (call complete (create "t1"))
unfolding create
call-Moves_example = call-Moves complete (create "t1")

calls-IsHistory_example : IsHistory done.status (statuses done.writes)
calls-IsHistory_example = calls-IsHistory methods "t1"

calls-milestones_example : IsWithin (milestones done.status) (statuses done.writes)
calls-milestones_example = calls-milestones methods "t1"

calls-IsTerminal_example :
    ((calls (retry ∷ abandon_for "late" ∷ []) done).status ≡ done.status)
    × ((calls (retry ∷ abandon_for "late" ∷ []) done).writes ≡ done.writes)
calls-IsTerminal_example = calls-IsTerminal (retry ∷ abandon_for "late" ∷ []) done (inl test_done)

abbrev machine : StateMachine
machine = record { heap = create "t0" ∷ []; records = ("t0", 0) ∷ [] }

get-create_task_example :
    get (calls_at (create_task "t1" machine).0 (create_task "t1" machine).1 methods) "t1"
    ≡ some (calls methods (create "t1"))
get-create_task_example = get-create_task machine "t1" methods
