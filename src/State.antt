-- ===== src/State.antt =====
-- orchestrator/state_machine.py: the status of a task, the table of legal transitions, and the
-- methods of `TaskRecord`, each with what it writes to the database. Left out are the times that the
-- writes carry, and the fields of the task in the write of `create`. A method that raises keeps what
-- it assigned before: each method returns its result beside the record it leaves.
pub mod Paths
pub mod Milestones
pub mod Machine
use adaptive_agent_orchestra.Base.{
  ℕ, ◌+◌, Bool, ◌==◌, Option, none, some, List, [], ◌∷◌, ◌++◌, any, String, str_append, str_eq,
  Result, ok, err, Error, illegal_transition_error, if◌then◌else◌,
}

pub data TaskStatus : Type 0 where
  received profiled routed running evaluating : TaskStatus
  completed failed retrying abandoned : TaskStatus

abbrev pub status_value : TaskStatus → String
status_value TaskStatus.received = "received"
status_value TaskStatus.profiled = "profiled"
status_value TaskStatus.routed = "routed"
status_value TaskStatus.running = "running"
status_value TaskStatus.evaluating = "evaluating"
status_value TaskStatus.completed = "completed"
status_value TaskStatus.failed = "failed"
status_value TaskStatus.retrying = "retrying"
status_value TaskStatus.abandoned = "abandoned"

abbrev pub position : TaskStatus → ℕ
position TaskStatus.received = 0
position TaskStatus.profiled = 1
position TaskStatus.routed = 2
position TaskStatus.running = 3
position TaskStatus.evaluating = 4
position TaskStatus.completed = 5
position TaskStatus.failed = 6
position TaskStatus.retrying = 7
position TaskStatus.abandoned = 8

-- `_TRANSITIONS`.
unfoldable pub transitions : TaskStatus → List TaskStatus
transitions TaskStatus.received = TaskStatus.profiled ∷ TaskStatus.abandoned ∷ []
transitions TaskStatus.profiled = TaskStatus.routed ∷ TaskStatus.abandoned ∷ []
transitions TaskStatus.routed = TaskStatus.running ∷ TaskStatus.abandoned ∷ TaskStatus.failed ∷ []
transitions TaskStatus.running = TaskStatus.evaluating ∷ TaskStatus.failed ∷ []
transitions TaskStatus.evaluating = TaskStatus.completed ∷ TaskStatus.failed ∷ []
transitions TaskStatus.failed = TaskStatus.retrying ∷ TaskStatus.abandoned ∷ []
transitions TaskStatus.retrying = TaskStatus.routed ∷ TaskStatus.abandoned ∷ TaskStatus.failed ∷ []
transitions TaskStatus.completed = []
transitions TaskStatus.abandoned = []

-- `new_status in allowed`.
unfoldable pub is_allowed : TaskStatus → TaskStatus → Bool
is_allowed old new = any (λ s. position s == position new) (transitions old)

-- The fields that `transition` writes beside the status.
pub data Extra : Type 0 where
  no_extra : Extra
  with_route : String → Extra
  with_retry_count : ℕ → Extra

pub data Write : Type 0 where
  upsert_task : String → TaskStatus → Extra → Write
  insert_run : String → String → Write
  update_run_failed : String → String → Write

-- `writes` is what the record has sent to the database, the latest first.
pub record TaskRecord : Type 0 where
  pub task_id : String
  pub status : TaskStatus
  pub route : Option String
  pub run_id : Option String
  pub retry_count : ℕ
  pub writes : List Write

-- `TaskRecord.__init__` and the write of `StateMachine.create`.
unfoldable pub create : String → TaskRecord
create task_id = record {
  task_id = task_id;
  status = TaskStatus.received;
  route = none;
  run_id = none;
  retry_count = 0;
  writes = upsert_task task_id TaskStatus.received no_extra ∷ [];
}

abbrev pub log : TaskRecord → List Write → TaskRecord
log r ws = record r { writes = ws ++ r.writes }

abbrev pub illegal_transition : TaskStatus → TaskStatus → Error
illegal_transition old new = illegal_transition_error (
    str_append (status_value old)
      (str_append " → " (str_append (status_value new) " is not a valid transition")))

abbrev pub Outcome : Type 0
Outcome = Result (Unit {0}) × TaskRecord

-- What the rest of a method does, if its `transition` returned.
abbrev pub then_log : Outcome → List Write → Outcome
then_log (ok u, r) ws = (ok u, log r ws)
then_log (err e, r) ws = (err e, r)

unfoldable pub transition : TaskRecord → TaskStatus → Extra → Outcome
transition r new extra =
    if is_allowed r.status new
    then (ok tt, record r { status = new; writes = upsert_task r.task_id new extra ∷ r.writes })
    else (err (illegal_transition r.status new), r)

unfoldable pub mark_routed : TaskRecord → String → Outcome
mark_routed r route =
    transition (record r { route = some route }) TaskStatus.routed (with_route route)

unfoldable pub mark_running : TaskRecord → String → Outcome
mark_running r run_id =
    then_log (transition (record r { run_id = some run_id }) TaskStatus.running no_extra)
      (insert_run run_id r.task_id ∷ [])

-- `if self.run_id`: neither `None` nor empty.
abbrev pub failed_run : Option String → String → List Write
failed_run none error = []
failed_run (some run_id) error =
    if str_eq run_id "" then [] else update_run_failed run_id error ∷ []

unfoldable pub mark_failed : TaskRecord → String → Outcome
mark_failed r error = then_log (transition r TaskStatus.failed no_extra) (failed_run r.run_id error)

unfoldable pub mark_retry : TaskRecord → Outcome
mark_retry r =
    transition (record r { retry_count = r.retry_count + 1 }) TaskStatus.retrying
      (with_retry_count (r.retry_count + 1))

-- A call of a method of the record; `profile` is `transition(PROFILED)`, which the engine calls.
pub data Method : Type 0 where
  profile evaluate complete retry : Method
  route_to run_as fail_with abandon_for : String → Method

unfoldable pub call : Method → TaskRecord → Outcome
call profile r = transition r TaskStatus.profiled no_extra
call (route_to route) r = mark_routed r route
call (run_as run_id) r = mark_running r run_id
call evaluate r = transition r TaskStatus.evaluating no_extra
call complete r = transition r TaskStatus.completed no_extra
call (fail_with error) r = mark_failed r error
call retry r = mark_retry r
call (abandon_for reason) r = transition r TaskStatus.abandoned no_extra

-- A sequence of calls, each exception caught by the caller.
unfoldable pub calls : List Method → TaskRecord → TaskRecord
calls [] r = r
calls (m ∷ ms) r = calls ms (call m r).1
