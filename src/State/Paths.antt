-- ===== src/State/Paths.antt =====
-- What the methods of `TaskRecord` (orchestrator/state_machine.py) can do to a task's status: the
-- effect of one call, and the histories that sequences of calls write to the database.
use adaptive_agent_orchestra.Base.{
  ◌+◌, ◌≡◌, refl, sym, ◌∙◌, true, false, Bool-cases, ◌⊎◌, inl, inr, Option, none, some, List, [],
  ◌∷◌, ◌++◌, subst, String, ok, err, arith,
}
use adaptive_agent_orchestra.State.{
  TaskStatus, transitions, is_allowed, Extra, Write, upsert_task, insert_run, update_run_failed,
  TaskRecord, create, illegal_transition, Outcome, then_log, failed_run, transition, mark_routed,
  mark_running, mark_failed, mark_retry, Method, profile, evaluate, complete, retry, route_to,
  run_as, fail_with, abandon_for, call, calls,
}

-- The statuses that the writes give the task, the latest first.
abbrev pub statuses : List Write → List TaskStatus
statuses [] = []
statuses (upsert_task id s extra ∷ ws) = s ∷ statuses ws
statuses (insert_run run_id id ∷ ws) = statuses ws
statuses (update_run_failed run_id error ∷ ws) = statuses ws

abbrev pub target : Method → TaskStatus
target profile = TaskStatus.profiled
target (route_to route) = TaskStatus.routed
target (run_as run_id) = TaskStatus.running
target evaluate = TaskStatus.evaluating
target complete = TaskStatus.completed
target (fail_with error) = TaskStatus.failed
target retry = TaskStatus.retrying
target (abandon_for reason) = TaskStatus.abandoned

-- The table has the transition, the call returns and the status is written; or the table does not
-- have it, the call raises, and status and database stay.
abbrev pub Moves : TaskStatus → List Write → TaskStatus → Outcome → Type 0
Moves old ws new (result, r) =
    ((is_allowed old new ≡ true)
      × (result ≡ ok tt)
      × (r.status ≡ new)
      × (statuses r.writes ≡ new ∷ statuses ws))
    ⊎ ((is_allowed old new ≡ false)
        × (result ≡ err (illegal_transition old new))
        × (r.status ≡ old)
        × (r.writes ≡ ws))

transition-Moves :
    (r : TaskRecord) (new : TaskStatus) (extra : Extra)
    → Moves r.status r.writes new (transition r new extra)
unfolding transition
transition-Moves r new extra = elim (Bool-cases (is_allowed r.status new)) [
  | inl h ↦ rw h (inl (refl, refl, refl, refl))
  | inr h ↦ rw h (inr (refl, refl, refl, refl))
]

statuses-append : (new old : List Write) → statuses new ≡ [] → statuses (new ++ old) ≡ statuses old
statuses-append [] old h = refl
statuses-append (upsert_task id s extra ∷ ws) old h = cc
statuses-append (insert_run run_id id ∷ ws) old h = statuses-append ws old h
statuses-append (update_run_failed run_id error ∷ ws) old h = statuses-append ws old h

then_log-Moves :
    (old : TaskStatus) (ws : List Write) (new : TaskStatus) (o : Outcome) (more : List Write)
    → statuses more ≡ []
    → Moves old ws new o
    → Moves old ws new (then_log o more)
then_log-Moves old ws new (ok u, r) more h (inl (a, b, c, d)) =
    inl (a, b, c, statuses-append more r.writes h ∙ d)
then_log-Moves old ws new (ok u, r) more h (inr (a, b, c, d)) = cc
then_log-Moves old ws new (err e, r) more h m = m

failed_run-statuses :
    (run_id : Option String) (error : String) → statuses (failed_run run_id error) ≡ []
failed_run-statuses none error = refl
failed_run-statuses (some run_id) error = ground arith

-- A call of a method moves the task along one transition of the table and writes the new status, or
-- it raises the illegal-transition error and leaves status and database as they were; it does the
-- first exactly when the table has the transition.
pub call-Moves : (m : Method) (r : TaskRecord) → Moves r.status r.writes (target m) (call m r)
unfolding call mark_routed mark_running mark_failed mark_retry
call-Moves profile r = transition-Moves r _ _
call-Moves evaluate r = transition-Moves r _ _
call-Moves complete r = transition-Moves r _ _
call-Moves retry r = transition-Moves (record r { retry_count = r.retry_count + 1 }) _ _
call-Moves (route_to route) r = transition-Moves (record r { route = some route }) _ _
call-Moves (run_as run_id) r =
    let running = record r { run_id = some run_id } in
    then_log-Moves r.status r.writes _ _ _ refl (transition-Moves running _ _)
call-Moves (fail_with error) r =
    then_log-Moves r.status r.writes _ _ _ (failed_run-statuses r.run_id error)
      (transition-Moves r _ _)
call-Moves (abandon_for reason) r = transition-Moves r _ _

-- The statuses of a task from its creation on, the latest first, each step one of the table.
pub data IsHistory : TaskStatus → List TaskStatus → Type 0 where
  begun : IsHistory TaskStatus.received (TaskStatus.received ∷ [])
  moved :
      {old new : TaskStatus} {past : List TaskStatus}
      → IsHistory old past
      → is_allowed old new ≡ true
      → IsHistory new (new ∷ past)

call-IsHistory :
    (m : Method) (r : TaskRecord)
    → IsHistory r.status (statuses r.writes)
    → IsHistory (call m r).1.status (statuses (call m r).1.writes)
call-IsHistory m r past = elim (call-Moves m r) [
  | inl (allowed, _, now, wrote) ↦ rw (now, wrote) (moved past allowed)
  | inr (_, _, now, wrote) ↦ rw (now, wrote) past
]

calls-from :
    (ms : List Method) (r : TaskRecord)
    → IsHistory r.status (statuses r.writes)
    → IsHistory (calls ms r).status (statuses (calls ms r).writes)
unfolding calls
calls-from [] r past = past
calls-from (m ∷ ms) r past = calls-from ms (call m r).1 (call-IsHistory m r past)

-- Whatever methods are called on a fresh record, in whatever order, refused or not, the statuses
-- that the database received are a path of the transition table from RECEIVED to the record's status.
pub calls-IsHistory :
    (ms : List Method) (id : String)
    → IsHistory (calls ms (create id)).status (statuses (calls ms (create id)).writes)
unfolding create
calls-IsHistory ms id = calls-from ms (create id) begun

abbrev pub IsTerminal : TaskStatus → Type 0
IsTerminal s = (s ≡ TaskStatus.completed) ⊎ (s ≡ TaskStatus.abandoned)

terminal : (s new : TaskStatus) → IsTerminal s → is_allowed s new ≡ false
unfolding is_allowed transitions
terminal s new (inl h) = rw h refl
terminal s new (inr h) = rw h refl

-- A completed or abandoned task stays: whatever methods are called on it, its status and what it
-- wrote to the database do not change.
pub calls-IsTerminal :
    (ms : List Method) (r : TaskRecord)
    → IsTerminal r.status
    → ((calls ms r).status ≡ r.status) × ((calls ms r).writes ≡ r.writes)
unfolding calls
calls-IsTerminal [] r h = (refl, refl)
calls-IsTerminal (m ∷ ms) r h = elim (call-Moves m r) [
  | inl (allowed, _, _, _) ↦ cc (terminal r.status (target m) h)
  | inr (_, _, now, wrote) ↦
      let rest = calls-IsTerminal ms (call m r).1 (subst IsTerminal (sym now) h) in
      (rest.0 ∙ now, rest.1 ∙ wrote)
]
