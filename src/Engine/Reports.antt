-- ===== src/Engine/Reports.antt =====
-- What a summary of orchestrator/engine.py must agree with, and the ways in which a stage ends.
use adaptive_agent_orchestra.Base.{
  ◌≡◌, refl, Bool, true, false, some, ◌⊎◌, inl, ◌∷◌, Error, err, String,
}
use adaptive_agent_orchestra.Evals.{EvalStatus}
use adaptive_agent_orchestra.State.{
  TaskStatus, TaskRecord, is_allowed, call, fail_with as fail_call, abandon_for, mark_failed,
}
use adaptive_agent_orchestra.State.Paths.{Moves, call-Moves}
use adaptive_agent_orchestra.Engine.Action.{Step, Session, Action}
use adaptive_agent_orchestra.Engine.Outside.{Answers}
use adaptive_agent_orchestra.Engine.Summary.{
  RunOutcome, Summary, Extra, Flow, done, go, continue_flow,
}
use adaptive_agent_orchestra.Engine.Submission.{fail_with, abandon_with, mark_abandoned}
use adaptive_agent_orchestra.Engine.Rules.{After, after, >>-After, on_record-After}
use adaptive_agent_orchestra.Engine.Quiet.{alive, contained, Contained}

abbrev pub status_of : RunOutcome → TaskStatus
status_of RunOutcome.completed = TaskStatus.completed
status_of RunOutcome.abandoned = TaskStatus.abandoned
status_of RunOutcome.failed = TaskStatus.failed
status_of RunOutcome.cancelled = TaskStatus.failed
status_of RunOutcome.timeout = TaskStatus.failed

abbrev pub is_completed : RunOutcome → Bool
is_completed RunOutcome.completed = true
is_completed _ = false

-- The outcome is that of the task's status; and where it is `completed`, the evaluation has passed
-- and no run is alive.
abbrev pub Reported : Summary → Session → Type 0
Reported summary s =
    (contained s.trail ≡ true)
    × (s.task.status ≡ status_of summary.outcome)
    × ((is_completed summary.outcome ≡ false)
        ⊎ ((summary.verification_status ≡ some EvalStatus.pass) × (alive s.trail ≡ false)))

-- A stage ends in a summary, or what follows starts from `P`.
abbrev pub Settled : {A : Type 0} → (Session → Type 0) → Flow A → Session → Type 0
Settled P (done summary) s = Reported summary s
Settled P (go value) s = P s

pub mark_failed-Moves :
    (r : TaskRecord) (reason : String)
    → Moves r.status r.writes TaskStatus.failed (mark_failed r reason)
unfolding call
mark_failed-Moves r reason = call-Moves (fail_call reason) r

mark_abandoned-Moves :
    (r : TaskRecord) → Moves r.status r.writes TaskStatus.abandoned (mark_abandoned r)
unfolding call
mark_abandoned-Moves r = call-Moves (abandon_for "") r

module _ {A : Type 0} {P E : Session → Type 0} where
  pub fail_with-After :
      (answers : Answers) (reason : String) (outcome : RunOutcome) (detail : String) (extra : Extra)
      (s : Session)
      → Contained s
      → status_of outcome ≡ TaskStatus.failed
      → is_completed outcome ≡ false
      → ((r : TaskRecord)
          → is_allowed s.task.status TaskStatus.failed ≡ false
          → E (record s { task = r }))
      → ((r : TaskRecord) (e : Error)
          → answers.save s.trail ≡ err e
          → E (record s { task = r; trail = (Step.save_record, false) ∷ s.trail }))
      → After (Settled {A = A} P) E (fail_with answers reason outcome detail extra s)
  unfolding contained alive
  fail_with-After answers reason outcome detail extra s c failing not_completed refused unsaved =
      >>-After {Q = λ s'. Contained s' × (s'.task.status ≡ TaskStatus.failed)} _ _ _
        (on_record-After _ _ _ (mark_failed-Moves s.task reason) (λ r now. (c, now)) refused
          unsaved)
        (λ s' (c', now). after (c', rw failing now, inl not_completed))

  pub abandon_with-After :
      (answers : Answers) (detail : String) (s : Session)
      → Contained s
      → ((r : TaskRecord) → E (record s { task = r }))
      → ((r : TaskRecord) → E (record s { task = r; trail = (Step.save_record, false) ∷ s.trail }))
      → After (Settled {A = A} P) E (abandon_with answers detail s)
  unfolding contained alive
  abandon_with-After answers detail s c refused unsaved =
      >>-After {Q = λ s'. Contained s' × (s'.task.status ≡ TaskStatus.abandoned)} _ _ _
        (on_record-After _ _ _ (mark_abandoned-Moves s.task) (λ r now. (c, now)) (λ r _. refused r)
          (λ r _ _. unsaved r))
        (λ s' (c', now). after (c', now, inl refl))

pub continue_flow-After :
    {A B : Type 0} (P : Session → Type 0) {R E : Session → Type 0} (next : A → Action (Flow B))
    (flow : Flow A) (s : Session)
    → Settled P flow s
    → ((value : A) → P s → After (Settled R) E (next value s))
    → After (Settled R) E (continue_flow next flow s)
continue_flow-After P next (done summary) s h k = after h
continue_flow-After P next (go value) s h k = k value h
