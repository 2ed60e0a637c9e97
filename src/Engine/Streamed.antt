-- ===== src/Engine/Streamed.antt =====
-- Containment through the event stream of orchestrator/engine.py: a run that may be alive keeps its
-- workspace, whatever the stream, the terminal status and the quiescence do, where the failure of the
-- quiescence is written.
use adaptive_agent_orchestra.Base.{
  ◌≡◌, refl, ◌∙◌, Bool, true, false, ◌⊎◌, inl, inr, Option, some, none, List, [], ◌∷◌, String,
  Error, Result, ok, err, arith,
}
use adaptive_agent_orchestra.Delegation.{RunStatus, AgentResult}
use adaptive_agent_orchestra.State.{TaskStatus, is_allowed, transitions}
use adaptive_agent_orchestra.Engine.Action.{Step, Trail, ◌>>◌, Session, Action, raise}
use adaptive_agent_orchestra.Engine.Outside.{EventType, Answers, is_terminal, rollback}
use adaptive_agent_orchestra.Engine.Summary.{RunOutcome, no_extra, runtime_terminal_outcome, Flow}
use adaptive_agent_orchestra.Engine.Submission.{write, fail_with}
use adaptive_agent_orchestra.Engine.Stream.{
  after_quiet, await_quiet, await_result, watch, abort_stream, stream_stage,
}
use adaptive_agent_orchestra.Engine.Rules.{
  After, after, After-imp, >>=-After, >>-After, try_except-After, when-After, ask-After,
  branch-After,
}
use adaptive_agent_orchestra.Engine.Quiet.{
  alive, contained, Contained, Quiet, rollback-After, cancel_and_confirm_terminal-After,
}
use adaptive_agent_orchestra.Engine.Reports.{
  Settled, status_of, is_completed, fail_with-After, continue_flow-After,
}

-- The task runs.
abbrev pub Running : Session → Type 0
Running s = (contained s.trail ≡ true) × (s.task.status ≡ TaskStatus.running)

-- The writes of the task's record return where they come right after a quiescence that has failed.
abbrev pub Recorded : Answers → Type 0
Recorded answers = (trail : Trail) → answers.save ((Step.quiesce, false) ∷ trail) ≡ ok tt

-- And nothing has confirmed that the run has ended.
abbrev pub Streaming : Session → Type 0
Streaming s = Running s × (s.terminal_confirmed ≡ false)

-- What the handler relies on: if the end is confirmed, the run is quiet.
abbrev Abortable : Session → Type 0
Abortable s =
    (contained s.trail ≡ true) × ((s.terminal_confirmed ≡ false) ⊎ (alive s.trail ≡ false))

-- What the handler relies on where the writes are taken to return that follow a failed quiescence.
abbrev AbortableIf : Answers → Session → Type 0
AbortableIf answers s = Recorded answers → Abortable s

-- Containment where those writes are taken to return.
abbrev pub ContainedIf : Answers → Session → Type 0
ContainedIf answers s = Recorded answers → Contained s

pub if_recorded :
    {A : Type 0} {Q : A → Session → Type 0} (answers : Answers) (x : Result A × Session)
    → After Q Contained x
    → After Q (ContainedIf answers) x
if_recorded answers x h = After-imp x h (λ _ s k. k) (λ s c _. c)

-- An action that raises in every case.
abbrev Raises : {A : Type 0} → Result A × Session → Type 0
Raises x = After (λ _ _. ⊥) (λ _. Unit) x

Raises-After :
    {A : Type 0} {Q : A → Session → Type 0} (answers : Answers) (x : Result A × Session)
    → Raises x
    → (Recorded answers → After Q Contained x)
    → After Q (ContainedIf answers) x
Raises-After answers (ok value, s) no_value k = absurd no_value.holds
Raises-After answers (err e, s) no_value k = after (λ recorded. (k recorded).holds)

anything : {A : Type 0} (x : Result A × Session) → After (λ _ _. Unit) (λ _. Unit) x
anything (ok value, s) = after tt
anything (err e, s) = after tt

running_may_fail : is_allowed TaskStatus.running TaskStatus.failed ≡ true
unfolding is_allowed transitions
running_may_fail = refl

module _ (answers : Answers) where
  -- A rollback of a quiet run, and then a failure.
  end_failed :
      {A : Type 0} (reason : String) (outcome : RunOutcome) (detail : String) (s : Session)
      → status_of outcome ≡ TaskStatus.failed
      → is_completed outcome ≡ false
      → Quiet s
      → After
          (Settled {A = A} Quiet)
          (AbortableIf answers)
          ((rollback answers >> fail_with answers reason outcome detail no_extra) s)
  unfolding contained alive
  end_failed reason outcome detail s failing not_completed quiet =
      >>-After {E = AbortableIf answers} {Q = Quiet} _ _ _
        (After-imp _ (rollback-After answers s quiet) (λ _ s' q. q) (λ s' (c, q) _. (c, inr q)))
        (λ s' (c, q).
          fail_with-After answers _ _ _ no_extra _ c failing not_completed (λ r _ _. (c, inr q))
            (λ r _ _ _. (c, inr q)))

  after_quiet-After :
      (result : AgentResult) (status : RunStatus) (s : Session)
      → Quiet s
      → After
          (Settled Quiet)
          (AbortableIf answers)
          (after_quiet answers result (runtime_terminal_outcome status) s)
  unfolding runtime_terminal_outcome contained alive
  after_quiet-After result RunStatus.completed s (c, q) =
      >>=-After {Q = λ _. Quiet} _ _ _ (ask-After _ _ _ (λ _. (c, q)) (λ _. (c, inr q)))
        (λ _ s' h. after h)
  after_quiet-After result RunStatus.cancelled s quiet =
      end_failed _ RunOutcome.cancelled _ s refl refl quiet
  after_quiet-After result RunStatus.timeout s quiet =
      end_failed _ RunOutcome.timeout _ s refl refl quiet
  after_quiet-After result _ s quiet = end_failed _ RunOutcome.failed _ s refl refl quiet

  -- Where the quiescence fails, the task is marked and the workspace stays.
  await_quiet-After :
      (s : Session)
      → Running s
      → After (Settled {A = Bool} Quiet) (AbortableIf answers) (await_quiet answers s)
  unfolding contained alive
  await_quiet-After s (c, running) =
      try_except-After {F = λ s'. Running s' × (Recorded answers → answers.save s'.trail ≡ ok tt)} _
        _ _
        (>>-After {Q = Quiet} _ _ _
          (ask-After _ _ _ (λ _. (c, refl)) ((c, running), (λ recorded. recorded s.trail)))
          (λ s' h. after h))
        (λ e s' ((c', running'), saved).
          fail_with-After answers _ _ _ no_extra _ c' refl refl
            (λ r refused. cc (running_may_fail, rw running' at refused))
            (λ r problem raised recorded. cc (saved recorded, raised)))

  await_result-After :
      (s : Session)
      → Streaming s
      → After (Settled Quiet) (AbortableIf answers) (await_result answers s)
  unfolding await_result contained alive
  await_result-After s ((c, running), unconfirmed) =
      >>=-After {Q = λ _. Running} _ _ _
        (ask-After _ _ _ (λ _. (c, running)) (λ _. (c, inl unconfirmed)))
        (λ result s1 (c1, running1).
          >>-After {Q = λ s'. Running s' × (s'.terminal_confirmed ≡ is_terminal result.status)} _ _
            _ (after ((c1, running1), refl))
            (λ s2 ((c2, running2), confirmed).
              >>-After {Q = Running} _ _ _
                (when-After _ _ _ (λ unended. after (λ _. (c2, inl (ground arith))))
                  (λ _. (c2, running2)))
                (λ s3 running3. >>=-After _ _ _ (await_quiet-After s3 running3) (λ flow s4 settled.
                  continue_flow-After Quiet _ flow s4 settled
                    (λ _ quiet. after_quiet-After result result.status s4 quiet)))))

  written :
      {A : Type 0} {Q : A → Session → Type 0} {next : Action A} (s : Session)
      → Streaming s
      → ((s' : Session) → Streaming s' → After Q (AbortableIf answers) (next s'))
      → After Q (AbortableIf answers) ((write answers >> next) s)
  unfolding contained alive
  written s ((c, running), unconfirmed) k =
      >>-After {Q = Streaming} _ _ _
        (ask-After _ _ _ (λ _. ((c, running), unconfirmed)) (λ _. (c, inl unconfirmed))) k

  watch-After :
      (events : List EventType) (end : Option Error) (s : Session)
      → Streaming s
      → After
          (Settled Quiet)
          (AbortableIf answers)
          (watch answers events end (await_result answers) s)
  unfolding watch contained alive
  watch-After [] none s streaming = await_result-After s streaming
  watch-After [] (some e) s ((c, running), unconfirmed) = after (λ _. (c, inl unconfirmed))
  watch-After (EventType.approval_request ∷ events) end s streaming =
      written s streaming (λ s1 ((c, running), unconfirmed).
        >>-After {E = AbortableIf answers} {Q = Quiet} _ _ _
          (After-imp _ (cancel_and_confirm_terminal-After answers s1 c) (λ _ s' q. q)
            (λ s' (c', same) _. (c', inl (same ∙ unconfirmed))))
          (λ s2 (c2, q2).
            >>-After {E = AbortableIf answers} {Q = Quiet} _ _ _ (after (c2, q2))
              (λ s3 quiet3. end_failed _ RunOutcome.failed _ s3 refl refl quiet3)))
  watch-After (EventType.completed ∷ events) end s streaming =
      written s streaming await_result-After
  watch-After (EventType.error ∷ events) end s streaming = written s streaming await_result-After
  watch-After (event ∷ events) end s streaming = written s streaming (watch-After events end)

  raise_after_rollback :
      {A : Type 0} (e : Error) (s : Session)
      → Quiet s
      → After {A = Flow A} (Settled Quiet) Contained ((rollback answers >> raise e) s)
  raise_after_rollback e s quiet =
      >>-After {E = Contained} {Q = Quiet} _ _ _
        (After-imp _ (rollback-After answers s quiet) (λ _ s' q. q) (λ s' (c, q). c))
        (λ s' (c, q). after c)

  abort_stream-After :
      {A : Type 0} (e : Error) (s : Session)
      → Abortable s
      → After {A = Flow A} (Settled Quiet) Contained (abort_stream answers e s)
  unfolding abort_stream
  abort_stream-After e s (c, confirmed_if) =
      branch-After _ _ _ _
        (λ confirmed. raise_after_rollback e s (c, settled confirmed confirmed_if))
        (λ _.
          >>-After {E = Contained} {Q = Quiet} _ _ _
            (try_except-After {F = Contained} _ _ _
              (>>-After {E = Contained} {Q = Quiet} _ _ _
                (After-imp _ (cancel_and_confirm_terminal-After answers s c) (λ _ s' q. q)
                  (λ s' (c', _). c'))
                (λ s' q. after q))
              (λ problem s' c'. after c'))
            (raise_after_rollback e))
    where
      settled : {flag quiet : Bool} → flag ≡ true → (flag ≡ false) ⊎ (quiet ≡ false) → quiet ≡ false
      settled confirmed (inl unconfirmed) = cc
      settled confirmed (inr quiet) = quiet

  abort_stream-Raises :
      (A : Type 0) (e : Error) (s : Session) → Raises {A = Flow A} (abort_stream answers e s)
  unfolding abort_stream
  abort_stream-Raises A e s =
      branch-After _ _ _ _ (λ _. >>-After {Q = λ _. Unit} _ _ _ (anything _) (λ s' _. after tt))
        (λ _.
          >>-After {Q = λ _. Unit} _ _ _ (anything _)
            (λ s1 _. >>-After {Q = λ _. Unit} _ _ _ (anything _) (λ s' _. after tt)))

  pub stream_stage-After :
      (s : Session)
      → Streaming s
      → After (Settled Quiet) (ContainedIf answers) (stream_stage answers s)
  unfolding stream_stage contained alive
  stream_stage-After s ((c, running), unconfirmed) =
      try_except-After {F = AbortableIf answers} _ _ _
        (>>=-After {Q = λ _. Streaming} _ _ _
          (ask-After _ _ _ (λ _. ((c, running), unconfirmed)) (λ _. (c, inl unconfirmed)))
          (λ seen s' streaming. watch-After seen.0 seen.1 s' streaming))
        (λ e s' abortable.
          Raises-After answers _ (abort_stream-Raises _ e s')
            (λ recorded. abort_stream-After e s' (abortable recorded)))
