-- ===== src/Engine/Outside.antt =====
-- What a task's execution calls: the runtime, the workspace's git commands, the evaluation gate, the
-- user and the telemetry, each as an answer to the calls so far; and the two protocols over them, the
-- workspace of orchestrator/workspace.py and the confirmed cancellation of orchestrator/engine.py.
use adaptive_agent_orchestra.Base.{
  Bool, true, false, Option, List, String, Result, Error, runtime_error,
}
use adaptive_agent_orchestra.Delegation.{RunStatus, Usage, AgentResult}
use adaptive_agent_orchestra.Evals.{EvalCheck, EvalResult}
use adaptive_agent_orchestra.Engine.Action.{
  Step, Trail, Action, pure, raise, ◌>>=◌, ◌>>◌, try_except, branch, ask, set_cleaned,
}

pub data EventType : Type 0 where
  message tool_start tool_complete approval_request clarify_request : EventType
  subagent_started subagent_completed usage error completed : EventType

-- What `_prepare_hmc_planning` gives, where it has an executable plan: the plan's executor and
-- whether its mode is `direct`, and the runtime that was selected.
pub record Planned : Type 0 where
  pub executor : Option String
  pub is_direct : Bool
  pub selected_runtime : Option String

-- `stream` gives the events and how the stream ends; `check_paths` is the path check of evals/gate.py, `check_root` that of
-- `WorkspaceManager.rollback`, and `prepare_planning` is empty where there is no executable plan.
pub record Answers : Type 0 where
  pub create_workspace : Trail → Result String
  pub remove_artifacts : Trail → Result (Unit {0})
  pub deliver : Trail → Result (Unit {0})
  pub changed_files : Trail → Result (List String)
  pub capture : Trail → Result (Unit {0})
  pub check_root : Trail → Result (Unit {0})
  pub baseline_changes : Trail → Result (List String)
  pub submit : Trail → Result String
  pub stream : Trail → Result (List EventType × Option Error)
  pub cancel : Trail → Result (Unit {0})
  pub wait : Trail → Result AgentResult
  pub quiesce : Trail → Result (Unit {0})
  pub read_usage : Trail → Result Usage
  pub evaluate : Trail → Result EvalResult
  pub check_paths : List String → EvalCheck
  pub prepare_planning : Trail → Result (Option Planned)
  pub prompt_user : Trail → Result Bool
  pub write : Trail → Result (Unit {0})
  pub save : Trail → Result (Unit {0})

abbrev pub is_runtime_error : Error → Bool
is_runtime_error (runtime_error _) = true
is_runtime_error _ = false

abbrev pub is_terminal : RunStatus → Bool
is_terminal RunStatus.completed = true
is_terminal RunStatus.failed = true
is_terminal RunStatus.cancelled = true
is_terminal RunStatus.timeout = true
is_terminal _ = false

module _ (answers : Answers) where
  -- ## `ExecutionWorkspace`

  -- The git commands that remove the worktree, its branch and what is staged.
  abbrev pub remove : Action (Unit {0})
  remove = do ask Step.remove_artifacts answers.remove_artifacts; set_cleaned true

  -- `rollback`; `cleanup` differs in the commands alone.
  unfoldable pub rollback : Action (Unit {0})
  rollback s = branch s.cleaned (pure tt) remove s

  unfoldable pub cleanup : Action (Unit {0})
  cleanup s = branch s.cleaned (pure tt) remove s

  -- `with contextlib.suppress(RuntimeError): self.rollback()`, then `raise`.
  abbrev pub suppressed_rollback : Error → Action (Unit {0})
  suppressed_rollback e = do
    try_except rollback (λ problem. branch (is_runtime_error problem) (pure tt) (raise problem))
    raise e

  -- Staging, the checks and the update of the root's ref are the step `deliver`.
  unfoldable pub integrate : Action (Unit {0})
  unfolding rollback cleanup
  integrate s =
      branch s.cleaned (raise (runtime_error "execution workspace is already cleaned"))
        (try_except (do ask Step.deliver answers.deliver; cleanup) suppressed_rollback) s

  -- ## `Orchestrator._cancel_and_confirm_terminal`

  -- What the call's exception is kept for is its text.
  abbrev pub try_cancel : Action (Unit {0})
  try_cancel = try_except (ask Step.cancel answers.cancel) (λ e. pure tt)

  abbrev pub confirm_quiesced : RunStatus → Action (Unit {0})
  confirm_quiesced status =
      branch (is_terminal status)
        (try_except (ask Step.quiesce answers.quiesce) (λ e.
          raise
            (runtime_error "runtime quiescence could not be established after terminal status")))
        (raise (
          runtime_error
            "runtime quiescence could not be established: wait returned non-terminal status"))

  unfoldable pub cancel_and_confirm_terminal : Action (Unit {0})
  cancel_and_confirm_terminal = do
    try_cancel
    result ← try_except (ask Step.wait answers.wait) (λ e.
        raise (
          runtime_error
            "runtime quiescence could not be established: terminal confirmation failed"))
    confirm_quiesced result.status
