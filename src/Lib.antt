-- ===== src/Lib.antt =====
-- Verification of the planning and control core of the adaptive agent orchestrator.
--
-- The orchestrator takes a task contract, derives what the task needs, chooses one of the supplied
-- agent runtimes and an execution mode for it, and runs the task or its subtasks under a budget.
--
-- Parts and files (paths are from the repository's root):
--   - Contracts/Runtime: contracts/requirements.py, contracts/runtime_health.py,
--     contracts/task_profile.py, and the capability flags of adapters/runtime.py.
--   - Contracts/Selection, Contracts/Plan: contracts/runtime_selection.py,
--     contracts/execution_mode.py, contracts/runtime_plan.py: policies, decisions and plans with
--     their validators.
--   - Contracts/Task, Contracts/Subtasks: contracts/task.py: the task and its subtask plan, with the
--     depth-first walk that looks for cycles.
--   - Contracts/Experiment: contracts/experiment_profile.py: the identities of profiles, budgets and
--     tasks over a digest of JSON values, and the validators of the evidence.
--   - Planning/Intake, Planning/Filter, Planning/Selector, Planning/Mode, Planning/Composer:
--     task_intake.py, candidate_filter.py, runtime_selector.py, execution_mode_policy.py and
--     runtime_plan_composer.py of orchestrator/. Planning/Pipeline is planning_pipeline.py, which
--     composes them. Planning/Hmc is hmc_planning.py and hmc_planner_consumer.py.
--   - Budget, Budget/Policy: orchestrator/budget.py and orchestrator/execution_policy.py.
--     Budget/Children is the part of `DelegationExecutor._run_child` in
--     orchestrator/delegation_executor.py that shares the budget between concurrent children.
--   - State: orchestrator/state_machine.py; State/Machine is its registry with the shared records.
--   - Routing: orchestrator/router.py; Routing/Profiler is orchestrator/profiler.py and the engine's
--     call of the router by a profile. Registry: orchestrator/runtime_registry.py. Evals:
--     contracts/evaluation.py; Evals/Paths, Evals/Criteria, Evals/Scans and Evals/Gate are the checks and
--     the run of evals/gate.py with evals/verifier.py and the outcomes of contracts/execution.py.
--   - Delegation: contracts/delegation.py, contracts/result.py, and the retry and aggregation helpers
--     of orchestrator/delegation_executor.py. Delegation/Dag is its `_execute_dag`: the waves of
--     subtasks, over whatever `asyncio.gather` of the child runs answers.
--   - Engine: orchestrator/engine.py and the workspace protocol of orchestrator/workspace.py.
--     Engine/Action has the actions: a session (task record, budget, workspace flag, the calls made so
--     far) and exceptions that keep it. Engine/Outside has what is called and `ExecutionWorkspace`
--     with `_cancel_and_confirm_terminal`; Engine/Summary is `_summary`; Engine/Submission,
--     Engine/Stream and Engine/Ending are the stages of `_execute_single`, and Engine/Execution
--     composes them into `_execute` and `run`. Engine/Rules, Engine/Reports and Engine/Keeps are the
--     rules by which Engine/Quiet to Engine/Guarantees and Engine/Retries to Engine/Terminates reason
--     about the stages.
--   - Base holds the shared helpers, Tests the concrete inputs.
--
-- How code becomes a definition:
--   - A pydantic model is a record, and its validators are a function that gives the record back or
--     an error. Pydantic collects the errors of several fields; the function gives the first.
--   - A raised exception is an `err` with its class and text. Some texts that list values are shorter
--     here; no theorem depends on them.
--   - A method that mutates `self` gives the new record. A method of `TaskRecord` gives its result
--     beside the new record, since an exception keeps what was assigned before it.
--   - The awaits of concurrent child runs are the borders of steps, and an interleaving is a list of
--     steps.
--   - Sets and dicts that are only searched are lists; the keys of the search are unique where the
--     code makes them so. Time stamps and log lines are left out.
--
-- Bounds: numbers are unbounded, as Python's are. The walk over the subtask graph recurses on fuel,
-- one more than the number of subtasks: the nodes that it is visiting are distinct subtasks. The
-- waves of subtasks run on fuel too, one more than the number of children: a round takes a child.
-- `_execute` calls itself for a retry, which is counted by fuel, more than `max_retries`.
--
-- Outside the model: the package `model_council` is a parameter, the record `Council`, as is
-- `str.casefold`, `str.lower`, the search for a regular expression, the digest of canonical JSON, and the text of a dict and of a criterion for the router. Runtime adapters,
-- storage, telemetry and the command line are I/O; what the engine calls of them, of git and of the
-- evaluation gate is an answer that may depend in any way on the calls before it, or an exception. The
-- database writes of a task record are such answers too, and may raise after the record has changed; in
-- State, which looks at the record alone, they are taken to return. An execution of the engine ends where the
-- source calls `_execute_delegation`. What pathlib, fnmatch, git, the processes and the files answer to
-- the gate is a parameter. The rest of a child's run and the workspaces' git commands are not modelled.
pub mod Base
pub mod Contracts
pub mod Planning
pub mod Budget
pub mod State
pub mod Delegation
pub mod Engine
pub mod Evals
pub mod Registry
pub mod Routing
pub mod Tests
