-- ===== src/Engine.antt =====
-- orchestrator/engine.py.
pub mod Action
pub mod Outside
pub mod Summary
pub mod Submission
pub mod Stream
pub mod Ending
pub mod Execution
mod Rules
mod Keeps
mod Retries
mod Fuel
pub mod Terminates
pub mod Quiet
pub mod Reports
mod Streamed
mod Ended
mod Finished
mod Passes
pub mod Guarantees
