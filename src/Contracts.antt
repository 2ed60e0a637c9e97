-- ===== src/Contracts.antt =====
-- The data that the parts of the orchestrator hand to one another (contracts/).
pub mod Runtime
pub mod Selection
pub mod Plan
pub mod Task
pub mod Subtasks
pub mod Experiment
