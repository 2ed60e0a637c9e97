-- ===== src/Planning.antt =====
-- The pure planning chain of orchestrator/: candidate assessment, runtime selection, execution mode,
-- plan composition, and the pipeline that joins them.
pub mod Filter
pub mod Selector
pub mod Mode
pub mod Composer
pub mod Intake
pub mod Hmc
pub mod Pipeline
