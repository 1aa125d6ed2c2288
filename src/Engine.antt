-- ===== src/Engine.antt =====
-- internal/engine: run sequencing, outcomes, cleanup and recovery.
pub mod Preparation
pub mod HostClock
pub mod Privileges
pub mod Outcome
pub mod StepCall
pub mod Runtime
pub mod Run
pub mod Recovery
