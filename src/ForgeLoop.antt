-- ===== src/ForgeLoop.antt =====
-- The parts of the Forge Loop's audits (crates/runner-cli/src/forge_loop.rs) that decide from what
-- was read: check states, timestamps, idle gaps, the process tree, the queue, the evaluation.
pub mod Entries
pub mod Calendar
pub mod Checks
pub mod Eval
pub mod Manifest
pub mod Runs
pub mod Idle
pub mod Audits
pub mod Flow
pub mod Queue
pub mod Schema
pub mod Repository
pub mod Mining
pub mod Readiness
pub mod Components
pub mod Docs
pub mod Agentic
pub mod Sources
pub mod Invocation
pub mod Continuity
pub mod Publish
pub mod Processes
pub mod Fleet
