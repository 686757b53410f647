-- ===== src/RunnerState.antt =====
-- What a path under the runner's root is taken for: parse_git_status_paths, classify_path and
-- RunnerStateSlots of crates/runner-cli/src/runner_state.rs.
pub mod Disk
pub mod Class
pub mod Audit
pub mod Normalize
pub mod Kept
pub mod Runtime
pub mod Dedupe
