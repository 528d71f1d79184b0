-- ===== src/Workspace.antt =====
-- src/rfi/workspace/: the append-only journal of consulting investigations. `State` has the files
-- and the events, `Redact` the removal of secrets, `Verify` the integrity report, `Journal` the
-- reading and the appending of events, `Operations` what operators call. The proofs are in the
-- other modules.
pub mod State
pub mod Redact
pub mod Verify
pub mod Journal
pub mod Operations
pub mod Chain
pub mod Append
pub mod Lifecycle
pub mod Safety
pub mod Summary
pub mod Redaction
pub mod Recovery
mod Tests
