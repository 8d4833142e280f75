-- ===== src/Runtime.antt =====
-- Live verification (runtime/): the static safety assessment and the executor's checks.
pub mod Kinds
pub mod Safety
pub mod Executor
pub mod Assessed
pub mod Contained
pub mod Verify
pub mod Reconcile
pub mod Planning
pub mod Planned
pub mod Paired
pub mod Reconciled
mod Examples
