-- ===== src/Governance.antt =====
-- The local evidence store (governance/adapters/sqlite.py): its rows, its sessions, the audit
-- chain and the methods. The proofs are in the children.
pub mod Rows
pub mod Session
pub mod Actions
pub mod Audit
pub mod Tables
pub mod Admission
pub mod Baselines
pub mod Comparisons
pub mod Bindings
pub mod Batches
pub mod Preserves
pub mod Trace
pub mod Found
pub mod Admitted
pub mod Readmitted
mod Examples
