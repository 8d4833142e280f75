-- ===== src/Analysis.antt =====
-- The analyses of a parsed procedure: analysis.
pub mod Records
pub mod Boundaries
pub mod Survival
pub mod Transaction
pub mod Paths
pub mod Survived
pub mod Classified
pub mod Committed
pub mod Modality
pub mod Obliged
pub mod Nullability
pub mod Joined
pub mod Merged
pub mod Listed
pub mod Enclosed
pub mod Depth
pub mod Nested
mod Examples
mod NestedExamples
mod JoinedExamples
