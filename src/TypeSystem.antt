-- ===== src/TypeSystem.antt =====
-- Resolution of SQL types from several sources (type_system/).
pub mod Types
pub mod Resolver
pub mod Resolved
mod Examples
