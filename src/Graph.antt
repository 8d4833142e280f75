-- ===== src/Graph.antt =====
-- The procedure graph store: graph/store.py.
pub mod Rows
pub mod Store
pub mod Ingested
pub mod Near
pub mod Within
mod Examples
