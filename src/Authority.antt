-- ===== src/Authority.antt =====
-- The authority of vocabulary and classification snapshots: bdd/authority.py.
pub mod Snapshots
pub mod Repeats
pub mod Sound
pub mod Valid
mod Examples
