-- ===== src/Decision.antt =====
-- Evaluation of an extracted decision model (decision/).
pub mod Model
pub mod Evaluator
pub mod FirstMatch
mod Examples
