-- ===== src/Scoring.antt =====
-- Scoring: the routing policy, the rules, the model's input row, and one transaction's way through.
pub mod Decision
pub mod Fallback
pub mod FeatureRow
pub mod Inference
