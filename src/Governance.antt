-- ===== src/Governance.antt =====
-- Model governance: the registry behind its approval gate, and automated promotion.
pub mod Registry
pub mod Promotion
