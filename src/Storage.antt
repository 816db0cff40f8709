-- ===== src/Storage.antt =====
-- src/storage/: the tables, and the statements of `PostgresClient` on them.
pub mod Tables
pub mod Transactions
pub mod Review
pub mod Governance
pub mod Feedback
pub mod Trail
