-- ===== src/Api.antt =====
-- The endpoints of src/api/routes/ but the batch upload, and the access to them.
pub mod Auth
pub mod Score
pub mod Review
pub mod Health
pub mod Explain
