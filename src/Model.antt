-- ===== src/Model.antt =====
-- backend/src/model.rs: run requests, their validation, and outcomes.
pub mod Types
pub mod Errors
pub mod Limits
pub mod Path
pub mod Cases
pub mod Request
pub mod Deadline
