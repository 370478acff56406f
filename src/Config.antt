-- ===== src/Config.antt =====
-- backend/src/config.rs: the checked conversion of raw settings into typed ones. Reading YAML and the
-- environment is the `config` crate's.
pub mod Fields
pub mod Values
pub mod Raw
pub mod Settings
pub mod Converts
pub mod Runnable
pub mod Sound
pub mod Payload
