-- ===== src/Config.antt =====
-- The configuration: src/config.rs.
pub mod Load
pub mod Endpoint
pub mod LoadLaws
