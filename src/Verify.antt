-- ===== src/Verify.antt =====
-- src/crypto/verify.rs
pub mod Log
pub mod LogLaws
pub mod Stage
pub mod StageLaws
