-- ===== src/Repair.antt =====
-- src/crypto/repair.rs
pub mod Queue
pub mod Laws
pub mod Taking
pub mod Synthetic
pub mod Inject
pub mod SyntheticLaws
pub mod InjectLaws
