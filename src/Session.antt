-- ===== src/Session.antt =====
-- src/session.rs, and what it uses of src/crypto/device.rs and src/crypto/machine.rs.
pub mod Paths
pub mod Device
pub mod Manager
pub mod Laws
pub mod Keys
pub mod Refusals
