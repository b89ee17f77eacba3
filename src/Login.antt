-- ===== src/Login.antt =====
-- The choice of the device of a login: src/crypto/device.rs and src/proxy/login.rs.
pub mod Stores
pub mod Plan
pub mod Chosen
pub mod Sent
