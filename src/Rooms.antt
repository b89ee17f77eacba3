-- ===== src/Rooms.antt =====
-- src/crypto/rooms.rs
pub mod Tracker
pub mod Settings
pub mod Encryption
pub mod Laws
pub mod Asking
