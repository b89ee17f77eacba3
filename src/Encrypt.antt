-- ===== src/Encrypt.antt =====
-- src/crypto/encrypt.rs
pub mod Content
pub mod Send
pub mod Closed
pub mod RoomMessage
