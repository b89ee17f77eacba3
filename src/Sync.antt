-- ===== src/Sync.antt =====
-- src/crypto/sync.rs
pub mod Seen
pub mod SeenLaws
pub mod Receive
pub mod ReceiveLaws
pub mod Redelivery
pub mod Outcome
pub mod Handle
