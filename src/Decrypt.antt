-- ===== src/Decrypt.antt =====
-- The decryption of what the homeserver answers: src/crypto/decrypt.rs.
pub mod Event
pub mod Placeholder
pub mod EventLaws
pub mod PlaceholderLaws
pub mod KeyRequests
pub mod KeyRequestsLaws
pub mod Bodies
pub mod BodiesLaws
