-- ===== src/Media.antt =====
-- Encrypted attachments: src/crypto/media.rs.
pub mod Cache
pub mod Rewrite
pub mod Transfer
pub mod RewriteLaws
pub mod TransferLaws
