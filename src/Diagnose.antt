-- ===== src/Diagnose.antt =====
-- The health checks of src/admin/diagnose.rs.
pub mod Checks
pub mod Proxy
pub mod Keys
pub mod Signing
pub mod Session
pub mod Summary
pub mod ProxyLaws
pub mod SessionLaws
pub mod SummaryLaws
pub mod Event
