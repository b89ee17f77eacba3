-- ===== src/Admin.antt =====
-- The admin API: src/admin/mod.rs.
pub mod Params
pub mod Route
pub mod Handle
pub mod HandleLaws
pub mod Keys
pub mod KeysLaws
pub mod Query
pub mod QueryLaws
