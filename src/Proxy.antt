-- ===== src/Proxy.antt =====
-- src/proxy/
pub mod Routes
pub mod RouteShape
pub mod RoutePaths
pub mod Error
pub mod Handle
pub mod HeldBack
pub mod Passthrough
pub mod History
