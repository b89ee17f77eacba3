-- ===== src/Examples.antt =====
-- Concrete parameters and inputs, on which the library's theorems are applied.
pub mod Tree
pub mod Parts
pub mod Syncing
pub mod Rooming
pub mod Sessions
pub mod Logins
pub mod Crypto
pub mod Events
pub mod Proxying
pub mod Checking
pub mod Administering
