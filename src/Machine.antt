-- ===== src/Machine.antt =====
-- The outgoing requests of the OlmMachine: src/crypto/machine.rs.
pub mod Requests
pub mod Pump
pub mod PumpLaws
