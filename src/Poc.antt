-- ===== src/Poc.antt =====
-- iot_verifier/src/poc.rs: the verification of beacon reports and of the witness reports to them.
pub mod Types
pub mod Externals
pub mod Checks
pub mod Beacon
pub mod Witness
pub mod Tests
