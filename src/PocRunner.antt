-- ===== src/PocRunner.antt =====
-- iot_verifier/src/runner.rs: beacons that are ready are verified with their witnesses, rewarded and
-- written out.
pub mod Select
pub mod Units
pub mod Reports
pub mod State
pub mod Conclude
pub mod Handler
pub mod Attempts
pub mod Steady
pub mod Concluded
pub mod Progress
pub mod Ticks
pub mod Verification
mod Tests
