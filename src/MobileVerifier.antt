-- ===== src/MobileVerifier.antt =====
-- mobile_verifier: the averages of speed tests, and the rewards for coverage.
pub mod Speedtests
pub mod Coverage
mod Tests
