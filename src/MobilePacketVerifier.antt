-- ===== src/MobilePacketVerifier.antt =====
-- mobile_packet_verifier: the sessions that are accumulated, and the credits that are burned for them.
pub mod Accumulate
pub mod Burner
mod Tests
