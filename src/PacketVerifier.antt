-- ===== src/PacketVerifier.antt =====
-- iot_packet_verifier: packets are charged to their payers, and the charges are burned on chain.
pub mod Solana
pub mod Balances
pub mod Pending
pub mod Burner
pub mod Orgs
pub mod Verifier
pub mod Monitor
mod Tests
