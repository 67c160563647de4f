-- ===== src/PacketVerifier/Solana.antt =====
-- The trait SolanaNetwork of solana/src/lib.rs, as iot_packet_verifier calls it. The chain stands
-- outside the program: each call may move it on and may fail.
use oracles.Prelude.{ℕ, Bool, Call}

-- A `PublicKeyBinary` is only compared, so a number stands for it.
abbrev pub PublicKey : Type 0
PublicKey = ℕ

-- So is a transaction's `Signature`.
abbrev pub Signature : Type 0
Signature = ℕ

pub record SolanaNetwork (Chain Error Transaction : Type 0) : Type 0 where
  pub payer_balance : PublicKey → Call Chain Error ℕ
  pub make_burn_transaction : PublicKey → ℕ → Call Chain Error Transaction
  pub submit_transaction : Transaction → Call Chain Error (Unit {0})
  pub confirm_transaction : Signature → Call Chain Error Bool
  pub get_signature : Transaction → Signature
