-- ===== src/PacketVerifier/Burner/Ticks.antt =====
-- iot_packet_verifier/src/burner.rs: the loop of `Burner::run` leaves no transaction pending between
-- its ticks.
use mathlib.Core.Option
use oracles.Prelude.{
  List, [], ◌∷◌, ℕ, ◌≤◌, ◌≡◌, Option, Outcome, ok, err, panic, ◌==◌, if◌then◌else◌,
}
use oracles.PacketVerifier.Solana.{PublicKey, Signature, SolanaNetwork}
use oracles.PacketVerifier.Balances.{Burn}
use oracles.PacketVerifier.Pending.{PendingTxn, World}
use oracles.PacketVerifier.Pending.Sync.{InSync}
use oracles.PacketVerifier.Pending.Confirm.{Covered, Positive, pending_of}
use oracles.PacketVerifier.Burner.{BurnError}
use oracles.PacketVerifier.Burner.Recorded.{Recorded}

-- At most the one transaction of a burn is pending.
record Few {Chain : Type 0} (b : Burn) (w : World Chain) : Type 0 where
  positive : Positive w.db.tables.pending_txns
  few :
      (q : PublicKey)
      → pending_of q w.db.tables.pending_txns ≤ (if b.payer == q then b.amount else 0)

abbrev pushed : Burn → Signature → ℕ → PendingTxn
pushed b signature now = record {
  signature = signature;
  payer = b.payer;
  amount = b.amount;
  time_of_submission = now;
}

module _ {Chain E Transaction : Type 0} (net : SolanaNetwork Chain E Transaction) where
  abbrev Submitted : Burn → ℕ → Outcome (BurnError E) Transaction × World Chain → Type 0
  Submitted b now (ok txn, v) = v.db.tables.pending_txns ≡ pushed b (net.get_signature txn) now ∷ []
  Submitted b now (err e, v) = Few b v
  Submitted b now (panic, v) = Unit {0}

  abbrev Removed : List PendingTxn → Outcome (BurnError E) (Unit {0}) × World Chain → Type 0
  Removed ts (ok _, v) = v.db.tables.pending_txns ≡ []
  Removed ts (err _, v) = v.db.tables.pending_txns ≡ ts
  Removed ts (panic, v) = Unit {0}

  -- What a burn leaves pending.
  abbrev Leaves : Burn → Outcome (BurnError E) (Unit {0}) × World Chain → Type 0
  Leaves b (ok _, v) = v.db.tables.pending_txns ≡ []
  Leaves b (err _, v) = Few b v
  Leaves b (panic, v) = Unit {0}

  -- What `burn` leaves for a confirmation.
  abbrev Confirmable : Outcome (BurnError E) (Unit {0}) × World Chain → Type 0
  Confirmable (ok _, v) = v.db.tables.pending_txns ≡ []
  Confirmable (err _, v) = Covered v.cache.payer_accounts v.db.tables.pending_txns
  Confirmable (panic, v) = Unit {0}

  -- Between two ticks, the accounts and the table agree and no transaction is pending.
  abbrev pub Idle : World Chain → Type 0
  Idle w = InSync w × (w.db.tables.pending_txns ≡ [])
