-- ===== src/PacketVerifier/Pending/Confirm.antt =====
-- iot_packet_verifier/src/pending.rs: what `confirm_pending_txns` does to the tables and the cache.
use oracles.Prelude.{
  true, List, [], ◌∷◌, ◌⊎◌, ℕ, ◌+◌, ◌≤◌, ◌<◌, ◌≡◌, Outcome, ok, err, panic, lookup, insert, update,
  if◌then◌else◌, ◌==◌, Dict,
}
use oracles.PacketVerifier.Solana.{PublicKey, SolanaNetwork}
use oracles.PacketVerifier.Balances.{PayerAccount}
use oracles.PacketVerifier.Balances.Debit.{burned_of}
use oracles.PacketVerifier.Pending.{
  PendingTxn, World, ConfirmPendingError, without_signature, has_signature,
}
use oracles.PacketVerifier.Pending.Sync.{InSync, lowered, settled}

-- What the transactions of a payer would take, were they all confirmed.
unfoldable pub pending_of : PublicKey → List PendingTxn → ℕ
pending_of q [] = 0
pending_of q (t ∷ ts) = (if t.payer == q then t.amount else 0) + pending_of q ts

abbrev pub Positive : List PendingTxn → Type 0
Positive [] = Unit {0}
Positive (t ∷ ts) = (0 < t.amount) × Positive ts

-- Each transaction burns something, and together they burn no more than their payer owes.
pub record Covered (accounts : Dict PayerAccount) (txns : List PendingTxn) : Type 0 where
  pub positive : Positive txns
  pub enough : (q : PublicKey) → pending_of q txns ≤ burned_of (lookup q accounts)

-- The signatures of a list are taken off one by one.
unfoldable pub without_each : List PendingTxn → List PendingTxn → List PendingTxn
without_each [] us = us
without_each (t ∷ ts) us = without_each ts (without_signature t.signature us)

module _ {Chain E Transaction : Type 0} (net : SolanaNetwork Chain E Transaction) where
  -- A pending transaction is taken off the table; if the chain confirms it, its amount is taken off
  -- both sides.
  abbrev Settled :
      PendingTxn
      → ℕ
      → PayerAccount
      → World Chain
      → Outcome (ConfirmPendingError E) (Unit {0}) × World Chain
      → Type 0
  Settled t now account w (ok _, w') =
      (w'.db.tables.pending_txns ≡ without_signature t.signature w.db.tables.pending_txns)
      × (((w'.db.tables.pending_burns ≡ w.db.tables.pending_burns)
            × (w'.cache.payer_accounts ≡ w.cache.payer_accounts))
          ⊎ ((w'.db.tables.pending_burns
                ≡ update t.payer (lowered t.amount now) w.db.tables.pending_burns)
              × (w'.cache.payer_accounts
                  ≡ insert t.payer (settled t.amount account) w.cache.payer_accounts)))
  Settled t now account w (err _, w') = Unit {0}
  Settled t now account w (panic, w') = ⊥

  abbrev Confirmed :
      List PendingTxn
      → World Chain
      → Outcome (ConfirmPendingError E) (Unit {0}) × World Chain
      → Type 0
  Confirmed ts w (ok _, w') =
      InSync w' × (w'.db.tables.pending_txns ≡ without_each ts w.db.tables.pending_txns)
  Confirmed ts w (err _, w') = Unit {0}
  Confirmed ts w (panic, w') = ⊥

-- Every signature of `us` stands in `ts`.
abbrev Listed : List PendingTxn → List PendingTxn → Type 0
Listed ts [] = Unit {0}
Listed ts (u ∷ us) = (has_signature u.signature ts ≡ true) × Listed ts us

module _ {Chain E Transaction : Type 0} (net : SolanaNetwork Chain E Transaction) where
  -- What `confirm_pending_txns` has done, by how it ended.
  abbrev pub AllConfirmed : Outcome (ConfirmPendingError E) (Unit {0}) × World Chain → Type 0
  AllConfirmed (ok _, w') = InSync w' × (w'.db.tables.pending_txns ≡ [])
  AllConfirmed (err _, w') = Unit {0}
  AllConfirmed (panic, w') = ⊥
