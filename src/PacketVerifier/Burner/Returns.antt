-- ===== src/PacketVerifier/Burner/Returns.antt =====
-- Burner::burn of iot_packet_verifier/src/burner.rs returns where nothing that it calls fails.
use mathlib.Core.Option
use oracles.Prelude.{ℕ, ◌≡◌, refl, [], Option, none, some, ok, done, lookup, arith}
use oracles.PacketVerifier.Solana.{PublicKey, SolanaNetwork}
use oracles.PacketVerifier.Balances.{PayerAccount, Burn}
use oracles.PacketVerifier.Pending.{
  BurnRow, World, statement, oldest_burn, fetch_next_burn, burn_from_row, has_signature,
  add_pending_transaction, begin, remove_pending_transaction, subtract_burned_amount, commit,
}
use oracles.PacketVerifier.Pending.Sync.{with_faults, InSync, oldest_burn-row}
use oracles.PacketVerifier.Burner.{BurnClock, submit_burn, record_burn, burn_next, burn}
use oracles.PacketVerifier.Burner.Sync.{owed}

-- The chain makes and takes every transaction.
pub record Taking {Chain E Transaction : Type 0} (net : SolanaNetwork Chain E Transaction)
    : Type 0 where
  pub make_burn_transaction :
      (payer : PublicKey) (amount : ℕ) (c : Chain)
      → (txn : Transaction) × (c' : Chain) × (net.make_burn_transaction payer amount c
          ≡ (done txn, c'))
  pub submit_transaction :
      (txn : Transaction) (c : Chain)
      → (c' : Chain) × (net.submit_transaction txn c ≡ (done tt, c'))

module _ {Chain E Transaction : Type 0} (net : SolanaNetwork Chain E Transaction)
    (taking : Taking net) where
  burn_some-ok :
      (clock : BurnClock) (b : Burn) (account : PayerAccount) (w : World Chain)
      → lookup b.payer w.cache.payer_accounts ≡ some account
      → w.db.faults ≡ []
      → w.db.tables.pending_txns ≡ []
      → (burn_next net clock (some b) w).0 ≡ ok tt
  unfolding burn_next submit_burn record_burn statement has_signature add_pending_transaction begin
      remove_pending_transaction subtract_burned_amount commit
  burn_some-ok clock b account w known f e =
      let (txn, c, made) = taking.make_burn_transaction b.payer b.amount w.cache.chain in
      let (c', sent) = taking.submit_transaction txn c in ground arith

  burn_next-ok :
      (clock : BurnClock) (next : Option (PublicKey × BurnRow)) (w : World Chain)
      → oldest_burn w.db.tables.pending_burns ≡ next
      → InSync w
      → w.db.faults ≡ []
      → w.db.tables.pending_txns ≡ []
      → (burn_next net clock (Option.map burn_from_row next) w).0 ≡ ok tt
  unfolding burn_next
  burn_next-ok clock none w h s f e = refl
  burn_next-ok clock (some (payer, row)) w h s f e =
      let (seen, big) = oldest_burn-row w.db.tables.pending_burns payer row s.keyed h in
      let (account, known, same) = owed net payer row w seen big s in
      burn_some-ok clock (burn_from_row (payer, row)) account w known f e

  -- Where the accounts and the table agree, no transaction is pending, no statement is to fail, and the
  -- chain makes and takes every transaction, `burn` returns.
  pub burn-ok :
      (clock : BurnClock) (w : World Chain)
      → InSync w
      → w.db.faults ≡ []
      → w.db.tables.pending_txns ≡ []
      → (burn net clock w).0 ≡ ok tt
  unfolding burn fetch_next_burn statement
  burn-ok clock w s f e =
      rw f (
        burn_next-ok clock (oldest_burn w.db.tables.pending_burns) (with_faults [] w) refl s refl e)
