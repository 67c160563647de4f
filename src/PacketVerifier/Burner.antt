-- ===== src/PacketVerifier/Burner.antt =====
-- iot_packet_verifier/src/burner.rs: `Burner::burn` and one tick of the loop of `Burner::run`.
pub mod Recorded
pub mod Sync
pub mod Ticks
pub mod Returns
use oracles.Prelude.{
  ℕ, Option, none, some, Outcome, ok, err, panic, Action, pure, ◌>>=◌, ◌>>◌, map_err,
}
use oracles.PacketVerifier.Solana.{PublicKey, SolanaNetwork}
use oracles.PacketVerifier.Balances.{Burn}
use oracles.PacketVerifier.Pending.{
  PendingTxn, SqlxError, World, ConfirmPendingError, on_db, on_chain, settle, fetch_next_burn,
  add_pending_transaction, begin, remove_pending_transaction, subtract_burned_amount, commit,
  confirm_pending_txns,
}

pub data BurnError (E : Type 0) : Type 0 where
  sql_error : SqlxError → BurnError E
  solana_error : E → BurnError E
  confirm_pending_error : ConfirmPendingError E → BurnError E

-- The times that `burn` reads: at the insertion of the transaction and at the update of the row.
pub record BurnClock : Type 0 where
  pub submitted : ℕ
  pub burned : ℕ

module _ {Chain E Transaction : Type 0} (net : SolanaNetwork Chain E Transaction) where
  -- The transaction is recorded as pending, then submitted.
  unfoldable pub submit_burn : Burn → ℕ → Action (World Chain) (BurnError E) Transaction
  unfolding on_db on_chain
  submit_burn b now = do
    txn ← on_chain solana_error (net.make_burn_transaction b.payer b.amount)
    on_db sql_error (add_pending_transaction b.payer b.amount (net.get_signature txn) now)
    on_chain solana_error (net.submit_transaction txn)
    pure txn

  -- What follows a submission that went through.
  unfoldable pub record_burn :
      Burn → Transaction → ℕ → Action (World Chain) (BurnError E) (Unit {0})
  unfolding on_db settle
  record_burn b txn now = do
    on_db sql_error begin
    on_db sql_error (remove_pending_transaction (net.get_signature txn))
    on_db sql_error (subtract_burned_amount b.payer b.amount now)
    on_db sql_error commit
    settle b.payer b.amount

  unfoldable pub burn_next : BurnClock → Option Burn → Action (World Chain) (BurnError E) (Unit {0})
  unfolding submit_burn record_burn
  burn_next clock none = pure tt
  burn_next clock (some b) = do txn ← submit_burn b clock.submitted; record_burn b txn clock.burned

  -- `Burner::burn`.
  unfoldable pub burn : BurnClock → Action (World Chain) (BurnError E) (Unit {0})
  unfolding on_db burn_next
  burn clock = do next ← on_db sql_error fetch_next_burn; burn_next clock next

  -- One tick of `Burner::run`: after an error the pending transactions are confirmed, and an error
  -- of that ends the loop.
  unfoldable pub tick : BurnClock → (PendingTxn → ℕ) → Action (World Chain) (BurnError E) (Unit {0})
  unfolding burn
  tick clock confirm_clock w =
      let (r, w') = burn clock w in
      elim r [
        | ok done ↦ (ok tt, w')
        | err e ↦
            let (c, w'') = confirm_pending_txns net confirm_clock w' in
            (map_err confirm_pending_error c, w'')
        | panic ↦ (panic, w')
      ]
