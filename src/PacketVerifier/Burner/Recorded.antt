-- ===== src/PacketVerifier/Burner/Recorded.antt =====
-- iot_packet_verifier/src/burner.rs: a burn is recorded in full, or it fails and nothing owed has
-- changed.
use oracles.Prelude.{
  ◌≢◌, ℕ, ◌≡◌, refl, some, Outcome, ok, err, panic, lookup, insert, update, arith,
}
use oracles.PacketVerifier.Solana.{SolanaNetwork}
use oracles.PacketVerifier.Balances.{PayerAccount, Burn}
use oracles.PacketVerifier.Pending.{
  statement, add_pending_transaction, begin, remove_pending_transaction, subtract_burned_amount,
  commit, World,
}
use oracles.PacketVerifier.Burner.{BurnError, BurnClock, submit_burn, record_burn, burn_next}
use oracles.PacketVerifier.Pending.Sync.{Unowed, lowered, settled}

module _ {Chain E Transaction : Type 0} (net : SolanaNetwork Chain E Transaction) where
  submit_burn-Unowed :
      (b : Burn) (now : ℕ) (w : World Chain)
      → Unowed w (submit_burn net b now w).1 × ((submit_burn net b now w).0 ≢ panic)
  unfolding submit_burn add_pending_transaction statement
  submit_burn-Unowed b now w = ground arith

  -- A burn is either recorded in full, or it fails and leaves what is owed.
  abbrev pub Recorded :
      Burn
      → ℕ
      → PayerAccount
      → World Chain
      → Outcome (BurnError E) (Unit {0}) × World Chain
      → Type 0
  Recorded b now account w (ok _, w') =
      (w'.db.tables.pending_burns ≡ update b.payer (lowered b.amount now) w.db.tables.pending_burns)
      × (w'.cache.payer_accounts ≡ insert b.payer (settled b.amount account) w.cache.payer_accounts)
  Recorded b now account w (err _, w') = Unowed w w'
  Recorded b now account w (panic, w') = ⊥

  record_burn-Recorded :
      (b : Burn) (txn : Transaction) (now : ℕ) (w : World Chain) (account : PayerAccount)
      → lookup b.payer w.cache.payer_accounts ≡ some account
      → Recorded b now account w (record_burn net b txn now w)
  unfolding record_burn begin remove_pending_transaction subtract_burned_amount commit statement
  record_burn-Recorded b txn now w account seen = ground arith

  -- The same from any earlier state with the same debts.
  Recorded-Unowed :
      (b : Burn) (now : ℕ) (account : PayerAccount) (w v : World Chain)
      (r : Outcome (BurnError E) (Unit {0}) × World Chain)
      → Unowed w v
      → Recorded b now account v r
      → Recorded b now account w r
  Recorded-Unowed b now account w v (ok _, w') u h = ((cc), (cc))
  Recorded-Unowed b now account w v (err _, w') u h = ((cc), (cc))
  Recorded-Unowed b now account w v (panic, w') u h = h

  after_submit :
      (b : Burn) (now : ℕ) (account : PayerAccount) (w v : World Chain)
      (r : Outcome (BurnError E) Transaction)
      → r ≢ panic
      → Unowed w v
      → lookup b.payer w.cache.payer_accounts ≡ some account
      → Recorded b now account w (elim r [
        | ok txn ↦ record_burn net b txn now v
        | err e ↦ (err e, v)
        | panic ↦ (panic, v)
      ])
  after_submit b now account w v (ok txn) n u seen =
      Recorded-Unowed b now account w v _ u (record_burn-Recorded b txn now v account (cc))
  after_submit b now account w v (err e) n u seen = u
  after_submit b now account w v panic n u seen = n refl

  pub burn_next-Recorded :
      (clock : BurnClock) (b : Burn) (account : PayerAccount) (w : World Chain)
      → lookup b.payer w.cache.payer_accounts ≡ some account
      → Recorded b clock.burned account w (burn_next net clock (some b) w)
  unfolding burn_next
  burn_next-Recorded clock b account w seen =
      after_submit b clock.burned account w (submit_burn net b clock.submitted w).1
        (submit_burn net b clock.submitted w).0 (submit_burn-Unowed b clock.submitted w).1
        (submit_burn-Unowed b clock.submitted w).0 seen
