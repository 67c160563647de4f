-- ===== src/PacketVerifier/Balances/Refresh.antt =====
-- iot_packet_verifier/src/balances.rs: what a debit answers for a payer with an account, where the
-- balance is asked for again.
use oracles.Prelude.{ℕ, ◌+◌, ◌-◌, ◌^◌, ◌≤◌, ◌<◌, ◌≡◌, some, ok, done, lookup, arith}
use oracles.PacketVerifier.Solana.{SolanaNetwork}
use oracles.PacketVerifier.Balances.{
  PayerAccount, Cache, debit_if_sufficient, ask_balance, put_balance, debit_account, refreshed,
}

module _ {Chain Error Transaction : Type 0} (net : SolanaNetwork Chain Error Transaction)
    (payer amount threshold : ℕ) (account : PayerAccount) (c : Cache Chain)
    (seen : lookup payer c.payer_accounts ≡ some account)
    (fits : amount + account.burned ≤ account.balance) (word : account.balance < 2 ^ 64) where
  -- For a payer whose cached balance, a `u64`, covers what it owes and the amount, and leaves no less
  -- than the threshold, a debit is answered from the cache: what remains is the balance less all that is
  -- owed, and the chain is not asked.
  pub debit_if_sufficient-cached :
      threshold ≤ account.balance - (amount + account.burned)
      → ((debit_if_sufficient net payer amount threshold c).0
          ≡ ok (some (account.balance - (amount + account.burned))))
        × ((debit_if_sufficient net payer amount threshold c).1.chain ≡ c.chain)
  unfolding debit_if_sufficient refreshed debit_account
  debit_if_sufficient-cached enough = ground arith

  -- For a payer whose cached balance, a `u64`, covers what it owes and the amount, and leaves less than
  -- the threshold, the chain is asked. If its balance, a `u64`, covers both, the answer is what remains
  -- of that.
  pub debit_if_sufficient-refreshed :
      (balance : ℕ) (chain : Chain)
      → account.balance - (amount + account.burned) < threshold
      → net.payer_balance payer c.chain ≡ (done balance, chain)
      → balance < 2 ^ 64
      → amount + account.burned ≤ balance
      → (debit_if_sufficient net payer amount threshold c).0
        ≡ ok (some (balance - (amount + account.burned)))
  unfolding debit_if_sufficient refreshed debit_account ask_balance put_balance
  debit_if_sufficient-refreshed balance chain low asked small covered = ground arith

  -- For a payer whose cached balance, a `u64`, covers what it owes and the amount, and leaves less than
  -- the threshold, while its balance on chain does not cover both, which are below 2 ^ 63, the
  -- subtraction wraps: the debit is granted, with 2 ^ 63 credits or more as what remains.
  pub debit_if_sufficient-wraps :
      (balance : ℕ) (chain : Chain)
      → account.balance - (amount + account.burned) < threshold
      → net.payer_balance payer c.chain ≡ (done balance, chain)
      → amount + account.burned < 2 ^ 63
      → balance < amount + account.burned
      → ((debit_if_sufficient net payer amount threshold c).0
          ≡ ok (some (2 ^ 64 + balance - (amount + account.burned))))
        × (2 ^ 63 ≤ 2 ^ 64 + balance - (amount + account.burned))
  unfolding debit_if_sufficient refreshed debit_account ask_balance put_balance
  debit_if_sufficient-wraps balance chain low asked owed short = (ground arith, omega arith)
