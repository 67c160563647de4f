-- ===== src/PacketVerifier/Balances.antt =====
-- iot_packet_verifier/src/balances.rs: the cache of the payers' balances on chain and of what has
-- been debited from them and not burned yet. A `u64` wraps, as it does in a release build.
pub mod Debit
pub mod Refresh
use oracles.Prelude.{
  Bool, true, false, ℕ, ◌+◌, ◌-◌, ◌%◌, ◌^◌, List, [], ◌∷◌, Option, none, some, ok, Action, pure,
  ◌>>=◌, ◌>>◌, Dict, answer, lookup, insert, ltb, leb, if◌then◌else◌,
}
use oracles.PacketVerifier.Solana.{PublicKey, SolanaNetwork}

abbrev pub u64_mod : ℕ
u64_mod = 2 ^ 64

abbrev pub u64 : ℕ → ℕ
u64 n = n % u64_mod

-- `a - b` of two `u64`, wrapping.
abbrev pub u64_sub : ℕ → ℕ → ℕ
u64_sub a b = (a + u64_mod - b) % u64_mod

abbrev pub checked_sub : ℕ → ℕ → Option ℕ
checked_sub a b = if leb b a then some (a - b) else none

abbrev pub saturating_sub : ℕ → ℕ → ℕ
saturating_sub a b = a - b

pub record PayerAccount : Type 0 where
  pub balance : ℕ
  pub burned : ℕ

abbrev pub new_account : ℕ → PayerAccount
new_account balance = record { balance = balance; burned = 0 }

-- A row of the table of pending burns, as `fetch_all_pending_burns` returns it.
pub record Burn : Type 0 where
  pub payer : PublicKey
  pub amount : ℕ

-- The cache behind its mutex, and the chain that it asks.
pub record Cache (Chain : Type 0) : Type 0 where
  pub payer_accounts : Dict PayerAccount
  pub chain : Chain

module _ {Chain : Type 0} where
  unfoldable pub put_account :
      {Error : Type 0} → PublicKey → PayerAccount → Action (Cache Chain) Error (Unit {0})
  put_account payer account c =
      (ok tt, record c { payer_accounts = insert payer account c.payer_accounts })

  -- `set_balance` of the `BalanceStore`: `entry(payer).or_default().balance = balance`.
  unfoldable pub set_balance : PublicKey → ℕ → Cache Chain → Cache Chain
  set_balance payer balance c = record c {
    payer_accounts =
        insert payer
          (elim (lookup payer c.payer_accounts) [
            | none ↦ new_account balance
            | some a ↦ record a { balance = balance }
          ])
          c.payer_accounts;
  }

module _ {Chain Error Transaction : Type 0} (net : SolanaNetwork Chain Error Transaction) where
  -- `self.solana.payer_balance(payer).await`.
  unfoldable pub ask_balance : PublicKey → Action (Cache Chain) Error ℕ
  ask_balance payer c =
      let (r, chain') = net.payer_balance payer c.chain in (answer r, record c { chain = chain' })

  -- `BalanceCache::new`: a payer for each pending burn.
  unfoldable pub load : List Burn → Action (Cache Chain) Error (Unit {0})
  unfolding ask_balance put_account
  load [] = pure tt
  load (b ∷ burns) = do
    balance ← ask_balance b.payer
    put_account b.payer (record { balance = balance; burned = b.amount })
    load burns

  unfoldable pub debit_if : Bool → PublicKey → ℕ → ℕ → Action (Cache Chain) Error (Option ℕ)
  unfolding put_account
  debit_if true payer amount balance = do
    put_account payer (record { balance = balance; burned = u64 (0 + amount) })
    pure (some (balance - amount))
  debit_if false payer amount balance = pure none

  -- The account of a payer that the cache has not seen is inserted, and debited if it can be.
  unfoldable pub debit_new : PublicKey → ℕ → ℕ → Action (Cache Chain) Error (Option ℕ)
  unfolding put_account debit_if
  debit_new payer amount balance = do
    put_account payer (new_account balance)
    debit_if (leb amount balance) payer amount balance

  unfoldable pub debit_vacant : PublicKey → ℕ → Action (Cache Chain) Error (Option ℕ)
  debit_vacant payer amount = do balance ← ask_balance payer; debit_new payer amount balance

  unfoldable pub put_balance :
      PublicKey → PayerAccount → ℕ → Action (Cache Chain) Error PayerAccount
  unfolding put_account
  put_balance payer account balance = do
    put_account payer (record account { balance = balance })
    pure (record account { balance = balance })

  unfoldable pub refresh_if :
      Bool → PublicKey → PayerAccount → Action (Cache Chain) Error PayerAccount
  refresh_if true payer account = do balance ← ask_balance payer; put_balance payer account balance
  refresh_if false payer account = pure account

  -- The balance is asked for again when what remains is below the threshold.
  unfoldable pub refreshed :
      PublicKey → PayerAccount → ℕ → ℕ → Action (Cache Chain) Error PayerAccount
  unfolding refresh_if
  refreshed payer account remaining threshold = refresh_if (ltb remaining threshold) payer account

  unfoldable pub debit_account :
      PublicKey → ℕ → PayerAccount → Action (Cache Chain) Error (Option ℕ)
  unfolding put_account
  debit_account payer amount a = do
    put_account payer (record a { burned = u64 (a.burned + amount) })
    pure (some (u64_sub a.balance (u64 (a.burned + amount))))

  -- By what is left after `checked_sub`.
  unfoldable pub debit_checked :
      PublicKey → PayerAccount → ℕ → ℕ → Option ℕ → Action (Cache Chain) Error (Option ℕ)
  debit_checked payer account amount threshold (some remaining) = do
    a ← refreshed payer account remaining threshold
    debit_account payer amount a
  debit_checked payer account amount threshold none = pure none

  -- The branch of a payer with an account, and that of a payer without.
  unfoldable pub debit_entry :
      PublicKey → ℕ → ℕ → Option PayerAccount → Action (Cache Chain) Error (Option ℕ)
  unfolding debit_checked
  debit_entry payer amount threshold none = debit_vacant payer amount
  debit_entry payer amount threshold (some account) =
      debit_checked payer account amount threshold
        (checked_sub account.balance (u64 (amount + account.burned)))

  -- `BalanceCache::debit_if_sufficient`.
  unfoldable pub debit_if_sufficient : PublicKey → ℕ → ℕ → Action (Cache Chain) Error (Option ℕ)
  unfolding debit_entry
  debit_if_sufficient payer amount threshold c =
      debit_entry payer amount threshold (lookup payer c.payer_accounts) c
