-- ===== src/PacketVerifier/Balances/Debit.antt =====
-- What `BalanceCache::debit_if_sufficient` does to the accounts.
use oracles.Prelude.{
  panic, ℕ, ◌+◌, ◌^◌, ◌<◌, ◌≡◌, refl, ◌≢◌, ap, Option, none, some, Ends, Ends-bind, answer, Reply,
  done, failed, lookup, insert, lookup-insert, inl, inr, arith, if◌then◌else◌, ◌==◌, Dict, ltb, leb,
  Bool-cases,
}
use oracles.PacketVerifier.Solana.{PublicKey, SolanaNetwork}
use oracles.PacketVerifier.Balances.{
  u64, PayerAccount, Cache, debit_if_sufficient, new_account, ask_balance, debit_vacant,
  debit_entry, debit_checked, refreshed, debit_new, debit_account, put_balance,
}

-- The credits debited from a payer and not burned yet.
abbrev pub burned_of : Option PayerAccount → ℕ
burned_of none = 0
burned_of (some a) = a.burned

-- No balance reaches 2 ^ 63 credits.
abbrev pub Bounded : Dict PayerAccount → Type 0
Bounded accounts =
    (q : PublicKey) (a : PayerAccount) → lookup q accounts ≡ some a → a.balance < 2 ^ 63

-- No payer owes as much.
abbrev pub Owing : Dict PayerAccount → Type 0
Owing accounts = (q : PublicKey) → burned_of (lookup q accounts) < 2 ^ 63

-- What a debit has done to the accounts, by its answer.
abbrev pub Debited : PublicKey → ℕ → Dict PayerAccount → Option ℕ → Dict PayerAccount → Type 0
Debited payer amount before none after =
    (q : PublicKey) → burned_of (lookup q after) ≡ burned_of (lookup q before)
Debited payer amount before (some remaining) after =
    (burned_of (lookup payer before) + amount < 2 ^ 63)
    × ((q : PublicKey)
        → burned_of (lookup q after) ≡ (
            if payer == q
            then burned_of (lookup q before) + amount
            else burned_of (lookup q before)))

Bounded-insert :
    (payer : PublicKey) (account : PayerAccount) (accounts : Dict PayerAccount)
    → Bounded accounts
    → account.balance < 2 ^ 63
    → Bounded (insert payer account accounts)
Bounded-insert payer account accounts b h q a e =
    grind (arith, b q a, lookup-insert payer q account accounts)

burned_of-insert :
    (payer q : PublicKey) (account : PayerAccount) (accounts : Dict PayerAccount)
    → burned_of (lookup q (insert payer account accounts))
      ≡ (if payer == q then account.burned else burned_of (lookup q accounts))
burned_of-insert payer q account accounts = grind (arith, lookup-insert payer q account accounts)

module _ {Chain Error Transaction : Type 0} (net : SolanaNetwork Chain Error Transaction)
    (chain_bounded : (payer : PublicKey) (c c' : Chain) (balance : ℕ)
      → net.payer_balance payer c ≡ (done balance, c')
      → balance < 2 ^ 63) where
  ask_balance-Ends :
      (payer : PublicKey) (c : Cache Chain)
      → Ends
          (λ balance c'. (balance < 2 ^ 63) × (c'.payer_accounts ≡ c.payer_accounts))
          (ask_balance net payer c)
  unfolding ask_balance
  ask_balance-Ends payer c = go (net.payer_balance payer c.chain) refl
    where
      go :
          (r : Reply Error ℕ × Chain)
          → net.payer_balance payer c.chain ≡ r
          → Ends {E = Error}
              (λ balance c'. (balance < 2 ^ 63) × (c'.payer_accounts ≡ c.payer_accounts))
              (answer r.0, record c { chain = r.1 })
      go (done b, s) e = (chain_bounded payer c.chain s b e, refl)
      go (failed x, s) e = tt

  abbrev pub After : PublicKey → ℕ → Cache Chain → Option ℕ → Cache Chain → Type 0
  After payer amount c o c' =
      Debited payer amount c.payer_accounts o c'.payer_accounts × Bounded c'.payer_accounts

  debit_new-After :
      (payer amount balance : ℕ) (c c' : Cache Chain)
      → lookup payer c.payer_accounts ≡ none
      → Bounded c.payer_accounts
      → (balance < 2 ^ 63) × (c'.payer_accounts ≡ c.payer_accounts)
      → Ends {E = Error} (After payer amount c) (debit_new net payer amount balance c')
  unfolding debit_new
  debit_new-After payer amount balance c c' e b h = elim (Bool-cases (leb amount balance)) [
    | inl enough ↦
        rw (enough, h.1)
          (
            (
              ground (arith, ap burned_of e),
              λ q. grind (
                arith,
                ap burned_of e,
                burned_of-insert payer q _ (insert payer (new_account balance) c.payer_accounts),
                burned_of-insert payer q (new_account balance) c.payer_accounts,
              ),
            ),
            Bounded-insert payer _ _ (Bounded-insert payer _ c.payer_accounts b h.0) h.0,
          )
    | inr short ↦
        rw (short, h.1)
          (
            λ q. grind (
              arith,
              ap burned_of e,
              burned_of-insert payer q (new_account balance) c.payer_accounts,
            ),
            Bounded-insert payer _ c.payer_accounts b h.0,
          )
  ]

  debit_vacant-After :
      (payer amount : ℕ) (c : Cache Chain)
      → lookup payer c.payer_accounts ≡ none
      → Bounded c.payer_accounts
      → Ends (After payer amount c) (debit_vacant net payer amount c)
  unfolding debit_vacant
  debit_vacant-After payer amount c e b =
      Ends-bind (λ balance c'. (balance < 2 ^ 63) × (c'.payer_accounts ≡ c.payer_accounts))
        (After payer amount c) (ask_balance net payer) (debit_new net payer amount) c
        (ask_balance-Ends payer c) (λ balance c' h. debit_new-After payer amount balance c c' e b h)

  -- The account is as it was, but for its balance.
  abbrev Refreshed : PublicKey → PayerAccount → Cache Chain → PayerAccount → Cache Chain → Type 0
  Refreshed payer account c a c' =
      (a.burned ≡ account.burned)
      × (a.balance < 2 ^ 63)
      × ((q : PublicKey)
          → burned_of (lookup q c'.payer_accounts) ≡ burned_of (lookup q c.payer_accounts))
      × Bounded c'.payer_accounts

  put_balance-Refreshed :
      (payer balance : ℕ) (account : PayerAccount) (c c' : Cache Chain)
      → lookup payer c.payer_accounts ≡ some account
      → Bounded c.payer_accounts
      → (balance < 2 ^ 63) × (c'.payer_accounts ≡ c.payer_accounts)
      → Ends {E = Error} (Refreshed payer account c) (put_balance net payer account balance c')
  unfolding put_balance
  put_balance-Refreshed payer balance account c c' e b h = rw h.1 (
    refl,
    h.0,
    λ q. grind (
      arith,
      ap burned_of e,
      burned_of-insert payer q (record account { balance = balance }) c.payer_accounts,
    ),
    Bounded-insert payer _ c.payer_accounts b h.0,
  )

  refreshed-Refreshed :
      (payer remaining threshold : ℕ) (account : PayerAccount) (c : Cache Chain)
      → lookup payer c.payer_accounts ≡ some account
      → Bounded c.payer_accounts
      → Ends (Refreshed payer account c) (refreshed net payer account remaining threshold c)
  unfolding refreshed
  refreshed-Refreshed payer remaining threshold account c e b =
      elim (Bool-cases (ltb remaining threshold)) [
        | inl low ↦ rw low (
            Ends-bind (λ balance c'. (balance < 2 ^ 63) × (c'.payer_accounts ≡ c.payer_accounts))
              (Refreshed payer account c) (ask_balance net payer) (put_balance net payer account) c
              (ask_balance-Ends payer c)
              (λ balance c' h. put_balance-Refreshed payer balance account c c' e b h))
        | inr high ↦ rw high (refl, b payer account e, λ q. refl, b)
      ]

  debit_account-After :
      (payer amount : ℕ) (account a : PayerAccount) (c c' : Cache Chain)
      → lookup payer c.payer_accounts ≡ some account
      → account.burned + amount < 2 ^ 63
      → Refreshed payer account c a c'
      → Ends {E = Error} (After payer amount c) (debit_account net payer amount a c')
  unfolding debit_account
  debit_account-After payer amount account a c c' e small (same, bounded, others, b) = (
    (
      ground (arith, ap burned_of e),
      λ q. grind (
        arith,
        ap burned_of e,
        others q,
        burned_of-insert payer q (record a { burned = u64 (a.burned + amount) }) c'.payer_accounts,
      ),
    ),
    Bounded-insert payer _ c'.payer_accounts b bounded,
  )

  debit_checked-After :
      (payer amount threshold : ℕ) (account : PayerAccount) (c : Cache Chain) (left : Option ℕ)
      → lookup payer c.payer_accounts ≡ some account
      → (left ≢ none → account.burned + amount < 2 ^ 63)
      → Bounded c.payer_accounts
      → Ends (After payer amount c) (debit_checked net payer account amount threshold left c)
  unfolding debit_checked
  debit_checked-After payer amount threshold account c none e fits b = (λ q. refl, b)
  debit_checked-After payer amount threshold account c (some remaining) e fits b =
      Ends-bind (Refreshed payer account c) (After payer amount c)
        (refreshed net payer account remaining threshold) (debit_account net payer amount) c
        (refreshed-Refreshed payer remaining threshold account c e b)
        (λ a c' h. debit_account-After payer amount account a c c' e (fits (λ x. cc)) h)

  debit_entry-After :
      (payer amount threshold : ℕ) (c : Cache Chain) (o : Option PayerAccount)
      → lookup payer c.payer_accounts ≡ o
      → amount < 2 ^ 63
      → burned_of o < 2 ^ 63
      → Bounded c.payer_accounts
      → Ends (After payer amount c) (debit_entry net payer amount threshold o c)
  unfolding debit_entry
  debit_entry-After payer amount threshold c none e small owing b =
      debit_vacant-After payer amount c e b
  debit_entry-After payer amount threshold c (some account) e small owing b =
      debit_checked-After payer amount threshold account c _ e
        (λ h. ground (arith, b payer account e)) b

  -- Where the amount, every balance and every debt are below 2 ^ 63, and the chain reports no balance
  -- that is not: a debit that is granted adds its amount to what the payer owes, and to nobody else's;
  -- one that is refused adds nothing. The cache does not panic, and its balances stay below 2 ^ 63.
  pub debit_if_sufficient-After :
      (payer amount threshold : ℕ) (c : Cache Chain)
      → amount < 2 ^ 63
      → Owing c.payer_accounts
      → Bounded c.payer_accounts
      → Ends (After payer amount c) (debit_if_sufficient net payer amount threshold c)
  unfolding debit_if_sufficient
  debit_if_sufficient-After payer amount threshold c small owing b =
      debit_entry-After payer amount threshold c _ refl small (owing payer) b

module _ {Chain Error Transaction : Type 0} (net : SolanaNetwork Chain Error Transaction) where
  -- The cache never panics, whatever the chain answers.
  pub debit_if_sufficient-ne-panic :
      (payer amount threshold : ℕ) (c : Cache Chain)
      → (debit_if_sufficient net payer amount threshold c).0 ≢ panic
  unfolding debit_if_sufficient debit_vacant debit_new refreshed ask_balance put_balance
      debit_account
  debit_if_sufficient-ne-panic payer amount threshold c = ground arith
