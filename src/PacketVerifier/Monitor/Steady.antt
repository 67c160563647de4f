-- ===== src/PacketVerifier/Monitor/Steady.antt =====
-- ConfigServer::monitor_funds of iot_packet_verifier/src/verifier.rs: what is owed does not change.
use oracles.Prelude.{
  ℕ, ◌≡◌, ◌≢◌, refl, ◌∙◌, Bool, true, false, List, [], ◌∷◌, Option, none, some, Outcome, ok, err,
  panic, Action, ◌>>=◌, lookup, insert, lookup-insert, arith, leb, Dict,
}
use oracles.PacketVerifier.Solana.{PublicKey, SolanaNetwork}
use oracles.PacketVerifier.Balances.{PayerAccount, new_account, set_balance, ask_balance}
use oracles.PacketVerifier.Balances.Debit.{burned_of}
use oracles.PacketVerifier.Pending.Sync.{InSync}
use oracles.PacketVerifier.Orgs.{Org, OrgService, enable_org, list_orgs}
use oracles.PacketVerifier.Verifier.{Daemon, on_cache, on_orgs}
use oracles.PacketVerifier.Monitor.{
  MonitorError, config_client_error, solana_error, store_balance, enable_if, check_funds,
  monitor_each, monitor_pass,
}

-- However a call ends, short of a panic, the tables and what every payer owes are as before.
record Steady {Chain Server F A : Type 0} (d : Daemon Chain Server)
    (r : Outcome F A × Daemon Chain Server) : Type 0 where
  db : r.1.world.db ≡ d.world.db
  owed :
      (q : PublicKey)
      → burned_of (lookup q r.1.world.cache.payer_accounts)
        ≡ burned_of (lookup q d.world.cache.payer_accounts)
  not_panic : r.0 ≢ panic

module _ {Chain Server F A B : Type 0} where
  bind_from-Steady :
      (d : Daemon Chain Server) (r : Outcome F A) (t : Daemon Chain Server)
      (f : A → Action (Daemon Chain Server) F B)
      → Steady d (r, t)
      → ((a : A) → Steady t (f a t))
      → Steady {F = F} {A = B} d (elim r [ ok a ↦ f a t | err e ↦ (err e, t) | panic ↦ (panic, t) ])
  bind_from-Steady d (ok a) t f h k = record {
    db = (k a).db ∙ h.db;
    owed = λ q. (k a).owed q ∙ h.owed q;
    not_panic = (k a).not_panic;
  }
  bind_from-Steady d (err e) t f h k = record { db = h.db; owed = h.owed; not_panic = ground arith }
  bind_from-Steady d panic t f h k = absurd (h.not_panic refl)

  bind-Steady :
      (d : Daemon Chain Server) (m : Action (Daemon Chain Server) F A)
      (f : A → Action (Daemon Chain Server) F B)
      → Steady d (m d)
      → ((a : A) (t : Daemon Chain Server) → Steady t (f a t))
      → Steady d ((m >>= f) d)
  bind-Steady d m f h k = bind_from-Steady d (m d).0 (m d).1 f h (λ a. k a (m d).1)

-- Setting a balance keeps what is owed.
set_burned :
    (payer balance q : ℕ) (accounts : Dict PayerAccount) (o : Option PayerAccount)
    → lookup payer accounts ≡ o
    → burned_of (
        lookup q (
          insert payer
            (elim o [ none ↦ new_account balance | some a ↦ record a { balance = balance } ])
            accounts))
      ≡ burned_of (lookup q accounts)
set_burned payer balance q accounts none e =
    grind (arith, lookup-insert payer q (new_account balance) accounts)
set_burned payer balance q accounts (some a) e =
    grind (arith, lookup-insert payer q (record a { balance = balance }) accounts)

module _ {Chain Server F : Type 0} where
  store_balance-Steady :
      (payer balance : ℕ) (d : Daemon Chain Server)
      → Steady {F = F} d (store_balance payer balance d)
  unfolding store_balance set_balance
  store_balance-Steady payer balance d = record {
    db = refl;
    owed = λ q.
        set_burned payer balance q d.world.cache.payer_accounts
          (lookup payer d.world.cache.payer_accounts) refl;
    not_panic = ground arith;
  }

module _ {Chain E Transaction Server CE : Type 0} (net : SolanaNetwork Chain E Transaction)
    (service : OrgService Server CE) where
  enable-Steady :
      (oui : ℕ) (d : Daemon Chain Server)
      → Steady d (on_orgs {F = MonitorError E CE} config_client_error (enable_org service oui) d)
  unfolding on_orgs enable_org
  enable-Steady oui d = record { db = refl; owed = λ q. refl; not_panic = ground arith }

  list-Steady :
      (d : Daemon Chain Server)
      → Steady d (on_orgs {F = MonitorError E CE} config_client_error (list_orgs service) d)
  unfolding on_orgs list_orgs
  list-Steady d = record { db = refl; owed = λ q. refl; not_panic = ground arith }

  ask-Steady :
      (payer : ℕ) (d : Daemon Chain Server)
      → Steady d (on_cache {F = MonitorError E CE} solana_error (ask_balance net payer) d)
  unfolding on_cache ask_balance
  ask-Steady payer d = record { db = refl; owed = λ q. refl; not_panic = ground arith }

  enable_if-Steady :
      (b : Bool) (org : Org) (balance : ℕ) (d : Daemon Chain Server)
      → Steady d (enable_if net service b org balance d)
  unfolding enable_if
  enable_if-Steady true org balance d =
      bind-Steady d (store_balance org.payer balance)
        (λ _. on_orgs config_client_error (enable_org service org.oui))
        (store_balance-Steady org.payer balance d) (λ _ t. enable-Steady org.oui t)
  enable_if-Steady false org balance d = record {
    db = refl;
    owed = λ q. refl;
    not_panic = ground arith;
  }

  check_funds-Steady :
      (b : Bool) (minimum : ℕ) (org : Org) (d : Daemon Chain Server)
      → Steady d (check_funds net service b minimum org d)
  unfolding check_funds
  check_funds-Steady true minimum org d =
      bind-Steady d (on_cache solana_error (ask_balance net org.payer))
        (λ balance. enable_if net service (leb minimum balance) org balance)
        (ask-Steady org.payer d) (λ balance t. enable_if-Steady (leb minimum balance) org balance t)
  check_funds-Steady false minimum org d = record {
    db = refl;
    owed = λ q. refl;
    not_panic = ground arith;
  }

  monitor_each-Steady :
      (minimum : ℕ) (orgs : List Org) (d : Daemon Chain Server)
      → Steady d (monitor_each net service minimum orgs d)
  unfolding monitor_each
  monitor_each-Steady minimum [] d = record {
    db = refl;
    owed = λ q. refl;
    not_panic = ground arith;
  }
  monitor_each-Steady minimum (org ∷ orgs) d =
      bind-Steady d (check_funds net service org.locked minimum org)
        (λ _. monitor_each net service minimum orgs) (check_funds-Steady org.locked minimum org d)
        (λ _ t. monitor_each-Steady minimum orgs t)

  monitor_pass-Steady :
      (minimum : ℕ) (d : Daemon Chain Server) → Steady d (monitor_pass net service minimum d)
  unfolding monitor_pass
  monitor_pass-Steady minimum d =
      bind-Steady d (on_orgs config_client_error (list_orgs service))
        (λ orgs. monitor_each net service minimum orgs) (list-Steady d)
        (λ orgs t. monitor_each-Steady minimum orgs t)

  -- Where the tables and the cache agree, a pass of the monitor does not panic, and however it ends,
  -- they agree again.
  pub monitor_pass-InSync :
      (minimum : ℕ) (d : Daemon Chain Server)
      → InSync d.world
      → InSync (monitor_pass net service minimum d).1.world
        × ((monitor_pass net service minimum d).0 ≢ panic)
  monitor_pass-InSync minimum d s =
      let h = monitor_pass-Steady minimum d in
      (
        record { keyed = rw h.db s.keyed; synced = λ q. rw (h.db, h.owed q) (s.synced q) },
        h.not_panic,
      )
