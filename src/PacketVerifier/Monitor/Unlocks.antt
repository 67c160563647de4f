-- ===== src/PacketVerifier/Monitor/Unlocks.antt =====
-- ConfigServer::monitor_funds of iot_packet_verifier/src/verifier.rs: which organisations a pass over
-- the list enables.
use oracles.Prelude.{
  ℕ, ◌≡◌, refl, sym, subst, Bool, true, false, List, [], ◌∷◌, Outcome, ok, err, panic, Ends,
  Ends-bind, Ends-mono, map_err, leb, arith, ◌&&◌, ◌||◌, ◌==◌, if◌then◌else◌, done,
}
use oracles.PacketVerifier.Solana.{PublicKey, SolanaNetwork}
use oracles.PacketVerifier.Balances.{ask_balance}
use oracles.PacketVerifier.Orgs.{Org, OrgService, OrgClient, enable_org}
use oracles.PacketVerifier.Orgs.Locks.{OrgLaws, IsTruthful, Locks, WhenOk, enable_org-Locks}
use oracles.PacketVerifier.Orgs.Enabled.{enable_org-IsTruthful}
use oracles.PacketVerifier.Verifier.{Daemon, on_cache, on_orgs}
use oracles.PacketVerifier.Monitor.{
  MonitorError, config_client_error, solana_error, store_balance, enable_if, check_funds,
  monitor_each,
}

-- An organisation of the list is locked, and its payer holds the minimum.
unfoldable pub funded : (PublicKey → ℕ) → ℕ → List Org → ℕ → Bool
funded balance_of minimum [] oui = false
funded balance_of minimum (org ∷ orgs) oui =
    ((org.oui == oui) && (org.locked && leb minimum (balance_of org.payer)))
    || funded balance_of minimum orgs oui

module _ {Chain E Transaction Server CE : Type 0} (net : SolanaNetwork Chain E Transaction)
    (service : OrgService Server CE) (laws : OrgLaws service) (balance_of : PublicKey → ℕ)
    (constant : (payer : PublicKey) (c : Chain)
      → (c' : Chain) × (net.payer_balance payer c ≡ (done (balance_of payer), c'))) where
  -- The cache is truthful, and exactly the organisations that pass the test have been unlocked.
  abbrev pub Unlocked : (ℕ → Bool) → OrgClient Server → OrgClient Server → Type 0
  Unlocked test c c' =
      IsTruthful service laws c'
      × ((q : ℕ) → laws.locked c'.server q ≡ (if test q then false else laws.locked c.server q))

  enabled-Unlocked :
      (oui : ℕ) (d : Daemon Chain Server) (r : Outcome _ (Unit {0}) × OrgClient Server)
      → Locks service laws oui false d.orgs r
      → WhenOk service laws r
      → Ends {E = MonitorError E CE}
          (λ _ d'. Unlocked (λ q. oui == q) d.orgs d'.orgs)
          (map_err config_client_error r.0, record d { orgs = r.1 })
  enabled-Unlocked oui d (ok _, c) l t = (t, l)
  enabled-Unlocked oui d (err _, c) l t = tt
  enabled-Unlocked oui d (panic, c) l t = t

  enable-Unlocked :
      (oui : ℕ) (d : Daemon Chain Server)
      → IsTruthful service laws d.orgs
      → Ends
          (λ _ d'. Unlocked (λ q. oui == q) d.orgs d'.orgs)
          (on_orgs {F = MonitorError E CE} config_client_error (enable_org service oui) d)
  unfolding on_orgs
  enable-Unlocked oui d h =
      enabled-Unlocked oui d (enable_org service oui d.orgs)
        (enable_org-Locks service laws oui d.orgs h)
        (enable_org-IsTruthful service laws oui d.orgs h)

  enable_if-Unlocked :
      (b : Bool) (org : Org) (balance : ℕ) (d : Daemon Chain Server)
      → IsTruthful service laws d.orgs
      → Ends
          (λ _ d'. Unlocked (λ q. (org.oui == q) && b) d.orgs d'.orgs)
          (enable_if net service b org balance d)
  unfolding enable_if store_balance
  enable_if-Unlocked true org balance d h =
      Ends-mono (λ _ d'. Unlocked (λ q. org.oui == q) d.orgs d'.orgs) _ _
        (λ _ d' u. (u.0, λ q. grind (arith, u.1 q)))
        (enable-Unlocked org.oui (store_balance {F = MonitorError E CE} org.payer balance d).1 h)
  enable_if-Unlocked false org balance d h = (h, λ q. ground arith)

  asked :
      (payer : PublicKey) (d : Daemon Chain Server)
      → Ends
          (λ a d'. (a ≡ balance_of payer) × (d'.orgs ≡ d.orgs))
          (on_cache {F = MonitorError E CE} solana_error (ask_balance net payer) d)
  unfolding on_cache ask_balance
  asked payer d = let (c', e) = constant payer d.world.cache.chain in ground arith

  check_funds-Unlocked :
      (b : Bool) (minimum : ℕ) (org : Org) (d : Daemon Chain Server)
      → IsTruthful service laws d.orgs
      → Ends
          (λ _ d'.
            Unlocked
              (λ q. (org.oui == q) && (b && leb minimum (balance_of org.payer)))
              d.orgs
              d'.orgs)
          (check_funds net service b minimum org d)
  unfolding check_funds
  check_funds-Unlocked true minimum org d h =
      Ends-bind (λ a d'. (a ≡ balance_of org.payer) × (d'.orgs ≡ d.orgs))
        (λ _ d'.
          Unlocked (λ q. (org.oui == q) && (true && leb minimum (balance_of org.payer))) d.orgs
            d'.orgs)
        (on_cache solana_error (ask_balance net org.payer))
        (λ balance. enable_if net service (leb minimum balance) org balance) d (asked org.payer d)
        (λ a t (ea, eo).
          Ends-mono (λ _ d'. Unlocked (λ q. (org.oui == q) && leb minimum a) t.orgs d'.orgs) _ _
            (λ _ d' u. (u.0, λ q. grind (arith, u.1 q)))
            (enable_if-Unlocked (leb minimum a) org a t
              (subst (IsTruthful service laws) (sym eo) h)))
  check_funds-Unlocked false minimum org d h = (h, λ q. ground arith)

  -- Over a chain on which no balance changes, and with a truthful cache of locks: when the loop over the
  -- list returns, exactly the organisations that the list has as locked and whose payers hold the
  -- minimum have been unlocked, no other lock has changed, and the cache is truthful. It does not panic.
  pub monitor_each-Unlocked :
      (minimum : ℕ) (orgs : List Org) (d : Daemon Chain Server)
      → IsTruthful service laws d.orgs
      → Ends
          (λ _ d'. Unlocked (funded balance_of minimum orgs) d.orgs d'.orgs)
          (monitor_each net service minimum orgs d)
  unfolding monitor_each funded
  monitor_each-Unlocked minimum [] d h = (h, λ q. refl)
  monitor_each-Unlocked minimum (org ∷ orgs) d h =
      Ends-bind
        (λ _ d'.
          Unlocked (λ q. (org.oui == q) && (org.locked && leb minimum (balance_of org.payer)))
            d.orgs d'.orgs)
        (λ _ d'. Unlocked (funded balance_of minimum (org ∷ orgs)) d.orgs d'.orgs)
        (check_funds net service org.locked minimum org)
        (λ _. monitor_each net service minimum orgs) d
        (check_funds-Unlocked org.locked minimum org d h)
        (λ _ t u.
          Ends-mono (λ _ d'. Unlocked (funded balance_of minimum orgs) t.orgs d'.orgs) _ _
            (λ _ d' v. (v.0, λ q. grind (arith, u.1 q, v.1 q)))
            (monitor_each-Unlocked minimum orgs t u.0))
