-- ===== src/PacketVerifier/Verifier/Charges.antt =====
-- iot_packet_verifier/src/verifier.rs: what `verify` debits from the cache it adds to the pending
-- burns.
use oracles.Prelude.{
  ℕ, ◌≡◌, refl, ◌≢◌, Option, none, some, Outcome, ok, err, panic, Ends, Ends-bind, Ends-mono,
  lookup, insert, lookup-insert, Option-cases, arith, Dict, insert-Keyed, Action, pure, map_err,
}
use oracles.Prelude.Int.{int_laws}
use oracles.PacketVerifier.Solana.{PublicKey, SolanaNetwork}
use oracles.PacketVerifier.Balances.{PayerAccount, Cache}
use oracles.PacketVerifier.Balances.Debit.{Bounded, Debited}
use oracles.PacketVerifier.Pending.{BurnRow, statement, add_to_row, as_i64}
use oracles.PacketVerifier.Pending.Sync.{Synced}
use oracles.PacketVerifier.Orgs.{OrgService, OrgClient, fetch_org, disable_org}
use oracles.PacketVerifier.Verifier.{
  Daemon, PacketReport, on_cache, accept, reject, charge, charge_org, payload_size_to_dc,
}

-- A row that is added to holds what it held and the amount.
added-Synced :
    (rows : Dict BurnRow) (before after : Dict PayerAccount) (payer amount now remaining : ℕ)
    → Synced rows before
    → Debited payer amount before (some remaining) after
    → Synced (insert payer (add_to_row (as_i64 amount) now (lookup payer rows)) rows) after
added-Synced rows before after payer amount now remaining s d = record {
  keyed = insert-Keyed payer _ rows s.keyed;
  synced = λ q. grind (
    int_laws,
    s.synced q,
    s.synced payer,
    d.0,
    d.1 q,
    Option-cases (lookup payer rows),
    lookup-insert payer q (add_to_row (as_i64 amount) now (lookup payer rows)) rows,
  );
}

module _ {Server CE : Type 0} (service : OrgService Server CE) where
  pub fetch_org-ne-panic :
      (oui : ℕ) (cache : Dict PublicKey) (c : OrgClient Server)
      → (fetch_org service oui cache c).0 ≢ panic
  unfolding fetch_org
  fetch_org-ne-panic oui cache c = ground arith

  pub disable_org-ne-panic :
      (oui : ℕ) (c : OrgClient Server) → (disable_org service oui c).0 ≢ panic
  unfolding disable_org
  disable_org-ne-panic oui c = ground arith

-- What holds of the daemon between two packets of a file: the open transaction and the cache agree.
pub record Sound {Chain Server : Type 0} (d : Daemon Chain Server) : Type 0 where
  pub synced : Synced d.world.db.open_txn.pending_burns d.world.cache.payer_accounts
  pub bounded : Bounded d.world.cache.payer_accounts

module _ {Chain E Transaction Server CE : Type 0} (net : SolanaNetwork Chain E Transaction)
    (service : OrgService Server CE) where
  -- The rows of the open transaction and the accounts that a packet's charge has left.
  abbrev Rows : Dict BurnRow → Daemon Chain Server → Unit {0} → Daemon Chain Server → Type 0
  Rows rows d _ d' =
      (d'.world.db.open_txn.pending_burns ≡ rows)
      × (d'.world.cache.payer_accounts ≡ d.world.cache.payer_accounts)

  accept-Rows :
      (minimum : ℕ) (r : PacketReport) (payer amount remaining now : ℕ) (d : Daemon Chain Server)
      → let rows = d.world.db.open_txn.pending_burns in
        Ends
          (Rows (insert payer (add_to_row (as_i64 amount) now (lookup payer rows)) rows) d)
          (accept net service minimum r payer amount remaining now d)
  unfolding accept statement
  accept-Rows minimum r payer amount remaining now d =
      ground (arith, disable_org-ne-panic service r.oui d.orgs)

  reject-Rows :
      (r : PacketReport) (d : Daemon Chain Server)
      → Ends (Rows d.world.db.open_txn.pending_burns d) (reject net service r d)
  unfolding reject
  reject-Rows r d = ground (arith, disable_org-ne-panic service r.oui d.orgs)

  Rows-Sound :
      (rows : Dict BurnRow) (d d' : Daemon Chain Server)
      → Synced rows d.world.cache.payer_accounts
      → Bounded d.world.cache.payer_accounts
      → Rows rows d tt d'
      → Sound d'
  Rows-Sound rows d d' s b h = record { synced = rw (h.0, h.1) s; bounded = rw h.1 b }

  refused-Synced :
      (rows : Dict BurnRow) (payer amount : ℕ) (before after : Dict PayerAccount)
      → Synced rows before
      → Debited payer amount before none after
      → Synced rows after
  refused-Synced rows payer amount before after s h = record {
    keyed = s.keyed;
    synced = λ q. rw (h q) (s.synced q);
  }

  charge-Sound :
      (minimum : ℕ) (r : PacketReport) (payer amount now : ℕ) (o : Option ℕ)
      (before : Dict PayerAccount) (d : Daemon Chain Server)
      → Synced d.world.db.open_txn.pending_burns before
      → Debited payer amount before o d.world.cache.payer_accounts
      → Bounded d.world.cache.payer_accounts
      → Ends (λ _ d'. Sound d') (charge net service minimum r payer amount now o d)
  unfolding charge
  charge-Sound minimum r payer amount now none before d s h b =
      Ends-mono (Rows d.world.db.open_txn.pending_burns d) (λ _ d'. Sound d') _
        (λ _ d' e. Rows-Sound _ d d' (refused-Synced _ payer amount before _ s h) b e)
        (reject-Rows r d)
  charge-Sound minimum r payer amount now (some remaining) before d s h b =
      let rows = d.world.db.open_txn.pending_burns in
      Ends-mono (Rows (insert payer (add_to_row (as_i64 amount) now (lookup payer rows)) rows) d)
        (λ _ d'. Sound d') _
        (λ _ d' e.
          Rows-Sound _ d d' (added-Synced rows before _ payer amount now remaining s h) b e)
        (accept-Rows minimum r payer amount remaining now d)

  pub charge_org-Sound :
      (minimum : ℕ) (r : PacketReport) (now payer : ℕ) (org_cache : Dict PublicKey) (o : Option ℕ)
      (before : Dict PayerAccount) (d : Daemon Chain Server)
      → Synced d.world.db.open_txn.pending_burns before
      → Debited payer (payload_size_to_dc r.payload_size) before o d.world.cache.payer_accounts
      → Bounded d.world.cache.payer_accounts
      → Ends (λ _ d'. Sound d') (charge_org net service minimum r now (payer, org_cache) o d)
  unfolding charge_org
  charge_org-Sound minimum r now payer org_cache o before d s h b =
      Ends-bind (λ _ d'. Sound d') (λ _ d'. Sound d')
        (charge net service minimum r payer (payload_size_to_dc r.payload_size) now o)
        (λ _. pure org_cache) d
        (charge-Sound minimum r payer (payload_size_to_dc r.payload_size) now o before d s h b)
        (λ _ d' e. e)

  pub on_cache-Ends :
      {F A : Type 0} (P : A → Cache Chain → Type 0) (f : E → F) (m : Action (Cache Chain) E A)
      (d : Daemon Chain Server)
      → Ends P (m d.world.cache)
      → Ends (λ a d'. P a d'.world.cache × (d'.world.db ≡ d.world.db)) (on_cache f m d)
  unfolding on_cache
  on_cache-Ends {F} {A} P f m d h = go (m d.world.cache) h
    where
      go :
          (r : Outcome E A × Cache Chain)
          → Ends P r
          → Ends {E = F}
              (λ a d'. P a d'.world.cache × (d'.world.db ≡ d.world.db))
              (map_err f r.0, record d { world = record d.world { cache = r.1 } })
      go (ok a, c) e = (e, refl)
      go (err x, c) e = tt
      go (panic, c) e = e
