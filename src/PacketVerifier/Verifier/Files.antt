-- ===== src/PacketVerifier/Verifier/Files.antt =====
-- iot_packet_verifier/src/verifier.rs, `Verifier::verify`, and iot_packet_verifier/src/daemon.rs,
-- `Daemon::handle_file`: a file keeps the cache and the pending burns in agreement.
use oracles.Prelude.{
  ℕ, ◌^◌, ◌<◌, ◌≡◌, refl, ◌≢◌, List, [], ◌∷◌, Bool, true, false, Outcome, ok, err, panic, Ends,
  Ends-bind, done, arith, Dict, Action, map_err, map_err,
}
use oracles.PacketVerifier.Solana.{PublicKey, SolanaNetwork}
use oracles.PacketVerifier.Balances.{debit_if_sufficient}
use oracles.PacketVerifier.Balances.Debit.{Bounded, After, debit_if_sufficient-After}
use oracles.PacketVerifier.Pending.{statement, on_db, begin, commit}
use oracles.PacketVerifier.Pending.Sync.{with_faults, InSync}
use oracles.PacketVerifier.Orgs.{OrgService, OrgClient, ConfigServerError, fetch_org}
use oracles.PacketVerifier.Verifier.{
  Daemon, PacketReport, PacketType, uplink, join, offer, debit_error, config_error, burn_error,
  on_world, VerificationError, on_orgs, on_cache, charge_org, debit_org, verify_uplink,
  verify_report, verify_from, verify, verify_commit, verify_file, stream_file, handle_file,
  payload_size_to_dc, into_stream, commit_sink, commit_sinks, on_valid, on_invalid,
  valid_packet_writer_error, invalid_packet_writer_error,
}
use oracles.PacketVerifier.Verifier.Charges.{
  Sound, charge_org-Sound, on_cache-Ends, fetch_org-ne-panic,
}

-- A packet costs at least one credit, and far fewer than 2 ^ 63.
payload_size_to_dc-small : (size : ℕ) → payload_size_to_dc size < 2 ^ 63
unfolding payload_size_to_dc
payload_size_to_dc-small size = omega arith

module _ {Chain E Transaction Server CE : Type 0} (net : SolanaNetwork Chain E Transaction)
    (service : OrgService Server CE)
    (chain_bounded : (payer : PublicKey) (c c' : Chain) (balance : ℕ)
      → net.payer_balance payer c ≡ (done balance, c')
      → balance < 2 ^ 63) where
  debit_org-Sound :
      (minimum : ℕ) (r : PacketReport) (now payer : ℕ) (org_cache : Dict PublicKey)
      (d : Daemon Chain Server)
      → Sound d
      → Ends (λ _ d'. Sound d') (debit_org net service minimum r now (payer, org_cache) d)
  unfolding debit_org
  debit_org-Sound minimum r now payer org_cache d s =
      Ends-bind
        (λ o d'.
          After net chain_bounded payer (payload_size_to_dc r.payload_size) d.world.cache o
            d'.world.cache
          × (d'.world.db ≡ d.world.db))
        (λ _ d'. Sound d')
        (on_cache debit_error
          (debit_if_sufficient net payer (payload_size_to_dc r.payload_size) minimum))
        (charge_org net service minimum r now (payer, org_cache)) d
        (on_cache-Ends net service {F = VerificationError E CE}
          (After net chain_bounded payer (payload_size_to_dc r.payload_size) d.world.cache)
          debit_error (debit_if_sufficient net payer (payload_size_to_dc r.payload_size) minimum) d
          (debit_if_sufficient-After net chain_bounded payer (payload_size_to_dc r.payload_size)
            minimum d.world.cache (payload_size_to_dc-small r.payload_size)
            (λ q. (s.synced.synced q).1) s.bounded))
        (λ o d' h.
          charge_org-Sound net service minimum r now payer org_cache o d.world.cache.payer_accounts
            d' (rw h.1 s.synced) h.0.0 h.0.1)

  -- A call of the organisations' client leaves the accounts and the tables.
  on_orgs-Sound :
      {A : Type 0} (m : Action (OrgClient Server) (ConfigServerError CE) A)
      (d : Daemon Chain Server)
      → (m d.orgs).0 ≢ panic
      → Sound d
      → Ends {E = VerificationError E CE} (λ _ d'. Sound d') (on_orgs config_error m d)
  unfolding on_orgs
  on_orgs-Sound {A} m d n s = go (m d.orgs) n
    where
      go :
          (r : Outcome (ConfigServerError CE) A × OrgClient Server)
          → r.0 ≢ panic
          → Ends {E = VerificationError E CE}
              (λ _ d'. Sound d')
              (map_err config_error r.0, record d { orgs = r.1 })
      go (ok a, o) n = record { synced = s.synced; bounded = s.bounded }
      go (err x, o) n = tt
      go (panic, o) n = n refl

  verify_uplink-Sound :
      (minimum : ℕ) (org_cache : Dict PublicKey) (r : PacketReport) (now : ℕ)
      (d : Daemon Chain Server)
      → Sound d
      → Ends (λ _ d'. Sound d') (verify_uplink net service minimum org_cache r now d)
  unfolding verify_uplink
  verify_uplink-Sound minimum org_cache r now d s =
      Ends-bind (λ _ d'. Sound d') (λ _ d'. Sound d')
        (on_orgs config_error (fetch_org service r.oui org_cache))
        (debit_org net service minimum r now) d
        (on_orgs-Sound (fetch_org service r.oui org_cache) d
          (fetch_org-ne-panic service r.oui org_cache d.orgs) s)
        (λ found d' s'. debit_org-Sound minimum r now found.0 found.1 d' s')

  verify_report-Sound :
      (minimum : ℕ) (org_cache : Dict PublicKey) (t : PacketType) (r : PacketReport) (now : ℕ)
      (d : Daemon Chain Server)
      → Sound d
      → Ends (λ _ d'. Sound d') (verify_report net service minimum org_cache t r now d)
  unfolding verify_report
  verify_report-Sound minimum org_cache uplink r now d s =
      verify_uplink-Sound minimum org_cache r now d s
  verify_report-Sound minimum org_cache join r now d s = s
  verify_report-Sound minimum org_cache offer r now d s = s

  verify_from-Sound :
      (minimum : ℕ) (org_cache : Dict PublicKey) (reports : List (PacketReport × ℕ))
      (d : Daemon Chain Server)
      → Sound d
      → Ends (λ _ d'. Sound d') (verify_from net service minimum org_cache reports d)
  unfolding verify_from
  verify_from-Sound minimum org_cache [] d s = s
  verify_from-Sound minimum org_cache ((r, now) ∷ reports) d s =
      Ends-bind (λ _ d'. Sound d') (λ _ d'. Sound d')
        (verify_report net service minimum org_cache r.packet_type r now)
        (λ org_cache'. verify_from net service minimum org_cache' reports) d
        (verify_report-Sound minimum org_cache r.packet_type r now d s)
        (λ org_cache' d' s'. verify_from-Sound minimum org_cache' reports d' s')

  -- The state between two files: the tables and the cache agree.
  abbrev pub Settled : Daemon Chain Server → Type 0
  Settled d = InSync d.world × Bounded d.world.cache.payer_accounts

  begin_file_faults :
      (faults : List Bool) (d : Daemon Chain Server)
      → Settled d
      → Ends {E = VerificationError E CE}
          (λ _ d'. Sound d')
          (on_world burn_error
            (on_db (λ e. e) begin)
            (record d { world = with_faults faults d.world }))
  unfolding on_world on_db begin statement
  begin_file_faults [] d s = record { synced = s.0; bounded = s.1 }
  begin_file_faults (true ∷ rest) d s = tt
  begin_file_faults (false ∷ rest) d s = record { synced = s.0; bounded = s.1 }

  begin_file-Sound :
      (d : Daemon Chain Server)
      → Settled d
      → Ends {E = VerificationError E CE}
          (λ _ d'. Sound d')
          (on_world burn_error (on_db (λ e. e) begin) d)
  begin_file-Sound d s = begin_file_faults d.world.db.faults d s

  commit_file_faults :
      (faults : List Bool) (d : Daemon Chain Server)
      → Sound d
      → Ends {E = VerificationError E CE}
          (λ _ d'. Settled d')
          (on_world burn_error
            (on_db (λ e. e) commit)
            (record d { world = with_faults faults d.world }))
  unfolding on_world on_db commit statement
  commit_file_faults [] d s = (s.synced, s.bounded)
  commit_file_faults (true ∷ rest) d s = tt
  commit_file_faults (false ∷ rest) d s = (s.synced, s.bounded)

  commit_file-Settled :
      (d : Daemon Chain Server)
      → Sound d
      → Ends {E = VerificationError E CE}
          (λ _ d'. Settled d')
          (on_world burn_error (on_db (λ e. e) commit) d)
  commit_file-Settled d s = commit_file_faults d.world.db.faults d s

  verify_commit-Settled :
      (minimum : ℕ) (reports : List (PacketReport × ℕ)) (d : Daemon Chain Server)
      → Sound d
      → Ends (λ _ d'. Settled d') (verify_commit net service minimum reports d)
  unfolding verify_commit verify
  verify_commit-Settled minimum reports d s =
      Ends-bind (λ _ d'. Sound d') (λ _ d'. Settled d') (verify net service minimum reports)
        (λ _. on_world burn_error (on_db (λ e. e) commit)) d
        (verify_from-Sound minimum [] reports d s) (λ _ d' s'. commit_file-Settled d' s')

  into_stream_faults :
      (faults : List Bool) (d : Daemon Chain Server)
      → Sound d
      → Ends {E = VerificationError E CE}
          (λ _ d'. Sound d')
          (on_world burn_error
            (on_db (λ e. e) into_stream)
            (record d { world = with_faults faults d.world }))
  unfolding on_world on_db into_stream statement
  into_stream_faults [] d s = record { synced = s.synced; bounded = s.bounded }
  into_stream_faults (true ∷ rest) d s = tt
  into_stream_faults (false ∷ rest) d s = record { synced = s.synced; bounded = s.bounded }

  commit_valid-Settled :
      (faults : List Bool) (d : Daemon Chain Server)
      → Settled d
      → Ends {E = VerificationError E CE}
          (λ _ d'. Settled d')
          (on_valid valid_packet_writer_error commit_sink
            (record d { valid_packets = record d.valid_packets { faults = faults } }))
  unfolding on_valid commit_sink
  commit_valid-Settled [] d s = s
  commit_valid-Settled (true ∷ rest) d s = tt
  commit_valid-Settled (false ∷ rest) d s = s

  commit_invalid-Settled :
      (faults : List Bool) (d : Daemon Chain Server)
      → Settled d
      → Ends {E = VerificationError E CE}
          (λ _ d'. Settled d')
          (on_invalid invalid_packet_writer_error commit_sink
            (record d { invalid_packets = record d.invalid_packets { faults = faults } }))
  unfolding on_invalid commit_sink
  commit_invalid-Settled [] d s = s
  commit_invalid-Settled (true ∷ rest) d s = tt
  commit_invalid-Settled (false ∷ rest) d s = s

  commit_sinks-Settled :
      (d : Daemon Chain Server)
      → Settled d
      → Ends (λ _ d'. Settled d') (commit_sinks {E = E} {CE = CE} d)
  unfolding commit_sinks
  commit_sinks-Settled d s =
      Ends-bind (λ _ d'. Settled d') (λ _ d'. Settled d')
        (on_valid valid_packet_writer_error commit_sink)
        (λ _. on_invalid invalid_packet_writer_error commit_sink) d
        (commit_valid-Settled d.valid_packets.faults d s)
        (λ _ d' s'. commit_invalid-Settled d'.invalid_packets.faults d' s')

  stream_file-Settled :
      (minimum : ℕ) (reports : List (PacketReport × ℕ)) (d : Daemon Chain Server)
      → Sound d
      → Ends (λ _ d'. Settled d') (stream_file net service minimum reports d)
  unfolding stream_file verify_file
  stream_file-Settled minimum reports d s =
      Ends-bind (λ _ d'. Sound d') (λ _ d'. Settled d')
        (on_world burn_error (on_db (λ e. e) into_stream))
        (λ _. verify_file net service minimum reports) d (into_stream_faults d.world.db.faults d s)
        (λ _ d' s'.
          Ends-bind (λ _ d'. Settled d') (λ _ d'. Settled d')
            (verify_commit net service minimum reports) (λ _. commit_sinks) d'
            (verify_commit-Settled minimum reports d' s') (λ _ e t. commit_sinks-Settled e t))

  -- Where the chain reports no balance of 2 ^ 63 or more, the tables and the cache agree before a file
  -- is handled, and no balance in the cache reaches 2 ^ 63: handling it does not panic, and when it
  -- returns, its transaction committed, both hold again. So every credit debited in the cache is in the
  -- table of pending burns, under the same payer.
  pub handle_file-Settled :
      (minimum : ℕ) (reports : List (PacketReport × ℕ)) (d : Daemon Chain Server)
      → Settled d
      → Ends (λ _ d'. Settled d') (handle_file net service minimum reports d)
  unfolding handle_file
  handle_file-Settled minimum reports d s =
      Ends-bind (λ _ d'. Sound d') (λ _ d'. Settled d') (on_world burn_error (on_db (λ e. e) begin))
        (λ _. stream_file net service minimum reports) d (begin_file-Sound d s)
        (λ _ d' s'. stream_file-Settled minimum reports d' s')
