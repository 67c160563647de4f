-- ===== src/PacketVerifier/Verifier/Returns.antt =====
-- Daemon::handle_file of iot_packet_verifier/src/daemon.rs returns where nothing that it calls fails.
use oracles.Prelude.{
  ℕ, Bool, true, false, List, [], ◌∷◌, Option, none, some, pure, ◌>>◌, Dict, arith, ltb,
}
use oracles.PacketVerifier.Solana.{PublicKey, SolanaNetwork}
use oracles.PacketVerifier.Balances.{
  debit_if_sufficient, ask_balance, debit_vacant, debit_new, debit_account, put_balance, refreshed,
}
use oracles.PacketVerifier.Pending.{on_db, add_burned_amount, begin, commit}
use oracles.PacketVerifier.Orgs.{OrgService, fetch_org, disable_org}
use oracles.PacketVerifier.Verifier.{
  PacketType, join, uplink, offer, PacketReport, Daemon, VerificationError, on_world, on_orgs,
  on_cache, on_valid, on_invalid, write, burn_error, debit_error, config_error,
  valid_packet_writer_error, invalid_packet_writer_error, valid_packet, invalid_packet,
  disable_below, accept, reject, charge, charge_org, debit_org, verify_uplink, verify_report,
  verify_from, verify, verify_commit, verify_file, stream_file, handle_file, payload_size_to_dc,
  into_stream, commit_sink, commit_sinks,
}
use oracles.PacketVerifier.Verifier.Writes.{
  Returns, bind-Returns, Answering, Faultless, begin-Returns, commit-Returns, add-Returns,
  valid-Returns, invalid-Returns, into_stream-Returns, commit_valid-Returns, commit_invalid-Returns,
}

module _ {Chain E Transaction Server CE : Type 0} (net : SolanaNetwork Chain E Transaction)
    (service : OrgService Server CE) (answering : Answering net service) where
  fetch-Returns :
      (oui : ℕ) (cache : Dict PublicKey) (d : Daemon Chain Server)
      → Faultless d
      → Returns Faultless
          (on_orgs {F = VerificationError E CE} config_error (fetch_org service oui cache) d)
  unfolding on_orgs fetch_org
  fetch-Returns oui cache d h =
      let a = h.db in
      let b = h.valid_packets in
      let c = h.invalid_packets in
      let (payer, s', e) = answering.get oui d.orgs.server in ground arith

  disable-Returns :
      (oui : ℕ) (d : Daemon Chain Server)
      → Faultless d
      → Returns Faultless
          (on_orgs {F = VerificationError E CE} config_error (disable_org service oui) d)
  unfolding on_orgs disable_org
  disable-Returns oui d h =
      let a = h.db in
      let b = h.valid_packets in
      let c = h.invalid_packets in let (s', e) = answering.disable oui d.orgs.server in ground arith

  debit-Returns :
      (payer amount threshold : ℕ) (d : Daemon Chain Server)
      → Faultless d
      → Returns Faultless (
          on_cache {F = VerificationError E CE} debit_error
            (debit_if_sufficient net payer amount threshold)
            d)
  unfolding on_cache debit_if_sufficient debit_vacant debit_new refreshed ask_balance put_balance
      debit_account
  debit-Returns payer amount threshold d h =
      let a = h.db in
      let b = h.valid_packets in
      let c = h.invalid_packets in
      let (n, c', e) = answering.payer_balance payer d.world.cache.chain in ground arith

  disable_below-Returns :
      (b : Bool) (oui : ℕ) (d : Daemon Chain Server)
      → Faultless d
      → Returns Faultless (disable_below {E = E} net service b oui d)
  unfolding disable_below
  disable_below-Returns true oui d h = disable-Returns oui d h
  disable_below-Returns false oui d h = h

  charge-Returns :
      (minimum : ℕ) (r : PacketReport) (payer amount now : ℕ) (o : Option ℕ)
      (d : Daemon Chain Server)
      → Faultless d
      → Returns Faultless (charge net service minimum r payer amount now o d)
  unfolding charge accept reject
  charge-Returns minimum r payer amount now none d h =
      bind-Returns Faultless (on_invalid invalid_packet_writer_error (write (invalid_packet r)))
        (λ _. on_orgs config_error (disable_org service r.oui)) d (invalid-Returns E CE r d h)
        (λ _ t k. disable-Returns r.oui t k)
  charge-Returns minimum r payer amount now (some remaining) d h =
      bind-Returns Faultless
        (on_world burn_error (on_db (λ e. e) (add_burned_amount payer amount now)))
        (λ _.
          on_valid valid_packet_writer_error (write (valid_packet r amount))
          >> disable_below net service (ltb remaining minimum) r.oui)
        d (add-Returns E CE payer amount now d h)
        (λ _ t k.
          bind-Returns Faultless
            (on_valid valid_packet_writer_error (write (valid_packet r amount)))
            (λ _. disable_below net service (ltb remaining minimum) r.oui) t
            (valid-Returns E CE r amount t k)
            (λ _ t' k'. disable_below-Returns (ltb remaining minimum) r.oui t' k'))

  charge_org-Returns :
      (minimum : ℕ) (r : PacketReport) (now : ℕ) (found : PublicKey × Dict PublicKey) (o : Option ℕ)
      (d : Daemon Chain Server)
      → Faultless d
      → Returns Faultless (charge_org net service minimum r now found o d)
  unfolding charge_org
  charge_org-Returns minimum r now (payer, cache) o d h =
      bind-Returns Faultless
        (charge net service minimum r payer (payload_size_to_dc r.payload_size) now o)
        (λ _. pure cache) d
        (charge-Returns minimum r payer (payload_size_to_dc r.payload_size) now o d h) (λ _ t k. k)

  debit_org-Returns :
      (minimum : ℕ) (r : PacketReport) (now : ℕ) (found : PublicKey × Dict PublicKey)
      (d : Daemon Chain Server)
      → Faultless d
      → Returns Faultless (debit_org net service minimum r now found d)
  unfolding debit_org
  debit_org-Returns minimum r now found d h =
      bind-Returns Faultless
        (on_cache debit_error
          (debit_if_sufficient net found.0 (payload_size_to_dc r.payload_size) minimum))
        (λ o. charge_org net service minimum r now found o) d
        (debit-Returns found.0 (payload_size_to_dc r.payload_size) minimum d h)
        (λ o t k. charge_org-Returns minimum r now found o t k)

  verify_report-Returns :
      (minimum : ℕ) (cache : Dict PublicKey) (t : PacketType) (r : PacketReport) (now : ℕ)
      (d : Daemon Chain Server)
      → Faultless d
      → Returns Faultless (verify_report net service minimum cache t r now d)
  unfolding verify_report verify_uplink
  verify_report-Returns minimum cache uplink r now d h =
      bind-Returns Faultless (on_orgs config_error (fetch_org service r.oui cache))
        (λ found. debit_org net service minimum r now found) d (fetch-Returns r.oui cache d h)
        (λ found t k. debit_org-Returns minimum r now found t k)
  verify_report-Returns minimum cache join r now d h = h
  verify_report-Returns minimum cache offer r now d h = h

  verify_from-Returns :
      (minimum : ℕ) (cache : Dict PublicKey) (reports : List (PacketReport × ℕ))
      (d : Daemon Chain Server)
      → Faultless d
      → Returns Faultless (verify_from net service minimum cache reports d)
  unfolding verify_from
  verify_from-Returns minimum cache [] d h = h
  verify_from-Returns minimum cache ((r, now) ∷ reports) d h =
      bind-Returns Faultless (verify_report net service minimum cache r.packet_type r now)
        (λ cache'. verify_from net service minimum cache' reports) d
        (verify_report-Returns minimum cache r.packet_type r now d h)
        (λ cache' t k. verify_from-Returns minimum cache' reports t k)

  verify_commit-Returns :
      (minimum : ℕ) (reports : List (PacketReport × ℕ)) (d : Daemon Chain Server)
      → Faultless d
      → Returns Faultless (verify_commit net service minimum reports d)
  unfolding verify_commit verify
  verify_commit-Returns minimum reports d h =
      bind-Returns Faultless (verify net service minimum reports)
        (λ _. on_world burn_error (on_db (λ e. e) commit)) d
        (verify_from-Returns minimum [] reports d h) (λ _ t k. commit-Returns E CE t k)

  verify_file-Returns :
      (minimum : ℕ) (reports : List (PacketReport × ℕ)) (d : Daemon Chain Server)
      → Faultless d
      → Returns Faultless (verify_file net service minimum reports d)
  unfolding verify_file commit_sinks
  verify_file-Returns minimum reports d h =
      bind-Returns Faultless (verify_commit net service minimum reports) (λ _. commit_sinks) d
        (verify_commit-Returns minimum reports d h)
        (λ _ t k.
          bind-Returns Faultless (on_valid valid_packet_writer_error commit_sink)
            (λ _. on_invalid invalid_packet_writer_error commit_sink) t
            (commit_valid-Returns E CE t k) (λ _ t' k'. commit_invalid-Returns E CE t' k'))

  stream_file-Returns :
      (minimum : ℕ) (reports : List (PacketReport × ℕ)) (d : Daemon Chain Server)
      → Faultless d
      → Returns Faultless (stream_file net service minimum reports d)
  unfolding stream_file
  stream_file-Returns minimum reports d h =
      bind-Returns Faultless (on_world burn_error (on_db (λ e. e) into_stream))
        (λ _. verify_file net service minimum reports) d (into_stream-Returns E CE d h)
        (λ _ t k. verify_file-Returns minimum reports t k)

  -- Where the chain and the configuration service answer every call, every organisation has a payer,
  -- and no statement, no write and no commit of a sink is to fail, `handle_file` returns, whatever the
  -- balances are, and none is to fail after it.
  pub handle_file-Returns :
      (minimum : ℕ) (reports : List (PacketReport × ℕ)) (d : Daemon Chain Server)
      → Faultless d
      → Returns Faultless (handle_file net service minimum reports d)
  unfolding handle_file
  handle_file-Returns minimum reports d h =
      bind-Returns Faultless (on_world burn_error (on_db (λ e. e) begin))
        (λ _. stream_file net service minimum reports) d (begin-Returns E CE d h)
        (λ _ t k. stream_file-Returns minimum reports t k)
