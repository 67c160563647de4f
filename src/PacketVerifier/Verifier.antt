-- ===== src/PacketVerifier/Verifier.antt =====
-- iot_packet_verifier/src/verifier.rs: `Verifier::verify` as the daemon runs it, over the balance
-- cache, the organisations' client, the database transaction of the file and the two file sinks;
-- and `Daemon::handle_file` of iot_packet_verifier/src/daemon.rs.
pub mod Charges
pub mod Packets
pub mod Files
pub mod Writes
pub mod Returns
use Prim.Native.Nat.{max}
use oracles.Prelude.{
  ℕ, ◌+◌, ◌-◌, ◌/◌, ◌%◌, ◌^◌, Bool, true, false, List, [], ◌∷◌, ◌++◌, Option, none, some, Outcome,
  ok, err, panic, Action, pure, ◌>>=◌, ◌>>◌, map_err, Dict, ltb, if◌then◌else◌,
}
use oracles.PacketVerifier.Solana.{PublicKey, SolanaNetwork}
use oracles.PacketVerifier.Balances.{u64, Cache, debit_if_sufficient}
use oracles.PacketVerifier.Pending.{
  SqlxError, Db, World, on_db, statement, add_burned_amount, begin, commit,
}
use oracles.PacketVerifier.Orgs.{OrgService, OrgClient, ConfigServerError, fetch_org, disable_org}

-- BYTES_PER_DC.
abbrev pub bytes_per_dc : ℕ
bytes_per_dc = 24

unfoldable pub payload_size_to_dc : ℕ → ℕ
payload_size_to_dc payload_size =
    let payload_size = max payload_size bytes_per_dc in
    u64 (payload_size + bytes_per_dc - 1) / bytes_per_dc

pub data PacketType : Type 0 where
  join uplink offer : PacketType

pub record PacketReport : Type 0 where
  pub packet_type : PacketType
  pub oui : ℕ
  pub timestamp : ℕ
  pub payload_size : ℕ
  pub gateway : PublicKey
  pub payload_hash : ℕ

pub record ValidPacket : Type 0 where
  pub packet_timestamp : ℕ
  pub payload_size : ℕ
  pub gateway : PublicKey
  pub payload_hash : ℕ
  pub num_dcs : ℕ

pub data InvalidPacketReason : Type 0 where
  insufficient_balance : InvalidPacketReason

pub record InvalidPacket : Type 0 where
  pub payload_size : ℕ
  pub gateway : PublicKey
  pub payload_hash : ℕ
  pub reason : InvalidPacketReason

-- A file sink may fail a write: the schedule says which of the next ones fail.
pub record Sink (T : Type 0) : Type 0 where
  pub written : List T
  pub faults : List Bool

pub data SinkError : Type 0 where
  write_failed : SinkError

unfoldable pub write : {T : Type 0} → T → Action (Sink T) SinkError (Unit {0})
write x s = elim s.faults [
  | [] ↦ (ok tt, record s { written = s.written ++ x ∷ [] })
  | fault ∷ rest ↦
      if fault
      then (err write_failed, record s { faults = rest })
      else (ok tt, record { written = s.written ++ x ∷ []; faults = rest })
]

-- `into_stream`: the file is recorded in files_processed, a table that nothing else here reads. The
-- statement may fail.
unfoldable pub into_stream : Action Db SqlxError (Unit {0})
unfolding statement
into_stream = statement λ db. (ok tt, db)

-- A sink's own commit, which may fail.
unfoldable pub commit_sink : {T : Type 0} → Action (Sink T) SinkError (Unit {0})
commit_sink k = elim k.faults [
  | [] ↦ (ok tt, k)
  | fault ∷ rest ↦
      (elim fault [ true ↦ err write_failed | false ↦ ok tt ], record k { faults = rest })
]

pub data VerificationError (DE CE : Type 0) : Type 0 where
  debit_error : DE → VerificationError DE CE
  config_error : ConfigServerError CE → VerificationError DE CE
  burn_error : SqlxError → VerificationError DE CE
  valid_packet_writer_error : SinkError → VerificationError DE CE
  invalid_packet_writer_error : SinkError → VerificationError DE CE

pub record Daemon (Chain Server : Type 0) : Type 0 where
  pub world : World Chain
  pub orgs : OrgClient Server
  pub valid_packets : Sink ValidPacket
  pub invalid_packets : Sink InvalidPacket

abbrev pub valid_packet : PacketReport → ℕ → ValidPacket
valid_packet r amount = record {
  packet_timestamp = r.timestamp;
  payload_size = r.payload_size;
  gateway = r.gateway;
  payload_hash = r.payload_hash;
  num_dcs = amount % 2 ^ 32;
}

abbrev pub invalid_packet : PacketReport → InvalidPacket
invalid_packet r = record {
  payload_size = r.payload_size;
  gateway = r.gateway;
  payload_hash = r.payload_hash;
  reason = insufficient_balance;
}

module _ {Chain Server : Type 0} where
  unfoldable pub on_orgs :
      {E F A : Type 0} → (E → F) → Action (OrgClient Server) E A → Action (Daemon Chain Server) F A
  on_orgs f m d = let (r, o) = m d.orgs in (map_err f r, record d { orgs = o })

  unfoldable pub on_cache :
      {E F A : Type 0} → (E → F) → Action (Cache Chain) E A → Action (Daemon Chain Server) F A
  on_cache f m d =
      let (r, c) = m d.world.cache in
      (map_err f r, record d { world = record d.world { cache = c } })

  unfoldable pub on_world :
      {E F A : Type 0} → (E → F) → Action (World Chain) E A → Action (Daemon Chain Server) F A
  on_world f m d = let (r, w) = m d.world in (map_err f r, record d { world = w })

  unfoldable pub on_valid :
      {E F A : Type 0} → (E → F) → Action (Sink ValidPacket) E A → Action (Daemon Chain Server) F A
  on_valid f m d = let (r, s) = m d.valid_packets in (map_err f r, record d { valid_packets = s })

  unfoldable pub on_invalid :
      {E F A : Type 0}
      → (E → F)
      → Action (Sink InvalidPacket) E A
      → Action (Daemon Chain Server) F A
  on_invalid f m d =
      let (r, s) = m d.invalid_packets in (map_err f r, record d { invalid_packets = s })

  -- The two sinks' commits, which follow that of the file's transaction.
  unfoldable pub commit_sinks :
      {E CE : Type 0} → Action (Daemon Chain Server) (VerificationError E CE) (Unit {0})
  unfolding on_valid on_invalid commit_sink
  commit_sinks = do
    on_valid valid_packet_writer_error commit_sink
    on_invalid invalid_packet_writer_error commit_sink

module _ {Chain E Transaction Server CE : Type 0} (net : SolanaNetwork Chain E Transaction)
    (service : OrgService Server CE) where
  unfoldable pub disable_below :
      Bool → ℕ → Action (Daemon Chain Server) (VerificationError E CE) (Unit {0})
  unfolding on_orgs
  disable_below true oui = on_orgs config_error (disable_org service oui)
  disable_below false oui = pure tt

  -- The packet is paid for: the amount is added to the pending burns (at the time `now`), the packet
  -- is written, and the organisation is disabled if too little remains.
  unfoldable pub accept :
      ℕ
      → PacketReport
      → PublicKey
      → ℕ
      → ℕ
      → ℕ
      → Action (Daemon Chain Server) (VerificationError E CE) (Unit {0})
  unfolding on_world on_db add_burned_amount on_valid write disable_below
  accept minimum_allowed_balance r payer amount remaining_balance now = do
    on_world burn_error (on_db (λ e. e) (add_burned_amount payer amount now))
    on_valid valid_packet_writer_error (write (valid_packet r amount))
    disable_below (ltb remaining_balance minimum_allowed_balance) r.oui

  -- The packet is not paid for.
  unfoldable pub reject :
      PacketReport → Action (Daemon Chain Server) (VerificationError E CE) (Unit {0})
  unfolding on_invalid write on_orgs
  reject r = do
    on_invalid invalid_packet_writer_error (write (invalid_packet r))
    on_orgs config_error (disable_org service r.oui)

  unfoldable pub charge :
      ℕ
      → PacketReport
      → PublicKey
      → ℕ
      → ℕ
      → Option ℕ
      → Action (Daemon Chain Server) (VerificationError E CE) (Unit {0})
  unfolding accept reject
  charge minimum r payer amount now none = reject r
  charge minimum r payer amount now (some remaining) = accept minimum r payer amount remaining now

  unfoldable pub charge_org :
      ℕ
      → PacketReport
      → ℕ
      → PublicKey × Dict PublicKey
      → Option ℕ
      → Action (Daemon Chain Server) (VerificationError E CE) (Dict PublicKey)
  unfolding charge
  charge_org minimum r now (payer, org_cache) remaining = do
    charge minimum r payer (payload_size_to_dc r.payload_size) now remaining
    pure org_cache

  unfoldable pub debit_org :
      ℕ
      → PacketReport
      → ℕ
      → PublicKey × Dict PublicKey
      → Action (Daemon Chain Server) (VerificationError E CE) (Dict PublicKey)
  unfolding on_cache charge_org
  debit_org minimum r now found = do
    remaining ←
        on_cache debit_error
          (debit_if_sufficient net found.0 (payload_size_to_dc r.payload_size) minimum)
    charge_org minimum r now found remaining

  -- The body of the loop for an uplink packet; it returns the cache of the organisations' payers.
  unfoldable pub verify_uplink :
      ℕ
      → Dict PublicKey
      → PacketReport
      → ℕ
      → Action (Daemon Chain Server) (VerificationError E CE) (Dict PublicKey)
  unfolding on_orgs debit_org
  verify_uplink minimum org_cache r now = do
    found ← on_orgs config_error (fetch_org service r.oui org_cache)
    debit_org minimum r now found

  unfoldable pub verify_report :
      ℕ
      → Dict PublicKey
      → PacketType
      → PacketReport
      → ℕ
      → Action (Daemon Chain Server) (VerificationError E CE) (Dict PublicKey)
  unfolding verify_uplink
  verify_report minimum org_cache uplink r now = verify_uplink minimum org_cache r now
  verify_report minimum org_cache join r now = pure org_cache
  verify_report minimum org_cache offer r now = pure org_cache

  -- The loop over the stream of reports, each with the time at which it is charged.
  unfoldable pub verify_from :
      ℕ
      → Dict PublicKey
      → List (PacketReport × ℕ)
      → Action (Daemon Chain Server) (VerificationError E CE) (Unit {0})
  unfolding verify_report
  verify_from minimum org_cache [] = pure tt
  verify_from minimum org_cache ((r, now) ∷ reports) = do
    org_cache' ← verify_report minimum org_cache r.packet_type r now
    verify_from minimum org_cache' reports

  -- `Verifier::verify`.
  unfoldable pub verify :
      ℕ → List (PacketReport × ℕ) → Action (Daemon Chain Server) (VerificationError E CE) (Unit {0})
  unfolding verify_from
  verify minimum reports = verify_from minimum [] reports

  unfoldable pub verify_commit :
      ℕ → List (PacketReport × ℕ) → Action (Daemon Chain Server) (VerificationError E CE) (Unit {0})
  unfolding on_world on_db verify commit
  verify_commit minimum reports = do
    verify minimum reports
    on_world burn_error (on_db (λ e. e) commit)

  unfoldable pub verify_file :
      ℕ → List (PacketReport × ℕ) → Action (Daemon Chain Server) (VerificationError E CE) (Unit {0})
  unfolding verify_commit commit_sinks
  verify_file minimum reports = do verify_commit minimum reports; commit_sinks

  unfoldable pub stream_file :
      ℕ → List (PacketReport × ℕ) → Action (Daemon Chain Server) (VerificationError E CE) (Unit {0})
  unfolding on_world on_db into_stream verify_file
  stream_file minimum reports = do
    on_world burn_error (on_db (λ e. e) into_stream)
    verify_file minimum reports

  -- `Daemon::handle_file`: the file is verified in one transaction, which also records that it was.
  unfoldable pub handle_file :
      ℕ → List (PacketReport × ℕ) → Action (Daemon Chain Server) (VerificationError E CE) (Unit {0})
  unfolding on_world on_db begin stream_file
  handle_file minimum reports = do
    on_world burn_error (on_db (λ e. e) begin)
    stream_file minimum reports
