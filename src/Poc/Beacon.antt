-- ===== src/Poc/Beacon.antt =====
-- The beacon's half of iot_verifier/src/poc.rs: the order of its checks, and what `verify_beacon`
-- makes of them. The gateway and region caches, the table of last beacons and the hex density map
-- are functions of a key, since nothing here changes them.
use oracles.Prelude.{
  ℕ, ◌+◌, ◌-◌, ◌*◌, ◌%◌, ◌^◌, Bool, true, false, not, Option, none, some, List, Outcome, ok, err,
  panic, Reply, done, failed,
}
use oracles.Prelude.Int.{ℤ, pos, negsuc}
use oracles.Poc.Types.{
  PublicKey, Bytes, seconds, InvalidResponse, invalid_packet, not_asserted, VerifyResult,
  GatewayMetadata, GatewayInfo, BeaconReport, BeaconIngestReport, WitnessIngestReport, LastBeacon,
  VerifyBeaconResult, valid_beacon, invalid_beacon, beacon_gateway_not_found,
}
use oracles.Poc.Externals.{Entropy, RegionParams, Beacon, Beacons, DenyList}
use oracles.Poc.Checks.{
  ◌&>◌, refuse, refuse_if, verify_denylist, verify_entropy, verify_gw_capability,
  verify_beacon_schedule,
}
pub mod Accepted
pub mod Results

-- `as u32` of an `i32`.
abbrev pub as_u32 : ℤ → ℕ
as_u32 (pos n) = n % 2 ^ 32
as_u32 (negsuc n) = 2 ^ 32 - 1 - n

-- `Poc::new`, which sets the end of the entropy's life; ENTROPY_LIFESPAN is 180 seconds.
pub record Poc : Type 0 where
  pub beacon_report : BeaconIngestReport
  pub witness_reports : List WitnessIngestReport
  pub entropy_start : ℕ
  pub entropy_end : ℕ
  pub entropy_version : ℤ

unfoldable pub new : BeaconIngestReport → List WitnessIngestReport → ℕ → ℤ → Poc
new beacon witnesses entropy_start entropy_version = record {
  beacon_report = beacon;
  witness_reports = witnesses;
  entropy_start = entropy_start;
  entropy_end = entropy_start + 180 * 1_000_000_000;
  entropy_version = entropy_version;
}

-- The two entropies of a beacon; the local one has the time 0.
abbrev pub entropy_of : ℕ → Bytes → ℕ → Entropy
entropy_of timestamp bytes version = record {
  timestamp = timestamp;
  bytes = bytes;
  version = version;
}

unfoldable pub to_beacon : BeaconReport → ℕ → ℕ → Beacon
to_beacon r entropy_start version = record {
  packet = r.packet;
  frequency = r.frequency;
  datarate = r.datarate;
  remote_entropy = entropy_of (seconds entropy_start) r.remote_entropy version;
  local_entropy = entropy_of 0 r.local_entropy version;
  conducted_power = as_u32 r.tx_power;
}

module _ {Params E : Type 0} (beacons : Beacons Params E) where
  unfoldable pub generate_beacon : RegionParams Params → ℕ → ℕ → Bytes → Bytes → Reply E Beacon
  generate_beacon params entropy_start version local remote =
      beacons.new (entropy_of entropy_start remote version) (entropy_of 0 local version) params

  -- The generated beacon has to verify the reported one.
  abbrev pub compare_beacons : Reply E Beacon → Beacon → VerifyResult
  compare_beacons (failed e) reported = refuse invalid_packet
  compare_beacons (done generated) reported =
      refuse_if (not (beacons.verify generated reported)) invalid_packet

  unfoldable pub verify_beacon_payload : BeaconReport → ℕ → Params → ℤ → ℕ → ℕ → VerifyResult
  unfolding generate_beacon to_beacon
  verify_beacon_payload r region params gain entropy_start version =
      compare_beacons
        (generate_beacon (record { region = region; params = params; gain = gain; timestamp = 0 })
          (seconds entropy_start) version r.local_entropy r.remote_entropy)
        (to_beacon r entropy_start version)

  module _ (duration_trunc : ℕ → ℕ → Option ℕ) (deny_list : DenyList) where
    -- The checks that need the gateway's metadata.
    abbrev pub asserted_checks :
        Option GatewayMetadata
        → ℕ
        → ℕ
        → ℤ
        → Option LastBeacon
        → BeaconIngestReport
        → Bool
        → Params
        → ℕ
        → VerifyResult
    asserted_checks none start end version last b full params interval = refuse not_asserted
    asserted_checks (some m) start end version last b full params interval =
        verify_denylist b.report.pub_key deny_list
        &> verify_entropy start end b.received_timestamp
        &> verify_gw_capability full
        &> verify_beacon_schedule duration_trunc last b.received_timestamp interval
        &> verify_beacon_payload b.report m.region params m.gain start (as_u32 version)

    unfoldable pub do_beacon_verifications :
        ℕ → ℕ → ℤ → Option LastBeacon → BeaconIngestReport → GatewayInfo → Params → ℕ → VerifyResult
    unfolding verify_denylist verify_entropy verify_gw_capability verify_beacon_schedule
        verify_beacon_payload
    do_beacon_verifications start end version last b info params interval =
        asserted_checks info.metadata start end version last b info.is_full_hotspot params interval

-- `VerificationError`; the two variants that no call makes are left out.
pub data VerificationError (Db Region : Type 0) : Type 0 where
  last_beacon_error : Db → VerificationError Db Region
  region_cache_error : Region → VerificationError Db Region

-- What the verifier reads: the gateways and their regions, the last beacons, and the hex density.
pub record Tables (Params Db Region : Type 0) : Type 0 where
  pub gateways : PublicKey → Option GatewayInfo
  pub regions : ℕ → Reply Region Params
  pub last_beacons : PublicKey → Reply Db (Option LastBeacon)
  pub density : ℕ → Option ℕ

-- DEFAULT_TX_SCALE, 0.2.
abbrev pub tx_scale : Option ℕ → ℕ
tx_scale none = 2000
tx_scale (some scale) = scale

abbrev pub Answer : Type 0 → Type 0 → Type 0
Answer Db Region = Outcome (VerificationError Db Region) VerifyBeaconResult

module _ {Params E Db Region : Type 0} (beacons : Beacons Params E)
    (duration_trunc : ℕ → ℕ → Option ℕ) (deny_list : DenyList)
    (tables : Tables Params Db Region) where
  -- The answer that the checks' result becomes.
  abbrev pub beacon_answer : VerifyResult → GatewayInfo → ℕ → Answer Db Region
  beacon_answer (ok _) info location = ok (valid_beacon info (tx_scale (tables.density location)))
  beacon_answer (err r) info location = ok (invalid_beacon r.reason r.details info)
  beacon_answer panic info location = panic

  abbrev pub with_last :
      Reply Db (Option LastBeacon)
      → Poc
      → ℕ
      → GatewayInfo
      → GatewayMetadata
      → Params
      → Answer Db Region
  with_last (failed e) poc interval info m params = err (last_beacon_error e)
  with_last (done last) poc interval info m params =
      beacon_answer
        (do_beacon_verifications beacons duration_trunc deny_list poc.entropy_start poc.entropy_end
          poc.entropy_version last poc.beacon_report info params interval)
        info m.location

  abbrev pub with_region :
      Reply Region Params → Poc → ℕ → GatewayInfo → GatewayMetadata → Answer Db Region
  with_region (failed e) poc interval info m = err (region_cache_error e)
  with_region (done params) poc interval info m =
      with_last (tables.last_beacons poc.beacon_report.report.pub_key) poc interval info m params

  abbrev pub with_metadata : Option GatewayMetadata → Poc → ℕ → GatewayInfo → Answer Db Region
  with_metadata none poc interval info = ok (invalid_beacon not_asserted none info)
  with_metadata (some m) poc interval info =
      with_region (tables.regions m.region) poc interval info m

  abbrev pub with_gateway : Option GatewayInfo → Poc → ℕ → Answer Db Region
  with_gateway none poc interval = ok beacon_gateway_not_found
  with_gateway (some info) poc interval = with_metadata info.metadata poc interval info

  unfoldable pub verify_beacon : Poc → ℕ → Answer Db Region
  unfolding do_beacon_verifications
  verify_beacon poc interval =
      with_gateway (tables.gateways poc.beacon_report.report.pub_key) poc interval
