-- ===== src/Poc/Beacon/Accepted.antt =====
-- Which beacons the checks of iot_verifier/src/poc.rs let through.
use oracles.Prelude.{
  ℕ, ◌≤◌, ◌≡◌, refl, ◌↔◌, Bool, true, false, Option, none, some, done, failed, Reply, arith,
}
use oracles.Prelude.Int.{ℤ}
use oracles.Poc.Types.{
  seconds, GatewayMetadata, GatewayInfo, BeaconIngestReport, BeaconReport, LastBeacon,
}
use oracles.Poc.Externals.{Beacon, Beacons, DenyList}
use oracles.Poc.Checks.{contains_key}
use oracles.Poc.Checks.Passed.{
  Passes, &>_all, LaterBucket, verify_denylist_iff, verify_entropy_iff, verify_gw_capability_iff,
  verify_beacon_schedule_iff,
}
use oracles.Poc.Beacon.{
  as_u32, entropy_of, to_beacon, generate_beacon, compare_beacons, verify_beacon_payload,
  asserted_checks, do_beacon_verifications,
}

module _ {Params E : Type 0} (beacons : Beacons Params E) where
  -- The beacon of the two entropies and the region can be made, and it verifies the reported one.
  abbrev pub Constructed : BeaconReport → ℕ → Params → ℤ → ℕ → ℕ → Type 0
  Constructed r region params gain start version =
      (b : Beacon) × (beacons.new (entropy_of (seconds start) r.remote_entropy version)
          (entropy_of 0 r.local_entropy version)
          (record { region = region; params = params; gain = gain; timestamp = 0 })
        ≡ done b)
      × (beacons.verify b (to_beacon r start version) ≡ true)

  compare_iff :
      (g : Reply E Beacon) (r : Beacon)
      → Passes (compare_beacons beacons g r)
        ↔ ((b : Beacon) × (g ≡ done b) × (beacons.verify b r ≡ true))
  compare_iff (failed e) r = ground arith
  compare_iff (done b) r = (λ h. (b, refl, ground arith), λ h. grind arith)

  payload_iff :
      (r : BeaconReport) (region : ℕ) (params : Params) (gain : ℤ) (start version : ℕ)
      → Passes (verify_beacon_payload beacons r region params gain start version)
        ↔ Constructed r region params gain start version
  unfolding verify_beacon_payload generate_beacon
  payload_iff r region params gain start version =
      compare_iff
        (generate_beacon beacons
          (record { region = region; params = params; gain = gain; timestamp = 0 }) (seconds start)
          version r.local_entropy r.remote_entropy)
        (to_beacon r start version)

  module _ (duration_trunc : ℕ → ℕ → Option ℕ) (deny_list : DenyList) where
    -- An asserted gateway, not denied, whose beacon came in the entropy's life and in a later
    -- interval than its last one, with the packet that the entropies give.
    abbrev pub Admissible :
        ℕ → ℕ → ℤ → Option LastBeacon → BeaconIngestReport → GatewayInfo → Params → ℕ → Type 0
    Admissible start end version last b info params interval =
        (m : GatewayMetadata) × (info.metadata ≡ some m)
        × (contains_key deny_list b.report.pub_key ≡ false)
        × (seconds start ≤ seconds b.received_timestamp)
        × (seconds b.received_timestamp ≤ seconds end)
        × (info.is_full_hotspot ≡ true)
        × LaterBucket duration_trunc last b.received_timestamp interval
        × Constructed b.report m.region params m.gain start (as_u32 version)

    checks_iff :
        (m : GatewayMetadata) (start end : ℕ) (version : ℤ) (last : Option LastBeacon)
        (b : BeaconIngestReport) (full : Bool) (params : Params) (interval : ℕ)
        → Passes (
            asserted_checks beacons duration_trunc deny_list
              (some m)
              start
              end
              version
              last
              b
              full
              params
              interval)
          ↔ ((contains_key deny_list b.report.pub_key ≡ false)
              × (seconds start ≤ seconds b.received_timestamp)
              × (seconds b.received_timestamp ≤ seconds end)
              × (full ≡ true)
              × LaterBucket duration_trunc last b.received_timestamp interval
              × Constructed b.report m.region params m.gain start (as_u32 version))
    checks_iff m start end version last b full params interval =
        let i = &>_all _ _ _ _ (verify_denylist_iff b.report.pub_key deny_list) (
          &>_all _ _ _ _ (verify_entropy_iff start end b.received_timestamp) (
            &>_all _ _ _ _ (verify_gw_capability_iff full) (
              &>_all _ _ _ _
                (verify_beacon_schedule_iff duration_trunc last b.received_timestamp interval)
                (payload_iff b.report m.region params m.gain start (as_u32 version))))) in
        (
          λ h. let (d, ((s, e), (g, (l, p)))) = i.0 h in (d, s, e, g, l, p),
          λ (d, s, e, g, l, p). i.1 (d, ((s, e), (g, (l, p)))),
        )

    -- The checks let a beacon through exactly if its gateway is asserted, not denied and a full hotspot,
    -- and the report came within the entropy's life, in a later interval than the last beacon, with
    -- the packet that the entropies give.
    pub do_beacon_verifications-Admissible :
        (start end : ℕ) (version : ℤ) (last : Option LastBeacon) (b : BeaconIngestReport)
        (info : GatewayInfo) (params : Params) (interval : ℕ)
        → Passes (
            do_beacon_verifications beacons duration_trunc deny_list start end version last b info
              params interval)
          ↔ Admissible start end version last b info params interval
    unfolding do_beacon_verifications
    do_beacon_verifications-Admissible start end version last b info params interval =
        of_metadata info.metadata
      where
        of_metadata :
            (o : Option GatewayMetadata)
            → Passes (
                asserted_checks beacons duration_trunc deny_list o start end version last b
                  info.is_full_hotspot params interval)
              ↔ ((m : GatewayMetadata) × (o ≡ some m)
                  × (contains_key deny_list b.report.pub_key ≡ false)
                  × (seconds start ≤ seconds b.received_timestamp)
                  × (seconds b.received_timestamp ≤ seconds end)
                  × (info.is_full_hotspot ≡ true)
                  × LaterBucket duration_trunc last b.received_timestamp interval
                  × Constructed b.report m.region params m.gain start (as_u32 version))
        of_metadata none = ground arith
        of_metadata (some m) =
            let i = checks_iff m start end version last b info.is_full_hotspot params interval in
            (λ h. let (d, s, e, g, l, p) = i.0 h in (m, refl, d, s, e, g, l, p), λ h. grind arith)
