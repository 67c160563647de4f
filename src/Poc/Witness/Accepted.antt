-- ===== src/Poc/Witness/Accepted.antt =====
-- Which witnesses the checks of iot_verifier/src/poc.rs let through.
use oracles.Prelude.{
  ℕ, ◌+◌, ◌^◌, ◌≤◌, ◌<◌, ◌≡◌, ◌≢◌, refl, sym, ap, subst, ◌↔◌, Bool, true, false, Option, none, some,
  arith,
}
use oracles.Prelude.Int.{ℤ, pos}
use oracles.Poc.Types.{
  seconds, GatewayMetadata, GatewayInfo, BeaconIngestReport, WitnessIngestReport,
}
use oracles.Poc.Externals.{Cells, Floats, DenyList}
use oracles.Poc.Checks.{
  contains_key, contains_edge, calc_distance, calc_expected_rssi, check_rssi, verify_witness_rssi,
}
use oracles.Poc.Checks.Passed.{
  Passes, &>_all, verify_denylist_iff, verify_edge_denylist_iff, verify_self_witness_iff,
  verify_entropy_iff, InTime, verify_witness_lag_iff, verify_witness_data_iff,
  verify_gw_capability_iff, verify_witness_freq_iff, verify_witness_region_iff, Apart,
  verify_witness_cell_distance_iff, Near, verify_witness_distance_iff,
}
use oracles.Poc.Witness.{witness_checks, do_witness_verifications}

module _ {Cell F : Type 0} (cells : Cells Cell) (f64 : Floats F) where
  -- The signal, in tenths, is no stronger than what the distance lets one expect.
  abbrev pub Plausible : ℤ → ℕ → ℤ → ℤ → ℤ → ℕ → ℕ → Type 0
  Plausible signal freq tx_power beacon_gain gain p q =
      (d : ℕ) × (calc_distance cells p q ≡ some d)
      × (f64.gt (f64.div (f64.of_ℤ signal) (f64.of_ℤ (pos 10)))
            (calc_expected_rssi cells f64 tx_power freq d beacon_gain gain)
          ≡ false)

  rssi_iff :
      (signal : ℤ) (freq : ℕ) (tx_power beacon_gain gain : ℤ) (o : Option ℕ)
      → Passes (check_rssi cells f64 signal freq tx_power beacon_gain gain o) ↔ (
          (d : ℕ) × (o ≡ some d)
          × (f64.gt
                (f64.div (f64.of_ℤ signal) (f64.of_ℤ (pos 10)))
                (calc_expected_rssi cells f64 tx_power freq d beacon_gain gain)
              ≡ false))
  unfolding check_rssi
  rssi_iff signal freq tx_power beacon_gain gain none = ground arith
  rssi_iff signal freq tx_power beacon_gain gain (some d) =
      (λ h. (d, refl, ground arith), λ h. grind arith)

  verify_witness_rssi_iff :
      (signal : ℤ) (freq : ℕ) (tx_power beacon_gain gain : ℤ) (p q : ℕ)
      → Passes (verify_witness_rssi cells f64 signal freq tx_power beacon_gain gain p q)
        ↔ Plausible signal freq tx_power beacon_gain gain p q
  unfolding verify_witness_rssi
  verify_witness_rssi_iff signal freq tx_power beacon_gain gain p q =
      rssi_iff signal freq tx_power beacon_gain gain (calc_distance cells p q)

  module _ (deny_list : DenyList) where
    -- What the reports of the two gateways have to satisfy.
    abbrev pub Acceptable :
        ℕ
        → ℕ
        → WitnessIngestReport
        → Bool
        → GatewayMetadata
        → BeaconIngestReport
        → GatewayMetadata
        → ℕ
        → Type 0
    Acceptable start end w full m b bm first =
        (contains_key deny_list w.report.pub_key ≡ false)
        × (contains_edge deny_list b.report.pub_key w.report.pub_key ≡ false)
        × (b.report.pub_key ≢ w.report.pub_key)
        × (seconds start ≤ seconds w.received_timestamp)
        × (seconds w.received_timestamp ≤ seconds end)
        × InTime b.received_timestamp first w.received_timestamp
        × (w.report.packet ≡ b.report.packet)
        × (full ≡ true)
        × (b.report.frequency ≤ w.report.frequency + 100_000)
        × (w.report.frequency ≤ b.report.frequency + 100_000)
        × (bm.region ≡ m.region)
        × Apart cells bm.location m.location
        × Near cells bm.location m.location
        × Plausible w.report.signal w.report.frequency b.report.tx_power bm.gain m.gain bm.location
            m.location

    checks_iff :
        (start end : ℕ) (w : WitnessIngestReport) (full : Bool) (m : GatewayMetadata)
        (b : BeaconIngestReport) (bm : GatewayMetadata) (first : ℕ)
        → b.report.frequency < 2 ^ 31
        → w.report.frequency < 2 ^ 31
        → Passes (witness_checks cells f64 deny_list start end w full (some m) b bm first)
          ↔ Acceptable start end w full m b bm first
    checks_iff start end w full m b bm first fb fw =
        let i = &>_all _ _ _ _ (verify_denylist_iff w.report.pub_key deny_list) (
          &>_all _ _ _ _ (verify_edge_denylist_iff b.report.pub_key w.report.pub_key deny_list) (
            &>_all _ _ _ _ (verify_self_witness_iff b.report.pub_key w.report.pub_key) (
              &>_all _ _ _ _ (verify_entropy_iff start end w.received_timestamp) (
                &>_all _ _ _ _
                  (verify_witness_lag_iff b.received_timestamp first w.received_timestamp)
                  (&>_all _ _ _ _ (verify_witness_data_iff b.report.packet w.report.packet) (
                    &>_all _ _ _ _ (verify_gw_capability_iff full) (
                      &>_all _ _ _ _
                        (verify_witness_freq_iff b.report.frequency w.report.frequency fb fw)
                        (&>_all _ _ _ _ (verify_witness_region_iff bm.region m.region) (
                          &>_all _ _ _ _
                            (verify_witness_cell_distance_iff cells bm.location m.location)
                            (&>_all _ _ _ _
                              (verify_witness_distance_iff cells bm.location m.location)
                              (verify_witness_rssi_iff w.report.signal w.report.frequency
                                b.report.tx_power bm.gain m.gain bm.location
                                m.location))))))))))) in
        (
          λ h.
              let (a, (e, (s, ((t1, t2), (l, (p, (c, ((f1, f2), (r, (ap, (nr, pl))))))))))) =
                i.0 h in
              (a, e, s, t1, t2, l, p, c, f1, f2, r, ap, nr, pl),
          λ (a, e, s, t1, t2, l, p, c, f1, f2, r, ap, nr, pl).
              i.1 (a, (e, (s, ((t1, t2), (l, (p, (c, ((f1, f2), (r, (ap, (nr, pl))))))))))),
        )

    -- Where both frequencies are below 2^31 Hz, the checks let a witness through exactly if its gateway
    -- is asserted, it and the edge are not denied, it is not the beaconer, its report came within the
    -- entropy's life and in time after the beacon, it heard the same packet on a frequency at most
    -- 100 kHz off and in the same region, from at least eight cells and less than 101 km away, and no
    -- stronger than the distance lets one expect.
    pub do_witness_verifications-Acceptable :
        (start end : ℕ) (w : WitnessIngestReport) (info : GatewayInfo) (b : BeaconIngestReport)
        (bm : GatewayMetadata) (first : ℕ)
        → b.report.frequency < 2 ^ 31
        → w.report.frequency < 2 ^ 31
        → Passes (do_witness_verifications cells f64 deny_list start end w info b bm first) ↔ (
            (m : GatewayMetadata) × (info.metadata ≡ some m)
            × Acceptable start end w info.is_full_hotspot m b bm first)
    unfolding do_witness_verifications
    do_witness_verifications-Acceptable start end w info b bm first fb fw =
        of_metadata info.metadata
      where
        of_metadata :
            (o : Option GatewayMetadata)
            → Passes
                (witness_checks cells f64 deny_list start end w info.is_full_hotspot o b bm first)
              ↔ ((m : GatewayMetadata) × (o ≡ some m)
                  × Acceptable start end w info.is_full_hotspot m b bm first)
        of_metadata none = ground arith
        of_metadata (some m) =
            let i = checks_iff start end w info.is_full_hotspot m b bm first fb fw in
            (
              λ h. (m, refl, i.0 h),
              λ (n, e, h). i.1 (
                  subst (λ n. Acceptable start end w info.is_full_hotspot n b bm first)
                    (sym (ap (λ o. elim o [ none ↦ m | some x ↦ x ]) e)) h),
            )
