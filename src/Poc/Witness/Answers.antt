-- ===== src/Poc/Witness/Answers.antt =====
-- The answer for one witness, by iot_verifier/src/poc.rs: there is one, and it is about the report.
use oracles.Prelude.{ℕ, ◌≡◌, ◌≢◌, refl, Bool, Option, none, some, ok, err, panic, arith, ltb, ◌/◌}
use oracles.Prelude.Int.{ℤ, pos}
use oracles.Poc.Types.{
  PublicKey, GatewayMetadata, GatewayInfo, WitnessIngestReport, VerifiedWitness, VerifyResult,
  InvalidReason, Bytes, below_min_distance, max_distance_exceeded, bad_rssi, BeaconIngestReport,
}
use oracles.Poc.Externals.{Cells, Floats, DenyList}
use oracles.Poc.Checks.{
  ◌&>◌, refuse_if, check_cell_distance, check_distance, check_rssi, calc_distance,
  calc_cell_distance, calc_expected_rssi, verify_denylist, verify_edge_denylist, verify_entropy,
  verify_gw_capability, verify_self_witness, verify_witness_lag, verify_witness_data,
  verify_witness_freq, verify_witness_region, verify_witness_cell_distance, verify_witness_distance,
  verify_witness_rssi,
}
use oracles.Poc.Beacon.{Poc}
use oracles.Poc.Witness.{
  Answer, witness_checks, witness_answer, both_asserted, known, verify_witness,
  do_witness_verifications,
}

pub record Total (r : VerifyResult) : Type 0 where
  pub not_panic : r ≢ panic

pub &>-Total : (a b : VerifyResult) → Total a → Total b → Total (a &> b)
&>-Total a b ha hb =
    let x = ha.not_panic in let y = hb.not_panic in record { not_panic = ground arith }

pub refuse_if-Total : (b : Bool) (r : InvalidReason) → Total (refuse_if b r)
refuse_if-Total b r = record { not_panic = ground arith }

pub verify_denylist-Total : (k : PublicKey) (l : DenyList) → Total (verify_denylist k l)
unfolding verify_denylist
verify_denylist-Total k l = record { not_panic = ground arith }

verify_edge_denylist-Total : (b w : PublicKey) (l : DenyList) → Total (verify_edge_denylist b w l)
unfolding verify_edge_denylist
verify_edge_denylist-Total b w l = record { not_panic = ground arith }

verify_self_witness-Total : (b w : PublicKey) → Total (verify_self_witness b w)
unfolding verify_self_witness
verify_self_witness-Total b w = record { not_panic = ground arith }

pub verify_entropy-Total : (s e r : ℕ) → Total (verify_entropy s e r)
unfolding verify_entropy
verify_entropy-Total s e r = record { not_panic = ground arith }

verify_witness_lag-Total : (b f r : ℕ) → Total (verify_witness_lag b f r)
unfolding verify_witness_lag
verify_witness_lag-Total b f r = record { not_panic = ground arith }

verify_witness_data-Total : (b w : Bytes) → Total (verify_witness_data b w)
unfolding verify_witness_data
verify_witness_data-Total b w = record { not_panic = ground arith }

pub verify_gw_capability-Total : (b : Bool) → Total (verify_gw_capability b)
unfolding verify_gw_capability
verify_gw_capability-Total b = record { not_panic = ground arith }

verify_witness_freq-Total : (b w : ℕ) → Total (verify_witness_freq b w)
unfolding verify_witness_freq
verify_witness_freq-Total b w = record { not_panic = ground arith }

verify_witness_region-Total : (b w : ℕ) → Total (verify_witness_region b w)
unfolding verify_witness_region
verify_witness_region-Total b w = record { not_panic = ground arith }

module _ {Cell F : Type 0} (cells : Cells Cell) (f64 : Floats F) where
  check_cell_distance-Total : (o : Option ℕ) → Total (check_cell_distance cells o)
  unfolding check_cell_distance
  check_cell_distance-Total none = record { not_panic = ground arith }
  check_cell_distance-Total (some d) = refuse_if-Total (ltb d 8) below_min_distance

  verify_witness_cell_distance-Total : (p q : ℕ) → Total (verify_witness_cell_distance cells p q)
  unfolding verify_witness_cell_distance
  verify_witness_cell_distance-Total p q = check_cell_distance-Total (calc_cell_distance cells p q)

  check_distance-Total : (o : Option ℕ) → Total (check_distance cells o)
  unfolding check_distance
  check_distance-Total none = record { not_panic = ground arith }
  check_distance-Total (some d) = refuse_if-Total (ltb 100 (d / 1000)) max_distance_exceeded

  verify_witness_distance-Total : (p q : ℕ) → Total (verify_witness_distance cells p q)
  unfolding verify_witness_distance
  verify_witness_distance-Total p q = check_distance-Total (calc_distance cells p q)

  check_rssi-Total :
      (s : ℤ) (f : ℕ) (p g h : ℤ) (o : Option ℕ) → Total (check_rssi cells f64 s f p g h o)
  unfolding check_rssi
  check_rssi-Total s f p g h none = record { not_panic = ground arith }
  check_rssi-Total s f p g h (some d) =
      refuse_if-Total
        (f64.gt (f64.div (f64.of_ℤ s) (f64.of_ℤ (pos 10))) (calc_expected_rssi cells f64 p f d g h))
        bad_rssi

  verify_witness_rssi-Total :
      (s : ℤ) (f : ℕ) (p g h : ℤ) (a b : ℕ) → Total (verify_witness_rssi cells f64 s f p g h a b)
  unfolding verify_witness_rssi
  verify_witness_rssi-Total s f p g h a b = check_rssi-Total s f p g h (calc_distance cells a b)

  witness_checks-Total :
      (deny_list : DenyList) (start end : ℕ) (w : WitnessIngestReport) (full : Bool)
      (m : Option GatewayMetadata) (b : BeaconIngestReport) (bm : GatewayMetadata) (first : ℕ)
      → Total (witness_checks cells f64 deny_list start end w full m b bm first)
  witness_checks-Total deny_list start end w full none b bm first = record {
    not_panic = ground arith;
  }
  witness_checks-Total deny_list start end w full (some m) b bm first =
      &>-Total _ _ (verify_denylist-Total w.report.pub_key deny_list) (
        &>-Total _ _ (verify_edge_denylist-Total b.report.pub_key w.report.pub_key deny_list) (
          &>-Total _ _ (verify_self_witness-Total b.report.pub_key w.report.pub_key) (
            &>-Total _ _ (verify_entropy-Total start end w.received_timestamp) (
              &>-Total _ _
                (verify_witness_lag-Total b.received_timestamp first w.received_timestamp)
                (&>-Total _ _ (verify_witness_data-Total b.report.packet w.report.packet) (
                  &>-Total _ _ (verify_gw_capability-Total full) (
                    &>-Total _ _ (verify_witness_freq-Total b.report.frequency w.report.frequency) (
                      &>-Total _ _ (verify_witness_region-Total bm.region m.region) (
                        &>-Total _ _ (verify_witness_cell_distance-Total bm.location m.location) (
                          &>-Total _ _ (verify_witness_distance-Total bm.location m.location) (
                            verify_witness_rssi-Total w.report.signal w.report.frequency
                              b.report.tx_power bm.gain m.gain bm.location m.location)))))))))))

module _ {Cell F : Type 0} (cells : Cells Cell) (f64 : Floats F) (deny_list : DenyList)
    (gateways : PublicKey → Option GatewayInfo) (density : ℕ → Option ℕ) where
  -- An answer about the report itself.
  abbrev pub About : WitnessIngestReport → Answer → Type 0
  About w a = (v : VerifiedWitness) × (a ≡ ok v) × (v.report ≡ w.report)

  answered :
      (r : VerifyResult) (w : WitnessIngestReport) (m : GatewayMetadata) (location : ℕ)
      → Total r
      → About w (witness_answer cells f64 deny_list gateways density r w m location)
  answered (ok _) w m location h = (_, refl, refl)
  answered (err r) w m location h = (_, refl, refl)
  answered panic w m location h = elim (h.not_panic refl) [ ]

  pub verify_witness-About :
      (poc : Poc) (w : WitnessIngestReport) (info : GatewayInfo) (first : ℕ)
      → About w (verify_witness cells f64 deny_list gateways density poc w info first)
  unfolding verify_witness do_witness_verifications
  verify_witness-About poc w info first = of_gateway (gateways w.report.pub_key)
    where
      of_metadata :
          (i : GatewayInfo) (m bm : Option GatewayMetadata)
          → i.metadata ≡ m
          → About w (both_asserted cells f64 deny_list gateways density m bm poc w i first)
      of_metadata i none bm e = (_, refl, refl)
      of_metadata i (some m) none e = (_, refl, refl)
      of_metadata i (some m) (some bm) e = answered _ w m bm.location (
          witness_checks-Total cells f64 deny_list poc.entropy_start poc.entropy_end w
            i.is_full_hotspot i.metadata poc.beacon_report bm first)

      of_gateway :
          (o : Option GatewayInfo)
          → About w (known cells f64 deny_list gateways density o poc w info first)
      of_gateway none = (_, refl, refl)
      of_gateway (some i) = of_metadata i i.metadata info.metadata refl
