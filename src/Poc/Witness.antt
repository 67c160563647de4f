-- ===== src/Poc/Witness.antt =====
-- The witnesses' half of iot_verifier/src/poc.rs: the order of their checks, `verify_witness`, and
-- the loop over the witness reports.
use oracles.Prelude.{
  ℕ, Bool, true, false, Option, none, some, List, [], ◌∷◌, ◌++◌, Outcome, ok, err, panic, ◌||◌,
  ◌==◌, contains,
}
use oracles.Prelude.Int.{ℤ, pos}
use oracles.Poc.Types.{
  PublicKey, not_asserted, gateway_not_found, duplicate, VerifyResult, ParticipantSide, beaconer,
  witness, GatewayMetadata, GatewayInfo, BeaconIngestReport, WitnessIngestReport, VerifiedWitness,
  InvalidReason, valid_witness, invalid_witness,
}
use oracles.Poc.Externals.{Cells, Floats, DenyList}
use oracles.Poc.Checks.{
  ◌&>◌, refuse, verify_denylist, verify_edge_denylist, verify_entropy, verify_gw_capability,
  verify_self_witness, verify_witness_lag, verify_witness_data, verify_witness_freq,
  verify_witness_region, verify_witness_cell_distance, verify_witness_distance, verify_witness_rssi,
}
use oracles.Poc.Beacon.{Poc, tx_scale, new}
pub mod Accepted
pub mod Answers
pub mod Loop

-- An answer that says no more of the gateway than its report.
abbrev pub unlocated : InvalidReason → WitnessIngestReport → ParticipantSide → VerifiedWitness
unlocated reason w side =
    invalid_witness reason none w.report w.received_timestamp none (pos 0) (pos 0) side

module _ {Cell F : Type 0} (cells : Cells Cell) (f64 : Floats F) (deny_list : DenyList) where
  abbrev pub witness_checks :
      ℕ
      → ℕ
      → WitnessIngestReport
      → Bool
      → Option GatewayMetadata
      → BeaconIngestReport
      → GatewayMetadata
      → ℕ
      → VerifyResult
  witness_checks start end w full none b bm first = refuse not_asserted
  witness_checks start end w full (some m) b bm first =
      verify_denylist w.report.pub_key deny_list
      &> verify_edge_denylist b.report.pub_key w.report.pub_key deny_list
      &> verify_self_witness b.report.pub_key w.report.pub_key
      &> verify_entropy start end w.received_timestamp
      &> verify_witness_lag b.received_timestamp first w.received_timestamp
      &> verify_witness_data b.report.packet w.report.packet
      &> verify_gw_capability full
      &> verify_witness_freq b.report.frequency w.report.frequency
      &> verify_witness_region bm.region m.region
      &> verify_witness_cell_distance cells bm.location m.location
      &> verify_witness_distance cells bm.location m.location
      &> verify_witness_rssi cells f64 w.report.signal w.report.frequency b.report.tx_power bm.gain
          m.gain bm.location m.location

  unfoldable pub do_witness_verifications :
      ℕ
      → ℕ
      → WitnessIngestReport
      → GatewayInfo
      → BeaconIngestReport
      → GatewayMetadata
      → ℕ
      → VerifyResult
  unfolding verify_denylist verify_edge_denylist verify_self_witness verify_entropy
      verify_witness_lag verify_witness_data verify_gw_capability verify_witness_freq
      verify_witness_region verify_witness_cell_distance verify_witness_distance verify_witness_rssi
  do_witness_verifications start end w info b bm first =
      witness_checks start end w info.is_full_hotspot info.metadata b bm first

-- `VerifyWitnessesResult`. The error of `verify_witness` is one that no call returns.
pub record VerifyWitnessesResult : Type 0 where
  pub verified_witnesses : List VerifiedWitness
  pub failed_witnesses : List WitnessIngestReport

abbrev pub Answer : Type 0
Answer = Outcome (Unit {0}) VerifiedWitness

module _ {Cell F : Type 0} (cells : Cells Cell) (f64 : Floats F) (deny_list : DenyList)
    (gateways : PublicKey → Option GatewayInfo) (density : ℕ → Option ℕ) where
  abbrev pub witness_answer : VerifyResult → WitnessIngestReport → GatewayMetadata → ℕ → Answer
  witness_answer (ok _) w m location = ok (
      valid_witness w.report w.received_timestamp (some m.location) m.gain m.elevation
        (tx_scale (density location)))
  witness_answer (err r) w m location = ok (
      invalid_witness r.reason r.details w.report w.received_timestamp (some m.location) m.gain
        m.elevation witness)
  witness_answer panic w m location = panic

  abbrev pub both_asserted :
      Option GatewayMetadata
      → Option GatewayMetadata
      → Poc
      → WitnessIngestReport
      → GatewayInfo
      → ℕ
      → Answer
  both_asserted none bm poc w info first = ok (unlocated not_asserted w witness)
  both_asserted (some m) none poc w info first = ok (unlocated not_asserted w beaconer)
  both_asserted (some m) (some bm) poc w info first =
      witness_answer
        (do_witness_verifications cells f64 deny_list poc.entropy_start poc.entropy_end w info
          poc.beacon_report bm first)
        w m bm.location

  abbrev pub known : Option GatewayInfo → Poc → WitnessIngestReport → GatewayInfo → ℕ → Answer
  known none poc w beaconer_info first = ok (unlocated gateway_not_found w witness)
  known (some info) poc w beaconer_info first =
      both_asserted info.metadata beaconer_info.metadata poc w info first

  unfoldable pub verify_witness : Poc → WitnessIngestReport → GatewayInfo → ℕ → Answer
  unfolding do_witness_verifications
  verify_witness poc w beaconer_info first =
      known (gateways w.report.pub_key) poc w beaconer_info first

  -- The three vectors that the loop fills.
  pub record Progress : Type 0 where
    pub verified : List VerifiedWitness
    pub failed : List WitnessIngestReport
    pub existing : List PublicKey

  -- What one report adds to them.
  abbrev pub push_answer : Answer → WitnessIngestReport → Progress → Outcome (Unit {0}) Progress
  push_answer (ok v) w p = ok (record {
    verified = p.verified ++ (v ∷ []);
    failed = p.failed;
    existing = p.existing ++ (v.report.pub_key ∷ []);
  })
  push_answer (err _) w p = ok (record p { failed = p.failed ++ (w ∷ []) })
  push_answer panic w p = panic

  abbrev pub push_duplicate : WitnessIngestReport → Progress → Outcome (Unit {0}) Progress
  push_duplicate w p =
      ok (record p { verified = p.verified ++ (unlocated duplicate w witness ∷ []) })

  abbrev pub step_on :
      Bool → Poc → GatewayInfo → ℕ → WitnessIngestReport → Progress → Outcome (Unit {0}) Progress
  step_on true poc info first w p = push_duplicate w p
  step_on false poc info first w p = push_answer (verify_witness poc w info first) w p

  abbrev pub step :
      Poc → GatewayInfo → ℕ → WitnessIngestReport → Progress → Outcome (Unit {0}) Progress
  step poc info first w p = step_on (contains p.existing w.report.pub_key) poc info first w p

  abbrev pub each :
      Poc
      → GatewayInfo
      → ℕ
      → List WitnessIngestReport
      → Outcome (Unit {0}) Progress
      → Outcome (Unit {0}) Progress
  each poc info first [] r = r
  each poc info first (w ∷ ws) (ok p) = each poc info first ws (step poc info first w p)
  each poc info first (w ∷ ws) (err e) = err e
  each poc info first (w ∷ ws) panic = panic

  abbrev pub result_of : Outcome (Unit {0}) Progress → Outcome (Unit {0}) VerifyWitnessesResult
  result_of (ok p) = ok (record { verified_witnesses = p.verified; failed_witnesses = p.failed })
  result_of (err e) = err e
  result_of panic = panic

  -- The first report's time is the start of the lag.
  abbrev pub from_first : Poc → GatewayInfo → List WitnessIngestReport → Outcome (Unit {0}) Progress
  from_first poc info [] = ok (record { verified = []; failed = []; existing = [] })
  from_first poc info (w ∷ ws) =
      each poc info w.received_timestamp (w ∷ ws)
        (ok (record { verified = []; failed = []; existing = [] }))

  unfoldable pub verify_witnesses : Poc → GatewayInfo → Outcome (Unit {0}) VerifyWitnessesResult
  unfolding verify_witness
  verify_witnesses poc info = result_of (from_first poc info poc.witness_reports)
