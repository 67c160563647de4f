-- ===== src/PocRunner/Handler.antt =====
-- iot_verifier/src/runner.rs: the handling of one beacon, and of all that are ready. The beacons of a tick
-- are handled one after the other, and `now` stands for each time that the handling reads.
use mathlib.Core.Option
use oracles.Prelude.{
  ℕ, ◌%◌, ◌^◌, List, [], ◌∷◌, Option, none, some, Outcome, ok, err, panic, Action, pure, ◌>>=◌,
  ◌>>◌, map, length,
}
use oracles.Prelude.Int.{ℤ}
use oracles.Poc.Types.{
  Bytes, VerificationStatus, valid, invalid, GatewayInfo, BeaconIngestReport, WitnessIngestReport,
  VerifyBeaconResult, VerifiedWitness,
}
use oracles.Poc.Beacon.{Poc, new}
use oracles.IotRewards.{Decimals}
use oracles.PocRunner.Select.{select}
use oracles.PocRunner.Units.{UnitDecimals, poc_beaconer_reward_unit, poc_per_witness_reward_unit}
use oracles.PocRunner.Reports.{Report, get_next_beacons, get_witnesses_for_beacon, update_attempts}
use oracles.PocRunner.State.{
  Settings, ValidBeaconReport, Runner, RunnerError, decode_error, unit_error, not_found, Verifier,
  Reading, with_unit, location_of, on_db, or_err, or_error,
}
use oracles.PocRunner.Conclude.{witness_id, handle_invalid_poc, handle_valid_poc}

abbrev pub valid_report : BeaconIngestReport → GatewayInfo → ℕ → ℕ → ValidBeaconReport
valid_report b info scale unit =
    let (location, gain, elevation) = location_of info.metadata in
    record {
      received_timestamp = b.received_timestamp;
      location = location;
      gain = gain;
      elevation = elevation;
      hex_scale = scale;
      report = b.report;
      reward_unit = unit;
    }

module _ {D E : Type 0} (reading : Reading) (dec : Decimals D) (units : UnitDecimals D)
    (of_steps : ℕ → D) where
  -- What follows the verification of the witnesses.
  unfoldable pub conclude :
      BeaconIngestReport
      → GatewayInfo
      → Option ℕ
      → List VerifiedWitness
      → List VerifiedWitness
      → ℕ
      → Action (Runner D) (RunnerError E) (Unit {0})
  unfolding handle_valid_poc
  conclude b info hex_scale selected unselected now = do
    beaconer_units ← or_err unit_error (poc_beaconer_reward_unit units (length selected % 2 ^ 32))
    witness_units ← or_err unit_error (poc_per_witness_reward_unit units (length selected % 2 ^ 32))
    scale ← or_err not_found hex_scale
    handle_valid_poc reading dec of_steps (valid_report b info scale beaconer_units)
        (map (with_unit witness_units) selected) unselected now

module _ {D E : Type 0} (reading : Reading) where
  unfoldable pub count_failed :
      List WitnessIngestReport → ℕ → Action (Runner D) (RunnerError E) (Unit {0})
  unfolding on_db
  count_failed [] now = pure tt
  count_failed (w ∷ ws) now = do
    on_db (update_attempts (witness_id reading w) now)
    count_failed ws now

module _ (reading : Reading) where
  abbrev pub decode_each : List Report → Option (List WitnessIngestReport)
  decode_each [] = some []
  decode_each (r ∷ rs) = elim (reading.decode_witness r.report_data) [
    | none ↦ none
    | some w ↦ Option.map (λ ws. w ∷ ws) (decode_each rs)
  ]

-- An error counts an attempt, and whether that goes through is ignored.
abbrev pub or_count :
    {D E : Type 0}
    → Report
    → ℕ
    → Outcome (RunnerError E) (Unit {0}) × Runner D
    → Outcome (RunnerError E) (Unit {0}) × Runner D
or_count r now (ok _, s) = (ok tt, s)
or_count r now (err e, s) =
    let (_, d) = update_attempts r.id now s.db in (ok tt, record s { db = d })
or_count r now (panic, s) = (panic, s)

module _ {D E : Type 0} (settings : Settings) (verifier : Verifier E) (reading : Reading)
    (dec : Decimals D) (units : UnitDecimals D) (of_steps : ℕ → D) where
  -- Failed witnesses are counted, and the beacon is left for the next tick.
  unfoldable pub with_failed :
      BeaconIngestReport
      → GatewayInfo
      → Option ℕ
      → List WitnessIngestReport
      → List VerifiedWitness
      → ℕ
      → Action (Runner D) (RunnerError E) (Unit {0})
  unfolding conclude count_failed
  with_failed b info hex_scale [] verified now =
      let (selected, unselected) = select verified settings.max_witnesses_per_poc in
      conclude reading dec units of_steps b info hex_scale selected unselected now
  with_failed b info hex_scale (w ∷ ws) verified now = count_failed reading (w ∷ ws) now

  unfoldable pub verify_rest :
      Poc → Option ℕ → Option GatewayInfo → ℕ → Action (Runner D) (RunnerError E) (Unit {0})
  unfolding with_failed
  verify_rest poc hex_scale none now = pure tt
  verify_rest poc hex_scale (some info) now = do
    r ← or_error (verifier.verify_witnesses poc info)
    with_failed poc.beacon_report info hex_scale r.failed_witnesses r.verified_witnesses now

  unfoldable pub with_result :
      Poc
      → VerifyBeaconResult
      → List WitnessIngestReport
      → VerificationStatus
      → ℕ
      → Action (Runner D) (RunnerError E) (Unit {0})
  unfolding verify_rest handle_invalid_poc
  with_result poc result ws valid now = verify_rest poc result.hex_scale result.gateway_info now
  with_result poc result ws invalid now = handle_invalid_poc reading result poc.beacon_report ws now

  unfoldable pub judge :
      Poc → List WitnessIngestReport → ℕ → Action (Runner D) (RunnerError E) (Unit {0})
  unfolding with_result
  judge poc ws now s =
      (do
        result ← or_error (verifier.verify_beacon s.db.last_beacon poc settings.beacon_interval)
        with_result poc result ws result.result now)
        s

  unfoldable pub handle_decoded :
      BeaconIngestReport → Bytes → ℕ → ℤ → ℕ → Action (Runner D) (RunnerError E) (Unit {0})
  unfolding on_db get_witnesses_for_beacon judge
  handle_decoded b packet_data entropy_start entropy_version now = do
    db_witnesses ← on_db (get_witnesses_for_beacon packet_data settings.witness_max_retries)
    ws ← or_err decode_error (decode_each reading db_witnesses)
    judge (new b ws entropy_start entropy_version) ws now

  abbrev pub with_entropy :
      Report → Option ℕ → Option ℤ → ℕ → Action (Runner D) (RunnerError E) (Unit {0})
  with_entropy r none version now = pure tt
  with_entropy r (some start) none now = pure tt
  with_entropy r (some start) (some version) now = do
    b ← or_err decode_error (reading.decode_beacon r.report_data)
    handle_decoded b r.packet_data start version now

  unfoldable pub handle_beacon_report : Report → ℕ → Action (Runner D) (RunnerError E) (Unit {0})
  unfolding handle_decoded
  handle_beacon_report r now = with_entropy r r.timestamp r.version now

  unfoldable pub handle_beacon : Report → ℕ → Action (Runner D) (RunnerError E) (Unit {0})
  unfolding handle_beacon_report
  handle_beacon r now s = or_count r now (handle_beacon_report r now s)

  unfoldable pub handle_each : List Report → ℕ → Action (Runner D) (RunnerError E) (Unit {0})
  unfolding handle_beacon
  handle_each [] now = pure tt
  handle_each (r ∷ rs) now = do handle_beacon r now; handle_each rs now

  unfoldable pub handle_db_tick : ℕ → Action (Runner D) (RunnerError E) (Unit {0})
  unfolding on_db get_next_beacons handle_each
  handle_db_tick now = do
    beacons ← on_db (get_next_beacons now settings.beacon_max_retries)
    handle_each beacons now
