-- ===== src/PocRunner/Conclude.antt =====
-- iot_verifier/src/runner.rs: the end of a proof of coverage, `handle_invalid_poc` and `handle_valid_poc`.
use oracles.Prelude.{ℕ, Bool, true, false, List, Action, ◌>>=◌, ◌>>◌, map}
use oracles.Poc.Types.{BeaconIngestReport, WitnessIngestReport, VerifyBeaconResult, VerifiedWitness}
use oracles.IotRewards.{Decimals, Participant, IotPoc, shares_from_poc}
use oracles.PocRunner.Select.{is_valid}
use oracles.PocRunner.Reports.{
  update_attempts, delete_poc, update_last_timestamp, begin, commit, save_each,
}
use oracles.PocRunner.State.{
  InvalidBeaconReport, ValidBeaconReport, LoraPoc, Runner, RunnerError, Reading, location_of,
  metadata_of, on_db, sink_beacon, sink_witnesses, sink_poc,
}

module _ (reading : Reading) where
  abbrev pub ingest_id : BeaconIngestReport → ℕ
  ingest_id b = reading.hash b.report.packet b.received_timestamp b.report.pub_key

  abbrev pub witness_id : WitnessIngestReport → ℕ
  witness_id w = reading.hash w.report.packet w.received_timestamp w.report.pub_key

  abbrev pub lora_poc : ValidBeaconReport → List VerifiedWitness → List VerifiedWitness → LoraPoc
  lora_poc b selected unselected = record {
    poc_id = reading.hash b.report.packet b.received_timestamp b.report.pub_key;
    beacon_report = b;
    selected_witnesses = selected;
    unselected_witnesses = unselected;
  }

abbrev pub invalid_poc : VerifyBeaconResult → BeaconIngestReport → InvalidBeaconReport
invalid_poc result b =
    let (location, gain, elevation) = location_of (metadata_of result.gateway_info) in
    record {
      received_timestamp = b.received_timestamp;
      reason = result.invalid_reason;
      invalid_details = result.invalid_details;
      report = b.report;
      location = location;
      gain = gain;
      elevation = elevation;
    }

module _ {D : Type 0} (of_steps : ℕ → D) where
  abbrev pub participant_of : VerifiedWitness → Participant D
  participant_of w = record {
    is_valid = is_valid w;
    pub_key = w.report.pub_key;
    received_timestamp = w.received_timestamp;
    hex_scale = of_steps w.hex_scale;
    reward_unit = of_steps w.reward_unit;
  }

  -- The part of the proof of coverage that its shares are made of.
  abbrev pub rewarded_part : LoraPoc → IotPoc D
  rewarded_part p = record {
    poc_id = p.poc_id;
    beacon_report = record {
      is_valid = true;
      pub_key = p.beacon_report.report.pub_key;
      received_timestamp = p.beacon_report.received_timestamp;
      hex_scale = of_steps p.beacon_report.hex_scale;
      reward_unit = of_steps p.beacon_report.reward_unit;
    };
    selected_witnesses = map participant_of p.selected_witnesses;
  }

module _ {D E : Type 0} (reading : Reading) where
  unfoldable pub after_invalid :
      VerifyBeaconResult
      → BeaconIngestReport
      → List WitnessIngestReport
      → ℕ
      → Bool
      → Action (Runner D) (RunnerError E) (Unit {0})
  unfolding on_db sink_witnesses
  after_invalid result b ws now false = on_db (update_attempts (ingest_id reading b) now)
  after_invalid result b ws now true = do
    sink_witnesses result.invalid_reason result.invalid_details ws
    on_db (delete_poc b.report.packet)

  unfoldable pub handle_invalid_poc :
      VerifyBeaconResult
      → BeaconIngestReport
      → List WitnessIngestReport
      → ℕ
      → Action (Runner D) (RunnerError E) (Unit {0})
  unfolding sink_beacon after_invalid
  handle_invalid_poc result b ws now = do
    sunk ← sink_beacon (invalid_poc result b)
    after_invalid result b ws now sunk

module _ {D E : Type 0} (reading : Reading) (dec : Decimals D) (of_steps : ℕ → D) where
  unfoldable pub after_valid :
      ValidBeaconReport → ℕ → Bool → Action (Runner D) (RunnerError E) (Unit {0})
  unfolding on_db
  after_valid b now false =
      on_db
        (update_attempts (reading.hash b.report.packet b.received_timestamp b.report.pub_key) now)
  after_valid b now true = do
    on_db (update_last_timestamp b.report.pub_key b.received_timestamp)
    on_db (delete_poc b.report.packet)

  unfoldable pub handle_valid_poc :
      ValidBeaconReport
      → List VerifiedWitness
      → List VerifiedWitness
      → ℕ
      → Action (Runner D) (RunnerError E) (Unit {0})
  unfolding on_db sink_poc after_valid
  handle_valid_poc b selected unselected now = do
    on_db begin
    on_db (
        save_each
          (shares_from_poc dec (rewarded_part of_steps (lora_poc reading b selected unselected))))
    on_db commit
    sunk ← sink_poc (lora_poc reading b selected unselected)
    after_valid b now sunk
