-- ===== src/PocRunner/State.antt =====
-- iot_verifier/src/runner.rs: what the runner keeps and writes. The decoding of a report and the hash of
-- its id are parameters, and the verification is an interface, which Verification fills with Poc.
use oracles.Prelude.{
  ℕ, Bool, true, false, List, [], ◌∷◌, Option, none, some, Outcome, ok, err, panic, Action, pure,
  raise, ◌>>◌, map_err, Dict, if◌then◌else◌,
}
use oracles.Prelude.Int.{ℤ, pos}
use oracles.PacketVerifier.Pending.{SqlxError}
use oracles.PacketVerifier.Verifier.{Sink, SinkError, write}
use oracles.Poc.Types.{
  Bytes, PublicKey, InvalidReason, InvalidDetails, ParticipantSide, beaconer, GatewayMetadata,
  GatewayInfo, BeaconReport, BeaconIngestReport, WitnessReport, WitnessIngestReport,
  VerifyBeaconResult, VerifiedWitness,
}
use oracles.Poc.Beacon.{Poc}
use oracles.Poc.Witness.{VerifyWitnessesResult}
use oracles.PocRunner.Select.{is_valid}
use oracles.PocRunner.Reports.{Db}

pub record Settings : Type 0 where
  pub beacon_interval : ℕ
  pub max_witnesses_per_poc : ℕ
  pub beacon_max_retries : ℕ
  pub witness_max_retries : ℕ

pub record InvalidBeaconReport : Type 0 where
  pub received_timestamp : ℕ
  pub reason : InvalidReason
  pub invalid_details : Option InvalidDetails
  pub report : BeaconReport
  pub location : Option ℕ
  pub gain : ℤ
  pub elevation : ℤ

pub record InvalidWitnessReport : Type 0 where
  pub received_timestamp : ℕ
  pub report : WitnessReport
  pub reason : InvalidReason
  pub invalid_details : Option InvalidDetails
  pub participant_side : ParticipantSide

pub record ValidBeaconReport : Type 0 where
  pub received_timestamp : ℕ
  pub location : Option ℕ
  pub gain : ℤ
  pub elevation : ℤ
  pub hex_scale : ℕ
  pub report : BeaconReport
  pub reward_unit : ℕ

-- `IotPoc`, as it is written out.
pub record LoraPoc : Type 0 where
  pub poc_id : ℕ
  pub beacon_report : ValidBeaconReport
  pub selected_witnesses : List VerifiedWitness
  pub unselected_witnesses : List VerifiedWitness

-- The tables, and the three sinks.
pub record Runner (D : Type 0) : Type 0 where
  pub db : Db D
  pub invalid_beacons : Sink InvalidBeaconReport
  pub invalid_witnesses : Sink InvalidWitnessReport
  pub pocs : Sink LoraPoc

pub data RunnerError (E : Type 0) : Type 0 where
  sql_error : SqlxError → RunnerError E
  verification_error : E → RunnerError E
  decode_error unit_error not_found : RunnerError E

-- What the runner calls of the verification: the last beacons are read from their table.
pub record Verifier (E : Type 0) : Type 0 where
  pub verify_beacon : Dict ℕ → Poc → ℕ → Outcome E VerifyBeaconResult
  pub verify_witnesses : Poc → GatewayInfo → Outcome E VerifyWitnessesResult

-- What it calls of other crates: the decoding of the reports, and the hash of data, time and key.
pub record Reading : Type 0 where
  pub decode_beacon : Bytes → Option BeaconIngestReport
  pub decode_witness : Bytes → Option WitnessIngestReport
  pub hash : Bytes → ℕ → PublicKey → ℕ

-- A witness's unit, which is zero for an invalid one.
abbrev pub with_unit : ℕ → VerifiedWitness → VerifiedWitness
with_unit unit w = record w { reward_unit = if is_valid w then unit else 0 }

abbrev pub location_of : Option GatewayMetadata → Option ℕ × ℤ × ℤ
location_of none = (none, pos 0, pos 0)
location_of (some m) = (some m.location, m.gain, m.elevation)

abbrev pub metadata_of : Option GatewayInfo → Option GatewayMetadata
metadata_of none = none
metadata_of (some info) = info.metadata

abbrev pub has_written : Outcome SinkError (Unit {0}) → Bool
has_written (ok _) = true
has_written (err e) = false
has_written panic = false

module _ {D E : Type 0} where
  unfoldable pub on_db :
      {A : Type 0} → Action (Db D) SqlxError A → Action (Runner D) (RunnerError E) A
  on_db m s = let (r, d) = m s.db in (map_err sql_error r, record s { db = d })

  -- `ok_or`.
  abbrev pub or_err : {A : Type 0} → RunnerError E → Option A → Action (Runner D) (RunnerError E) A
  or_err e none = raise e
  or_err e (some a) = pure a

  abbrev pub or_error : {A : Type 0} → Outcome E A → Action (Runner D) (RunnerError E) A
  or_error r s = (map_err verification_error r, s)

  -- A write to a sink, with whether it went through.
  unfoldable pub sink_beacon : InvalidBeaconReport → Action (Runner D) (RunnerError E) Bool
  unfolding write
  sink_beacon x s =
      let (r, k) = write x s.invalid_beacons in
      (ok (has_written r), record s { invalid_beacons = k })

  unfoldable pub sink_witness : InvalidWitnessReport → Action (Runner D) (RunnerError E) Bool
  unfolding write
  sink_witness x s =
      let (r, k) = write x s.invalid_witnesses in
      (ok (has_written r), record s { invalid_witnesses = k })

  unfoldable pub sink_poc : LoraPoc → Action (Runner D) (RunnerError E) Bool
  unfolding write
  sink_poc x s = let (r, k) = write x s.pocs in (ok (has_written r), record s { pocs = k })

  -- The witnesses of an invalid beacon; a write that fails is ignored.
  unfoldable pub sink_witnesses :
      InvalidReason
      → Option InvalidDetails
      → List WitnessIngestReport
      → Action (Runner D) (RunnerError E) (Unit {0})
  unfolding sink_witness
  sink_witnesses reason details [] = pure tt
  sink_witnesses reason details (w ∷ ws) = do
    sink_witness (record {
      received_timestamp = w.received_timestamp;
      report = w.report;
      reason = reason;
      invalid_details = details;
      participant_side = beaconer;
    })
    sink_witnesses reason details ws
