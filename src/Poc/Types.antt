-- ===== src/Poc/Types.antt =====
-- The data of iot_verifier/src/poc.rs and of the report types that it reads (file_store,
-- iot_config). A timestamp counts nanoseconds since the epoch, a `PublicKeyBinary` is a number that is
-- only compared, and a byte string is the list of its bytes.
use oracles.Prelude.{ℕ, ◌/◌, Bool, List, Option, none, some, Outcome}
use oracles.Prelude.Int.{ℤ}

abbrev pub PublicKey : Type 0
PublicKey = ℕ

abbrev pub Bytes : Type 0
Bytes = List ℕ

-- `timestamp()` of a `DateTime`, in seconds.
abbrev pub seconds : ℕ → ℕ
seconds t = t / 1_000_000_000

-- The reasons of `InvalidReason` that are given here.
pub data InvalidReason : Type 0 where
  reason_none stale denied denied_edge self_witness entropy_expired invalid_capability
        irregular_interval :
      InvalidReason
  invalid_packet too_late invalid_frequency invalid_region max_distance_exceeded
        below_min_distance :
      InvalidReason
  bad_rssi not_asserted gateway_not_found duplicate : InvalidReason

-- `InvalidDetails` with the tag of a deny list.
pub data InvalidDetails : Type 0 where
  denylist_tag : ℕ → InvalidDetails

pub record InvalidResponse : Type 0 where
  pub reason : InvalidReason
  pub details : Option InvalidDetails

-- `GenericVerifyResult`.
abbrev pub VerifyResult : Type 0
VerifyResult = Outcome InvalidResponse (Unit {0})

pub data VerificationStatus : Type 0 where
  valid invalid : VerificationStatus

pub data ParticipantSide : Type 0 where
  side_none beaconer witness : ParticipantSide

pub record GatewayMetadata : Type 0 where
  pub location : ℕ
  pub elevation : ℤ
  pub gain : ℤ
  pub region : ℕ

pub record GatewayInfo : Type 0 where
  pub address : PublicKey
  pub metadata : Option GatewayMetadata
  pub is_full_hotspot : Bool

pub record BeaconReport : Type 0 where
  pub pub_key : PublicKey
  pub local_entropy : Bytes
  pub remote_entropy : Bytes
  pub packet : Bytes
  pub frequency : ℕ
  pub datarate : ℕ
  pub tx_power : ℤ

pub record BeaconIngestReport : Type 0 where
  pub received_timestamp : ℕ
  pub report : BeaconReport

pub record WitnessReport : Type 0 where
  pub pub_key : PublicKey
  pub packet : Bytes
  pub signal : ℤ
  pub frequency : ℕ

pub record WitnessIngestReport : Type 0 where
  pub received_timestamp : ℕ
  pub report : WitnessReport

pub record LastBeacon : Type 0 where
  pub id : PublicKey
  pub timestamp : ℕ

-- A hex scale counts steps of 0.0001.
pub record VerifyBeaconResult : Type 0 where
  pub result : VerificationStatus
  pub invalid_reason : InvalidReason
  pub invalid_details : Option InvalidDetails
  pub gateway_info : Option GatewayInfo
  pub hex_scale : Option ℕ

abbrev pub valid_beacon : GatewayInfo → ℕ → VerifyBeaconResult
valid_beacon info scale = record {
  result = valid;
  invalid_reason = reason_none;
  invalid_details = none;
  gateway_info = some info;
  hex_scale = some scale;
}

abbrev pub invalid_beacon : InvalidReason → Option InvalidDetails → GatewayInfo → VerifyBeaconResult
invalid_beacon reason details info = record {
  result = invalid;
  invalid_reason = reason;
  invalid_details = details;
  gateway_info = some info;
  hex_scale = none;
}

abbrev pub beacon_gateway_not_found : VerifyBeaconResult
beacon_gateway_not_found = record {
  result = invalid;
  invalid_reason = gateway_not_found;
  invalid_details = none;
  gateway_info = none;
  hex_scale = none;
}

-- `IotVerifiedWitnessReport`; its reward unit is zero here.
pub record VerifiedWitness : Type 0 where
  pub received_timestamp : ℕ
  pub status : VerificationStatus
  pub report : WitnessReport
  pub location : Option ℕ
  pub gain : ℤ
  pub elevation : ℤ
  pub hex_scale : ℕ
  pub reward_unit : ℕ
  pub invalid_reason : InvalidReason
  pub participant_side : ParticipantSide
  pub invalid_details : Option InvalidDetails

abbrev pub valid_witness : WitnessReport → ℕ → Option ℕ → ℤ → ℤ → ℕ → VerifiedWitness
valid_witness report received location gain elevation scale = record {
  received_timestamp = received;
  status = valid;
  report = report;
  location = location;
  gain = gain;
  elevation = elevation;
  hex_scale = scale;
  reward_unit = 0;
  invalid_reason = reason_none;
  participant_side = side_none;
  invalid_details = none;
}

abbrev pub invalid_witness :
    InvalidReason
    → Option InvalidDetails
    → WitnessReport
    → ℕ
    → Option ℕ
    → ℤ
    → ℤ
    → ParticipantSide
    → VerifiedWitness
invalid_witness reason details report received location gain elevation side = record {
  received_timestamp = received;
  status = invalid;
  report = report;
  location = location;
  gain = gain;
  elevation = elevation;
  hex_scale = 0;
  reward_unit = 0;
  invalid_reason = reason;
  participant_side = side;
  invalid_details = details;
}
