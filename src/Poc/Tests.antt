-- ===== src/Poc/Tests.antt =====
-- Runs of the models of iot_verifier/src/poc.rs at concrete reports.
use oracles.Prelude.{
  ℕ, ◌+◌, ◌-◌, ◌*◌, ◌/◌, ◌≡◌, ◌↔◌, refl, true, false, List, [], ◌∷◌, Option, none, some, Outcome,
  ok, err, panic, done, arith,
}
use oracles.Prelude.Int.{ℤ, pos, ltb_ℤ}
use oracles.Poc.Types.{
  GatewayMetadata, GatewayInfo, BeaconReport, BeaconIngestReport, WitnessReport,
  WitnessIngestReport, VerifiedWitness, LastBeacon,
}
use oracles.Poc.Types
use oracles.Poc.Externals.{Cells, Floats, Beacons, DenyList}
use oracles.Poc.Checks.{verify_witness_freq, calc_cell_distance, calc_distance}
use oracles.Poc.Checks.Passed.{Passes, verify_witness_freq-wraps}
use oracles.Poc.Beacon.{Poc, new, Tables, do_beacon_verifications, verify_beacon}
use oracles.Poc.Beacon.Accepted.{Admissible, do_beacon_verifications-Admissible}
use oracles.Poc.Beacon.Results.{Accepts, Confirmed, verify_beacon-Confirmed}
use oracles.Poc.Witness.{VerifyWitnessesResult, do_witness_verifications, verify_witnesses}
use oracles.Poc.Witness.Accepted.{Acceptable, do_witness_verifications-Acceptable}
use oracles.Poc.Witness.Loop.{Verdicts, first_received, verify_witnesses-Verdicts}

-- Cells on a line, a hundred metres apart.
abbrev pub cells : Cells ℕ
cells = record {
  try_from = λ n. some n;
  parent = λ c. some c;
  grid_distance = λ a b. some ((a - b) + (b - a));
  distance_m = λ a b. 100 * ((a - b) + (b - a));
}

-- Integers in place of floats.
abbrev pub f64 : Floats ℤ
f64 = record {
  of_ℤ = λ n. n;
  add = λ a b. a;
  sub = λ a b. a;
  mul = λ a b. a;
  div = λ a b. a;
  log10 = λ a. a;
  gt = λ a b. ltb_ℤ b a;
  pi = pos 3;
  light_speed = pos 299_792_458;
}

abbrev pub deny_list : DenyList
deny_list = record {
  tag_name = 1;
  filter = some (record { contains = λ k. false; contains_edge = λ b w. false });
}

abbrev metadata : ℕ → GatewayMetadata
metadata location = record { location = location; elevation = pos 2; gain = pos 12; region = 1 }

abbrev gateway : ℕ → ℕ → GatewayInfo
gateway key location = record {
  address = key;
  metadata = some (metadata location);
  is_full_hotspot = true;
}

-- Gateway k stands in cell 10 * k.
abbrev gateways : ℕ → Option GatewayInfo
gateways key = some (gateway key (10 * key))

abbrev pub beacon : BeaconIngestReport
beacon = record {
  received_timestamp = 5_000_000_000_000;
  report = record {
    pub_key = 1;
    local_entropy = 1 ∷ [];
    remote_entropy = 2 ∷ [];
    packet = 3 ∷ [];
    frequency = 904_000_000;
    datarate = 0;
    tx_power = pos 27;
  };
}

abbrev pub witness_of : ℕ → WitnessIngestReport
witness_of key = record {
  received_timestamp = 5_001_000_000_000;
  report = record { pub_key = key; packet = 3 ∷ []; signal = pos 20; frequency = 904_000_100 };
}

abbrev poc : Poc
poc = record {
  beacon_report = beacon;
  witness_reports = witness_of 2 ∷ witness_of 3 ∷ witness_of 2 ∷ [];
  entropy_start = 4_990_000_000_000;
  entropy_end = 5_170_000_000_000;
  entropy_version = pos 1;
}

poc_new :
    new beacon (witness_of 2 ∷ witness_of 3 ∷ witness_of 2 ∷ []) 4_990_000_000_000 (pos 1) ≡ poc
unfolding new
poc_new = refl

-- A beacon crate that answers each request with the same beacon.
abbrev pub beacons : Beacons ℕ ℕ
beacons = record {
  new = λ remote local params. done (record {
    packet = 3 ∷ [];
    frequency = 904_000_000;
    datarate = 0;
    remote_entropy = remote;
    local_entropy = local;
    conducted_power = 27;
  });
  verify = λ a b. true;
}

abbrev pub duration_trunc : ℕ → ℕ → Option ℕ
duration_trunc t interval = some (t / interval * interval)

abbrev pub tables : Tables ℕ ℕ ℕ
tables = record {
  gateways = gateways;
  regions = λ region. done 7;
  last_beacons = λ key. done (some (record { id = key; timestamp = 1_000_000_000_000 }));
  density = λ location. none;
}

do_beacon_verifications-Admissible_example :
    Passes (
      do_beacon_verifications beacons duration_trunc deny_list 4_990_000_000_000 5_170_000_000_000
        (pos 1)
        none
        beacon
        (gateway 1 10)
        7
        3_600_000_000_000)
    ↔ Admissible beacons duration_trunc deny_list 4_990_000_000_000 5_170_000_000_000
        (pos 1)
        none
        beacon
        (gateway 1 10)
        7
        3_600_000_000_000
do_beacon_verifications-Admissible_example =
    do_beacon_verifications-Admissible beacons duration_trunc deny_list 4_990_000_000_000
      5_170_000_000_000 (pos 1) none beacon (gateway 1 10) 7 3_600_000_000_000

verify_beacon-Confirmed_example :
    Accepts beacons duration_trunc deny_list tables
      (verify_beacon beacons duration_trunc deny_list tables poc 3_600_000_000_000)
      (gateway 1 10)
      2000
    ↔ Confirmed beacons duration_trunc deny_list tables poc 3_600_000_000_000 (gateway 1 10) 2000
verify_beacon-Confirmed_example =
    verify_beacon-Confirmed beacons duration_trunc deny_list tables poc 3_600_000_000_000
      (gateway 1 10) 2000

do_witness_verifications-Acceptable_example :
    Passes (
      do_witness_verifications cells f64 deny_list 4_990_000_000_000 5_170_000_000_000
        (witness_of 2)
        (gateway 2 20)
        beacon
        (metadata 10)
        5_001_000_000_000)
    ↔ ((m : GatewayMetadata) × (some (metadata 20) ≡ some m)
        × Acceptable cells f64 deny_list 4_990_000_000_000 5_170_000_000_000
            (witness_of 2)
            true
            m
            beacon
            (metadata 10)
            5_001_000_000_000)
do_witness_verifications-Acceptable_example =
    do_witness_verifications-Acceptable cells f64 deny_list 4_990_000_000_000 5_170_000_000_000
      (witness_of 2) (gateway 2 20) beacon (metadata 10) 5_001_000_000_000 (omega arith)
      (omega arith)

verify_witnesses-Verdicts_example :
    (vs : List VerifiedWitness) × (verify_witnesses cells f64 deny_list gateways
        (λ l. none)
        poc
        (gateway 1 10)
      ≡ ok (record { verified_witnesses = vs; failed_witnesses = [] }))
    × Verdicts cells f64 deny_list gateways
        (λ l. none)
        poc
        (gateway 1 10)
        (first_received poc.witness_reports)
        []
        poc.witness_reports
        vs
verify_witnesses-Verdicts_example =
    verify_witnesses-Verdicts cells f64 deny_list gateways (λ l. none) poc (gateway 1 10)

verify_witness_freq-wraps_example : Passes (verify_witness_freq 904_000_000 3_500_000_000)
verify_witness_freq-wraps_example =
    verify_witness_freq-wraps 904_000_000 3_500_000_000 (omega arith) (omega arith)

-- The last of the three reports is a duplicate of the first.
abbrev statuses : List VerifiedWitness → List Types.InvalidReason
statuses [] = []
statuses (v ∷ vs) = v.invalid_reason ∷ statuses vs

abbrev reasons : Outcome (Unit {0}) VerifyWitnessesResult → List Types.InvalidReason
reasons (ok r) = statuses r.verified_witnesses
reasons (err e) = []
reasons panic = []

judged_reports :
    reasons (verify_witnesses cells f64 deny_list gateways (λ l. none) poc (gateway 1 10))
    ≡ Types.reason_none ∷ Types.reason_none ∷ Types.duplicate ∷ []
unfolding verify_witnesses calc_cell_distance calc_distance
judged_reports = refl

judged_beacon :
    Accepts beacons duration_trunc deny_list tables
      (verify_beacon beacons duration_trunc deny_list tables poc 3_600_000_000_000)
      (gateway 1 10)
      2000
unfolding verify_beacon
judged_beacon = refl
