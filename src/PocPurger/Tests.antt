-- ===== src/PocPurger/Tests.antt =====
-- Ticks of the purger on a table with a stale beacon and a fresh one.
use oracles.Prelude.{ℕ, ◌≡◌, refl, Bool, true, List, [], ◌∷◌, none, some, map}
use oracles.Prelude.Int.{pos}
use oracles.Poc.Tests.{beacon, witness_of}
use oracles.PacketVerifier.Verifier.{Sink}
use oracles.IotRewards.{ReportType}
use oracles.IotRewards
use oracles.PocRunner.Reports
use oracles.PocRunner.Reports.{Report}
use oracles.PocRunner.State.{Reading}
use oracles.PocRunner.Steady.{Post}
use oracles.PocPurger.{Periods, Purger, handle_db_tick}
use oracles.PocPurger.Written.{IsPurged}
use oracles.PocPurger.Ticks.{handle_db_tick-IsPurged}

abbrev reading : Reading
reading = record {
  decode_beacon = λ bytes. elim bytes [ [] ↦ none | _ ∷ _ ↦ some beacon ];
  decode_witness = λ bytes. elim bytes [ [] ↦ none | k ∷ _ ↦ some (witness_of k) ];
  hash = λ bytes time key. key;
}

abbrev row : ℕ → ℕ → ReportType → Report
row id created_at report_type = record {
  id = id;
  remote_entropy = 5;
  packet_data = 3 ∷ [];
  report_data = id ∷ [];
  report_type = report_type;
  status = Reports.ready;
  attempts = 0;
  report_timestamp = created_at;
  last_processed = none;
  created_at = created_at;
  timestamp = none;
  version = none;
}

abbrev empty : {A : Type 0} → List Bool → Sink A
empty faults = record { written = []; faults = faults }

abbrev purger : List Bool → Purger
purger sink_faults = record {
  poc_report =
      row 1 10 IotRewards.beacon ∷ row 2 10 IotRewards.witness ∷ row 3 900 IotRewards.witness ∷ [];
  open_report = [];
  entropy = record { timestamp = 10; version = pos 1 } ∷ [];
  faults = [];
  invalid_beacons = empty sink_faults;
  invalid_witnesses = empty [];
}

abbrev periods : Periods
periods = record {
  base_stale_period = 100;
  beacon_stale_period = 45;
  witness_stale_period = 45;
  entropy_stale_period = 60;
}

-- The two stale reports are written and deleted.
purged :
    map
      (λ (r : Report). r.id)
      (handle_db_tick reading periods 1_000 1_000 1_000 (purger [])).1.poc_report
    ≡ 3 ∷ []
unfolding handle_db_tick
purged = refl

-- The write of the beacon fails, so that its row stays.
blocked :
    map
      (λ (r : Report). r.id)
      (handle_db_tick reading periods 1_000 1_000 1_000 (purger (true ∷ []))).1.poc_report
    ≡ 1 ∷ 3 ∷ []
unfolding handle_db_tick
blocked = refl

handle_db_tick-IsPurged_example :
    Post
      (λ _ u.
        IsPurged reading
          (purger (true ∷ [])).poc_report
          u.invalid_beacons.written
          u.invalid_witnesses.written
          u.poc_report)
      (λ u.
        IsPurged reading
          (purger (true ∷ [])).poc_report
          u.invalid_beacons.written
          u.invalid_witnesses.written
          u.poc_report)
      (handle_db_tick reading periods 1_000 1_000 1_000 (purger (true ∷ [])))
handle_db_tick-IsPurged_example =
    handle_db_tick-IsPurged reading periods 1_000 1_000 1_000 (purger (true ∷ []))
