-- ===== src/PocRunner/Tests.antt =====
-- A tick of the runner on concrete tables, and runs of the selection.
use oracles.Prelude.{
  ℕ, ◌+◌, ◌-◌, ◌*◌, ◌/◌, ◌≡◌, refl, subst, Bool, true, false, List, [], ◌∷◌, Option, none, some,
  ◌==◌, ◌||◌, ltb, Outcome, ok, err, panic, Dict, leb, if◌then◌else◌, arith, map, length,
}
use oracles.Prelude.Int.{pos}
use oracles.PacketVerifier.Verifier.{Sink}
use oracles.Poc.Types.{
  VerifiedWitness, BeaconIngestReport, InvalidReason, self_witness, too_late, valid_witness,
  invalid_witness, witness,
}
use oracles.Poc.Beacon.{Poc, VerificationError}
use oracles.Poc.Tests.{cells, f64, deny_list, beacons, duration_trunc, tables, beacon, witness_of}
use oracles.IotRewards
use oracles.IotRewards.Tests.{whole}
use oracles.PocRunner.Select.{select}
use oracles.PocRunner.Select.Earliest.{IsSelection, select-IsSelection}
use oracles.PocRunner.Units.{UnitDecimals}
use oracles.PocRunner.Reports
use oracles.PocRunner.Reports.{Report, EntropyRow, Db, beacons_of}
use oracles.PocRunner.State.{Settings, Runner, RunnerError, Reading, Verifier}
use oracles.PocRunner.Handler.{handle_db_tick}
use oracles.PocRunner.Conclude.{ingest_id}
use oracles.PocRunner.Attempts.{Keeps, IsCounted, OfPacket}
use oracles.PocRunner.Steady.{Post}
use oracles.PocRunner.Ticks.{All, handle_db_tick-IsCounted}
use oracles.PocRunner.Verification.{
  poc_verifier, IsAnswer, Cuts, poc_verifier-IsAnswer, poc_verifier-IsVerifier,
}

-- The reports of the table: a beacon and its witnesses, by the first byte.
abbrev reading : Reading
reading = record {
  decode_beacon = λ bytes. elim bytes [ [] ↦ none | _ ∷ _ ↦ some beacon ];
  decode_witness = λ bytes. elim bytes [ [] ↦ none | k ∷ _ ↦ some (witness_of k) ];
  hash = λ bytes time key. key;
}

abbrev row : ℕ → IotRewards.ReportType → Report
row id report_type = record {
  id = id;
  remote_entropy = 5;
  packet_data = 3 ∷ [];
  report_data = id ∷ [];
  report_type = report_type;
  status = Reports.ready;
  attempts = 2;
  report_timestamp = 5_000_000_000_000 + id;
  last_processed = none;
  created_at = 5_000_000_000_000;
  timestamp = none;
  version = none;
}

abbrev poc_report : List Report
poc_report = row 1 IotRewards.beacon ∷ row 2 IotRewards.witness ∷ row 3 IotRewards.witness ∷ []

abbrev db : Db ℕ
db = record {
  poc_report = poc_report;
  entropy = (5, record { timestamp = 4_990_000_000_000; version = pos 1 }) ∷ [];
  last_beacon = (1, 1_000_000_000_000) ∷ [];
  shares = record { gateway_shares = []; gateway_dc_shares = [] };
  open_shares = record { gateway_shares = []; gateway_dc_shares = [] };
  faults = [];
}

abbrev empty : {A : Type 0} → Sink A
empty = record { written = []; faults = [] }

abbrev runner : Runner ℕ
runner = record { db = db; invalid_beacons = empty; invalid_witnesses = empty; pocs = empty }

abbrev settings : Settings
settings = record {
  beacon_interval = 1_000_000_000_000;
  max_witnesses_per_poc = 1;
  beacon_max_retries = 3;
  witness_max_retries = 5;
}

-- Numbers of steps of 0.0001, in place of decimals.
abbrev steps : UnitDecimals ℕ
steps = record {
  lit = λ m s. m * 10_000;
  ratio = λ a b. some (a * 10_000 / b);
  of_u32 = λ n. n * 10_000;
  sub = λ a b. a - b;
  div = λ a b. a * 10_000 / b;
  min = λ a b. if leb a b then a else b;
  checked_powu = λ a n. some a;
  round_dp = λ a. a;
}

abbrev poc : Verifier (Option (VerificationError ℕ ℕ))
poc = poc_verifier beacons duration_trunc deny_list tables cells f64

abbrev now : ℕ
now = 6_000_000_000_000

-- The beacon of the table is ready, and its entropy has ended.
ready : map (λ (r : Report). r.id) (beacons_of now 3 db.entropy poc_report) ≡ 1 ∷ []
unfolding Reports.order_by oracles.Prelude.lookup Reports.insert_by
ready = refl

-- The tick verifies it, writes it out with one witness selected, and empties the table.
ticked :
    let u = (handle_db_tick settings poc reading whole steps (λ n. n) now runner).1 in
    (u.db.poc_report ≡ [])
    × (length u.pocs.written ≡ 1)
    × (u.db.last_beacon ≡ (1, 5_000_000_000_000) ∷ [])
    × (length u.db.shares.gateway_shares ≡ 2)
unfolding handle_db_tick oracles.Prelude.lookup Reports.insert_by oracles.Poc.Checks.eq_bytes
    poc_verifier oracles.Poc.Beacon.new oracles.Poc.Checks.calc_cell_distance
    oracles.Poc.Checks.calc_distance oracles.PocRunner.Units.poc_beaconer_reward_unit select
    oracles.PocRunner.Select.sort_and_split_witnesses oracles.PocRunner.Select.filter_witnesses
    oracles.PocRunner.Select.filter_witness oracles.PocRunner.Select.sort_witnesses
    oracles.PocRunner.Select.insert_witness oracles.PocRunner.Units.poc_per_witness_reward_unit
    Reports.begin oracles.IotRewards.save_poc_share oracles.IotRewards.shares_from_poc
    oracles.IotRewards.witness_shares_of oracles.PacketVerifier.Verifier.write
    oracles.Prelude.insert Reports.save_each Reports.commit Reports.update_last_timestamp
    Reports.delete_poc
ticked = (refl, refl, refl, refl)

-- Where no beacon can be written out, the row stays and its attempt is counted.
abbrev blocked : Runner ℕ
blocked = record runner { pocs = record { written = []; faults = true ∷ [] } }

blocked_tick :
    map
      (λ (r : Report). r.attempts)
      (handle_db_tick settings poc reading whole steps (λ n. n) now blocked).1.db.poc_report
    ≡ 3 ∷ 2 ∷ 2 ∷ []
unfolding handle_db_tick oracles.Prelude.lookup Reports.insert_by oracles.Poc.Checks.eq_bytes
    poc_verifier oracles.Poc.Beacon.new oracles.Poc.Checks.calc_cell_distance
    oracles.Poc.Checks.calc_distance oracles.PocRunner.Units.poc_beaconer_reward_unit select
    oracles.PocRunner.Select.sort_and_split_witnesses oracles.PocRunner.Select.filter_witnesses
    oracles.PocRunner.Select.filter_witness oracles.PocRunner.Select.sort_witnesses
    oracles.PocRunner.Select.insert_witness oracles.PocRunner.Units.poc_per_witness_reward_unit
    Reports.begin oracles.IotRewards.save_poc_share oracles.IotRewards.shares_from_poc
    oracles.IotRewards.witness_shares_of oracles.PacketVerifier.Verifier.write
    oracles.Prelude.insert Reports.save_each Reports.commit Reports.update_attempts
blocked_tick = refl

loaded :
    (b : BeaconIngestReport)
    → beacon ≡ b
    → (1 ≡ ingest_id reading b) × OfPacket (ingest_id reading b) b.report.packet poc_report
unfolding oracles.Poc.Checks.eq_bytes
loaded b e =
    subst
      (λ x. (1 ≡ ingest_id reading x) × OfPacket (ingest_id reading x) x.report.packet poc_report) e
      (refl, ((λ _. refl), ((λ _. refl), ((λ _. refl), tt))))

handle_db_tick-IsCounted_example :
    Post {E = RunnerError (Option (VerificationError ℕ ℕ))}
      (λ _ u.
        (u.db.faults ≡ [])
        × Keeps poc_report u.db.poc_report
        × All
            (λ r. IsCounted r.id poc_report u.db.poc_report)
            (beacons_of now 3 db.entropy poc_report))
      (λ _. ⊥)
      (handle_db_tick settings poc reading whole steps (λ n. n) now blocked)
handle_db_tick-IsCounted_example =
    handle_db_tick-IsCounted settings poc reading whole steps (λ n. n)
      (poc_verifier-IsVerifier beacons duration_trunc deny_list tables cells f64
        (λ t i. (t / i * i, refl)))
      now blocked refl
      ((λ _ b e. loaded b (cc e)), ((λ e. absurd (cc e)), ((λ e. absurd (cc e)), tt)))

-- A cut to whole intervals that fails, as that of chrono does, for an interval of zero and for a time
-- below it.
abbrev cut_from : ℕ → ℕ → Option ℕ
cut_from t interval =
    if (interval == 0) || ltb t interval then none else some (t / interval * interval)

-- A beacon whose gateway has sent one before.
abbrev again : Poc
again = record {
  beacon_report = beacon;
  witness_reports = witness_of 2 ∷ witness_of 3 ∷ witness_of 2 ∷ [];
  entropy_start = 4_990_000_000_000;
  entropy_end = 5_170_000_000_000;
  entropy_version = pos 1;
}

poc_verifier-IsAnswer_example :
    let careful = poc_verifier beacons cut_from deny_list tables cells f64 in
    IsAnswer
      (tables.gateways again.beacon_report.report.pub_key)
      (careful.verify_beacon db.last_beacon again 1_000_000_000_000)
    × ((vs : List VerifiedWitness) × (careful.verify_witnesses again
            (record { address = 1; metadata = none; is_full_hotspot = true })
          ≡ ok (record { verified_witnesses = vs; failed_witnesses = [] })))
unfolding oracles.Prelude.lookup
poc_verifier-IsAnswer_example =
    poc_verifier-IsAnswer beacons cut_from deny_list tables cells f64 db.last_beacon again
      1_000_000_000_000 (record { address = 1; metadata = none; is_full_hotspot = true })
      (λ t e. (
        subst (λ t. Cuts beacons cut_from deny_list t 1_000_000_000_000) (the_last t e)
            (1_000_000_000_000, refl),
        (5_000_000_000_000, refl),
      ))
  where
    the_last : (t : ℕ) → some 1_000_000_000_000 ≡ some t → 1_000_000_000_000 ≡ t
    the_last t e = cc e

-- Two valid witnesses for one place, an invalid one and a self-witness.
abbrev answered : ℕ → ℕ → VerifiedWitness
answered key time = valid_witness (witness_of key).report time (some 10) (pos 0) (pos 0) 2_000

abbrev refused : ℕ → InvalidReason → VerifiedWitness
refused key reason =
    invalid_witness reason none (witness_of key).report 7 none (pos 0) (pos 0) witness

abbrev answers : List VerifiedWitness
answers = answered 2 9 ∷ refused 1 self_witness ∷ refused 3 too_late ∷ answered 4 8 ∷ []

selected_one : select answers 1 ≡ (answered 4 8 ∷ [], answered 2 9 ∷ refused 3 too_late ∷ [])
unfolding select oracles.PocRunner.Select.sort_and_split_witnesses
    oracles.PocRunner.Select.filter_witnesses oracles.PocRunner.Select.filter_witness
    oracles.PocRunner.Select.sort_witnesses oracles.PocRunner.Select.insert_witness
selected_one = refl

select-IsSelection_example :
    IsSelection 1 answers (answered 4 8 ∷ []) (answered 2 9 ∷ refused 3 too_late ∷ [])
unfolding select oracles.PocRunner.Select.sort_and_split_witnesses
    oracles.PocRunner.Select.filter_witnesses oracles.PocRunner.Select.filter_witness
    oracles.PocRunner.Select.sort_witnesses oracles.PocRunner.Select.insert_witness
select-IsSelection_example = select-IsSelection 1 answers
