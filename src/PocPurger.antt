-- ===== src/PocPurger.antt =====
-- iot_verifier/src/purger.rs: reports that were never judged are written out as stale and deleted. A
-- statement or a write that fails changes nothing; the reports of a tick are purged one after the other.
-- Postgres refuses every further statement of a transaction after one that failed, and rolls it back; here
-- the others of that transaction take effect, so that rows are deleted which the code keeps for a later tick.
use oracles.Prelude.{
  ℕ, ◌-◌, ◌+◌, Bool, true, false, not, ◌&&◌, List, [], ◌∷◌, Option, none, some, Outcome, ok, err,
  panic, Action, pure, raise, ◌>>=◌, ◌>>◌, map_err, filter, ltb, ◌==◌,
}
use oracles.Prelude.Int.{ℤ, pos}
use oracles.PacketVerifier.Pending.{SqlxError, statement_failed}
use oracles.PacketVerifier.Verifier.{Sink, SinkError, write_failed, write, commit_sink}
use oracles.Poc.Types.{BeaconIngestReport, WitnessIngestReport, stale, witness}
use oracles.PocRunner.Reports.{Report, EntropyRow, is_beacon, is_ready}
use oracles.PocRunner.State.{InvalidBeaconReport, InvalidWitnessReport, Reading}
use oracles.PocRunner.Conclude.{ingest_id, witness_id}
pub mod Written
pub mod Steps
pub mod Ticks
mod Tests

pub record Periods : Type 0 where
  pub base_stale_period : ℕ
  pub beacon_stale_period : ℕ
  pub witness_stale_period : ℕ
  pub entropy_stale_period : ℕ

-- The tables, of which `open_report` is the copy that a transaction works on, and the two sinks.
pub record Purger : Type 0 where
  pub poc_report : List Report
  pub open_report : List Report
  pub entropy : List EntropyRow
  pub faults : List Bool
  pub invalid_beacons : Sink InvalidBeaconReport
  pub invalid_witnesses : Sink InvalidWitnessReport

pub data PurgeError : Type 0 where
  sql_error : SqlxError → PurgeError
  sink_error : SinkError → PurgeError
  decode_error : PurgeError

abbrev pub Purge : Type 0 → Type 0
Purge A = Action Purger PurgeError A

abbrev pub with_faults : List Bool → Purger → Purger
with_faults rest s = record s { faults = rest }

abbrev pub on_fault : {A : Type 0} → List Bool → (Purger → A × Purger) → Purge A
on_fault [] run s = let (a, u) = run s in (ok a, u)
on_fault (true ∷ rest) run s = (err (sql_error statement_failed), with_faults rest s)
on_fault (false ∷ rest) run s = let (a, u) = run (with_faults rest s) in (ok a, u)

unfoldable pub execute : {A : Type 0} → (Purger → A × Purger) → Purge A
execute run s = on_fault s.faults run s

-- The stale beacons, or the stale witnesses.
abbrev pub is_stale : Bool → ℕ → Report → Bool
is_stale true time r = is_beacon r && (is_ready r && ltb r.created_at time)
is_stale false time r = not (is_beacon r) && (is_ready r && ltb r.created_at time)

unfoldable pub get_stale_beacons : ℕ → ℕ → Purge (List Report)
unfolding execute
get_stale_beacons stale_period now =
    execute λ s. (filter (is_stale true (now - stale_period)) s.poc_report, s)

unfoldable pub get_stale_witnesses : ℕ → ℕ → Purge (List Report)
unfolding execute
get_stale_witnesses stale_period now =
    execute λ s. (filter (is_stale false (now - stale_period)) s.poc_report, s)

abbrev pub without_id : ℕ → List Report → List Report
without_id id = filter (λ r. not (r.id == id))

unfoldable pub delete_report : ℕ → Purge (Unit {0})
unfolding execute
delete_report id = execute λ s. (tt, record s { open_report = without_id id s.open_report })

unfoldable pub begin : Purge (Unit {0})
unfolding execute
begin = execute λ s. (tt, record s { open_report = s.poc_report })

unfoldable pub commit : Purge (Unit {0})
unfolding execute
commit = execute λ s. (tt, record s { poc_report = s.open_report })

-- `Entropy::purge`.
unfoldable pub purge_entropy : ℕ → ℕ → Purge (Unit {0})
unfolding execute
purge_entropy stale_period now = execute λ s. (
  tt,
  record s {
    entropy = filter (λ (e : EntropyRow). not (ltb e.timestamp (now - stale_period))) s.entropy;
  },
)

unfoldable pub write_beacon : InvalidBeaconReport → Purge (Unit {0})
unfolding write
write_beacon x s =
    let (r, k) = write x s.invalid_beacons in
    (map_err sink_error r, record s { invalid_beacons = k })

unfoldable pub write_witness : InvalidWitnessReport → Purge (Unit {0})
unfolding write
write_witness x s =
    let (r, k) = write x s.invalid_witnesses in
    (map_err sink_error r, record s { invalid_witnesses = k })

unfoldable pub commit_beacons : Purge (Unit {0})
unfolding commit_sink
commit_beacons s =
    let (r, k) = commit_sink s.invalid_beacons in
    (map_err sink_error r, record s { invalid_beacons = k })

unfoldable pub commit_witnesses : Purge (Unit {0})
unfolding commit_sink
commit_witnesses s =
    let (r, k) = commit_sink s.invalid_witnesses in
    (map_err sink_error r, record s { invalid_witnesses = k })

abbrev pub stale_beacon : BeaconIngestReport → InvalidBeaconReport
stale_beacon b = record {
  received_timestamp = b.received_timestamp;
  reason = stale;
  invalid_details = none;
  report = b.report;
  location = none;
  gain = pos 0;
  elevation = pos 0;
}

abbrev pub stale_witness : WitnessIngestReport → InvalidWitnessReport
stale_witness w = record {
  received_timestamp = w.received_timestamp;
  report = w.report;
  reason = stale;
  invalid_details = none;
  participant_side = witness;
}

abbrev pub decoded : {A : Type 0} → Option A → Purge A
decoded none = raise decode_error
decoded (some a) = pure a

-- An error of one report is logged only.
abbrev pub logged : Outcome PurgeError (Unit {0}) × Purger → Outcome PurgeError (Unit {0}) × Purger
logged (ok a, s) = (ok a, s)
logged (err e, s) = (ok tt, s)
logged (panic, s) = (panic, s)

abbrev pub for_each : (Report → Purge (Unit {0})) → List Report → Purge (Unit {0})
for_each f [] = pure tt
for_each f (r ∷ rs) = (λ s. logged (f r s)) >>= λ _. for_each f rs

module _ (reading : Reading) where
  unfoldable pub handle_purged_beacon : Report → Purge (Unit {0})
  unfolding write_beacon delete_report
  handle_purged_beacon r = do
    b ← decoded (reading.decode_beacon r.report_data)
    write_beacon (stale_beacon b)
    delete_report (ingest_id reading b)

  unfoldable pub handle_purged_witness : Report → Purge (Unit {0})
  unfolding write_witness delete_report
  handle_purged_witness r = do
    w ← decoded (reading.decode_witness r.report_data)
    write_witness (stale_witness w)
    delete_report (witness_id reading w)

  -- The halves of a tick, each with the time at which its query reads the clock.
  unfoldable pub purge_beacons : Periods → ℕ → Purge (Unit {0})
  unfolding get_stale_beacons begin commit commit_beacons handle_purged_beacon
  purge_beacons p now = do
    beacons ← get_stale_beacons (p.base_stale_period + p.beacon_stale_period) now
    begin
    for_each handle_purged_beacon beacons
    commit_beacons
    commit

  unfoldable pub purge_witnesses : Periods → ℕ → Purge (Unit {0})
  unfolding get_stale_witnesses begin commit commit_witnesses handle_purged_witness
  purge_witnesses p now = do
    witnesses ← get_stale_witnesses (p.base_stale_period + p.witness_stale_period) now
    begin
    for_each handle_purged_witness witnesses
    commit_witnesses
    commit

  unfoldable pub handle_db_tick : Periods → ℕ → ℕ → ℕ → Purge (Unit {0})
  unfolding purge_beacons purge_witnesses purge_entropy
  handle_db_tick p t1 t2 t3 = do
    purge_beacons p t1
    purge_witnesses p t2
    λ s. logged (purge_entropy (p.base_stale_period + p.entropy_stale_period) t3 s)
