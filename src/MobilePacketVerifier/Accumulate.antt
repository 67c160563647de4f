-- ===== src/MobilePacketVerifier/Accumulate.antt =====
-- mobile_packet_verifier/src/accumulate.rs, with `is_duplicate` of event_ids.rs and the file's arm of the
-- loop of daemon.rs. The tables stand in Postgres: a statement may fail by the schedule `faults`, and
-- a sum of bytes out of the range of a BIGINT fails. A file works on the tables of its transaction.
-- The gateway and the authorization service answer a key alike as long as a file is accumulated.
use Prim.Native.Nat.{max}
use mathlib.Core.Option
use oracles.Prelude.{
  ℕ, ◌-◌, ◌^◌, Bool, true, false, not, ◌&&◌, List, [], ◌∷◌, Option, none, some, Outcome, ok, err,
  panic, Action, pure, ◌>>=◌, ◌>>◌, map_err, Reply, done, failed, Dict, lookup, insert, ◌==◌,
  if◌then◌else◌,
}
use oracles.Prelude.Int.{ℤ, pos, negsuc, ◌+ℤ◌, ltb_ℤ}
use oracles.PacketVerifier.Pending.{SqlxError, statement_failed, as_i64}
use oracles.PacketVerifier.Verifier.{Sink, SinkError, write}
pub mod Table
pub mod Events
pub mod Accepted
pub mod Sessions
pub mod Replayed

pub record DataTransferEvent : Type 0 where
  pub pub_key : ℕ
  pub payer : ℕ
  pub upload_bytes : ℕ
  pub download_bytes : ℕ
  pub event_id : ℕ

pub record SessionReq : Type 0 where
  pub data_transfer_usage : DataTransferEvent
  pub rewardable_bytes : ℕ
  pub pub_key : ℕ

pub record IngestReport : Type 0 where
  pub received_timestamp : ℕ
  pub report : SessionReq

pub data ReportStatus : Type 0 where
  valid cancelled duplicate invalid_gateway_key invalid_routing_key : ReportStatus

pub record InvalidReport : Type 0 where
  pub report : IngestReport
  pub reason : ReportStatus
  pub timestamp : ℕ

-- A row of data_transfer_sessions, whose key is the gateway and the payer.
pub record DataTransferSession : Type 0 where
  pub pub_key : ℕ
  pub payer : ℕ
  pub uploaded_bytes : ℤ
  pub downloaded_bytes : ℤ
  pub rewardable_bytes : ℤ
  pub first_timestamp : ℕ
  pub last_timestamp : ℕ

-- `event_ids` holds the time at which each event was received.
pub record Tables : Type 0 where
  pub sessions : List DataTransferSession
  pub event_ids : Dict ℕ

pub record Db : Type 0 where
  pub tables : Tables
  pub faults : List Bool

-- Runs a statement unless the schedule fails it.
unfoldable pub execute :
    {A : Type 0} → (Tables → Outcome SqlxError A × Tables) → Action Db SqlxError A
execute run db = elim db.faults [
  | [] ↦ let (r, t) = run db.tables in (r, record db { tables = t })
  | fault ∷ rest ↦
      if fault
      then (err statement_failed, record db { faults = rest })
      else let (r, t) = run db.tables in (r, record { tables = t; faults = rest })
]

-- A BIGINT.
abbrev pub is_i64 : ℤ → Bool
is_i64 n = not (ltb_ℤ n (negsuc (2 ^ 63 - 1))) && ltb_ℤ n (pos (2 ^ 63))

-- The row of the key with the bytes of the new one added.
unfoldable pub merge : DataTransferSession → DataTransferSession → DataTransferSession
merge s new = record s {
  uploaded_bytes = s.uploaded_bytes +ℤ new.uploaded_bytes;
  downloaded_bytes = s.downloaded_bytes +ℤ new.downloaded_bytes;
  rewardable_bytes = s.rewardable_bytes +ℤ new.rewardable_bytes;
  last_timestamp = max s.last_timestamp new.last_timestamp;
}

unfoldable pub in_range : DataTransferSession → Bool
in_range s = is_i64 s.uploaded_bytes && (is_i64 s.downloaded_bytes && is_i64 s.rewardable_bytes)

abbrev pub has_key : ℕ → ℕ → DataTransferSession → Bool
has_key pub_key payer s = (s.pub_key == pub_key) && (s.payer == payer)

-- `INSERT ... ON CONFLICT (pub_key, payer) DO UPDATE`; there is no answer where a sum is out of range.
unfoldable pub upsert :
    DataTransferSession → List DataTransferSession → Option (List DataTransferSession)
upsert new [] = some (new ∷ [])
upsert new (s ∷ ss) =
    let rest = Option.map (λ r. s ∷ r) (upsert new ss) in
    if has_key new.pub_key new.payer s
    then (if in_range (merge s new) then some (merge s new ∷ ss) else none)
    else rest

abbrev pub put_sessions :
    Tables → Option (List DataTransferSession) → Outcome SqlxError (Unit {0}) × Tables
put_sessions t none = (err statement_failed, t)
put_sessions t (some ss) = (ok tt, record t { sessions = ss })

unfoldable pub insert_session : DataTransferSession → Action Db SqlxError (Unit {0})
unfolding execute
insert_session new = execute λ t. put_sessions t (upsert new t.sessions)

-- `INSERT INTO event_ids ... ON CONFLICT (event_id) DO NOTHING`, with the number of rows affected.
abbrev pub put_event_id : ℕ → ℕ → Tables → Option ℕ → Outcome SqlxError ℕ × Tables
put_event_id event_id received t (some _) = (ok 0, t)
put_event_id event_id received t none =
    (ok 1, record t { event_ids = insert event_id received t.event_ids })

unfoldable pub insert_event_id : ℕ → ℕ → Action Db SqlxError ℕ
unfolding execute
insert_event_id event_id received =
    execute λ t. put_event_id event_id received t (lookup event_id t.event_ids)

unfoldable pub is_duplicate : IngestReport → Action Db SqlxError Bool
unfolding insert_event_id
is_duplicate r = do
  rows ← insert_event_id r.report.data_transfer_usage.event_id r.received_timestamp
  pure (rows == 0)

-- The two services, and the connection with the sink of the invalid reports.
pub record Services (E Info : Type 0) : Type 0 where
  pub resolve_gateway_info : ℕ → Reply E (Option Info)
  pub verify_authorized_key : ℕ → Reply E Bool

pub record Work : Type 0 where
  pub conn : Db
  pub invalid_sessions : Sink InvalidReport

pub data Failure : Type 0 where
  sqlx_error : SqlxError → Failure
  sink_error : SinkError → Failure

unfoldable pub on_conn : {A : Type 0} → Action Db SqlxError A → Action Work Failure A
on_conn m w = let (r, c) = m w.conn in (map_err sqlx_error r, record w { conn = c })

unfoldable pub write_invalid_report :
    ReportStatus → IngestReport → ℕ → Action Work Failure (Unit {0})
write_invalid_report reason r now w =
    let (x, s) =
      write (record { report = r; reason = reason; timestamp = now }) w.invalid_sessions in
    (map_err sink_error x, record w { invalid_sessions = s })

-- The row of a report in the file of the time `ts`.
unfoldable pub session_of : ℕ → IngestReport → DataTransferSession
session_of ts r =
    let event = r.report.data_transfer_usage in
    record {
      pub_key = event.pub_key;
      payer = event.payer;
      uploaded_bytes = as_i64 event.upload_bytes;
      downloaded_bytes = as_i64 event.download_bytes;
      rewardable_bytes = as_i64 r.report.rewardable_bytes;
      first_timestamp = ts;
      last_timestamp = ts;
    }

module _ {E Info : Type 0} (services : Services E Info) where
  unfoldable pub verify_gateway : ℕ → Bool
  verify_gateway key = elim (services.resolve_gateway_info key) [
    | done (some info) ↦ true
    | done none ↦ false
    | failed e ↦ false
  ]

  unfoldable pub verify_known_routing_key : ℕ → Bool
  verify_known_routing_key key = elim (services.verify_authorized_key key) [
    | done res ↦ res
    | failed e ↦ false
  ]

  unfoldable pub validity : Bool → IngestReport → ReportStatus
  validity true r = duplicate
  validity false r =
      if not (verify_gateway r.report.data_transfer_usage.pub_key)
      then invalid_gateway_key
      else if not (verify_known_routing_key r.report.pub_key)
      then invalid_routing_key
      else valid

  unfoldable pub verify_report : IngestReport → Action Db SqlxError ReportStatus
  unfolding is_duplicate validity
  verify_report r = do dup ← is_duplicate r; pure (validity dup r)

  unfoldable pub record_status :
      ℕ → ReportStatus → IngestReport → ℕ → Action Work Failure (Unit {0})
  unfolding on_conn insert_session write_invalid_report
  record_status ts valid r now = on_conn (insert_session (session_of ts r))
  record_status ts status r now = write_invalid_report status r now

  -- The body of the loop, for a report that is read at the time `now`.
  unfoldable pub accumulate_report : ℕ → IngestReport → ℕ → Action Work Failure (Unit {0})
  unfolding write_invalid_report on_conn verify_report record_status
  accumulate_report ts r now =
      if r.report.rewardable_bytes == 0
      then write_invalid_report cancelled r now
      else do status ← on_conn (verify_report r); record_status ts status r now

  unfoldable pub accumulate_sessions : ℕ → List (IngestReport × ℕ) → Action Work Failure (Unit {0})
  unfolding accumulate_report
  accumulate_sessions ts [] = pure tt
  accumulate_sessions ts ((r, now) ∷ reports) = do
    accumulate_report ts r now
    accumulate_sessions ts reports

-- A transaction that is begun, or committed, shows no other tables.
unfoldable pub begin : Action Db SqlxError (Unit {0})
unfolding execute
begin = execute λ t. (ok tt, t)

unfoldable pub commit : Action Db SqlxError (Unit {0})
unfolding execute
commit = execute λ t. (ok tt, t)

-- A transaction that is dropped leaves the tables `t` from before it.
abbrev pub or_rollback :
    Tables → Outcome Failure (Unit {0}) × Work → Outcome Failure (Unit {0}) × Work
or_rollback t (ok _, w) = (ok tt, w)
or_rollback t (err e, w) = (err e, record w { conn = record w.conn { tables = t } })
or_rollback t (panic, w) = (panic, record w { conn = record w.conn { tables = t } })

module _ {E Info : Type 0} (services : Services E Info) where
  unfoldable pub accumulate_commit : ℕ → List (IngestReport × ℕ) → Action Work Failure (Unit {0})
  unfolding on_conn accumulate_sessions commit
  accumulate_commit ts reports = do accumulate_sessions services ts reports; on_conn commit

  unfoldable pub in_transaction : ℕ → List (IngestReport × ℕ) → Action Work Failure (Unit {0})
  unfolding on_conn begin accumulate_commit
  in_transaction ts reports = do on_conn begin; accumulate_commit ts reports

  -- The arm of `Daemon::run` for a file, up to the commit of the sink. Its insertion into files_processed,
  -- a table that nothing else here reads, is left out.
  unfoldable pub handle_file : ℕ → List (IngestReport × ℕ) → Action Work Failure (Unit {0})
  unfolding in_transaction
  handle_file ts reports w = or_rollback w.conn.tables (in_transaction ts reports w)
