-- ===== src/MobilePacketVerifier/Accumulate/Accepted.antt =====
-- mobile_packet_verifier/src/accumulate.rs: what the round of one report records.
use mathlib.Core.List.{append-nil}
use Prim.Native.Nat.{max}
use oracles.Prelude.Int.{◌+ℤ◌}
use oracles.PacketVerifier.Pending.{as_i64}
use oracles.Prelude.{
  Bool, Reply, done, failed, not, ◌&&◌, ℕ, ◌≡◌, refl, sym, ap, ◌∙◌, true, false, List, [], ◌∷◌,
  ◌++◌, Option, none, some, Ends, Ends-bind, Ends-mono, pure, lookup, ◌==◌, if◌then◌else◌,
  List-cases, inl, inr,
}
use oracles.PacketVerifier.Verifier.{Sink, write}
use oracles.MobilePacketVerifier.Accumulate.{
  IngestReport, ReportStatus, valid, cancelled, duplicate, invalid_gateway_key, invalid_routing_key,
  InvalidReport, DataTransferSession, Tables, Db, has_key, upsert, put_sessions, insert_session,
  put_event_id, insert_event_id, is_duplicate, Services, Work, on_conn, write_invalid_report,
  session_of, merge, verify_gateway, verify_known_routing_key, validity, verify_report,
  record_status,
}
use oracles.MobilePacketVerifier.Accumulate.Table.{find_session, merged, find-upsert}
use oracles.MobilePacketVerifier.Accumulate.Events.{
  is_some, event_id_of, execute-Ends, on_conn-Ends, HasEvents, put_event_id-HasEvents,
}

-- The row of a report's key after a valid report, in the file of the time `ts`: a first row, or the sums
-- of the bytes, as i64s, with the later of the times.
abbrev pub added : ℕ → IngestReport → Option DataTransferSession → DataTransferSession
added ts r none = record {
  pub_key = r.report.data_transfer_usage.pub_key;
  payer = r.report.data_transfer_usage.payer;
  uploaded_bytes = as_i64 r.report.data_transfer_usage.upload_bytes;
  downloaded_bytes = as_i64 r.report.data_transfer_usage.download_bytes;
  rewardable_bytes = as_i64 r.report.rewardable_bytes;
  first_timestamp = ts;
  last_timestamp = ts;
}
added ts r (some s) = record {
  pub_key = s.pub_key;
  payer = s.payer;
  uploaded_bytes = s.uploaded_bytes +ℤ as_i64 r.report.data_transfer_usage.upload_bytes;
  downloaded_bytes = s.downloaded_bytes +ℤ as_i64 r.report.data_transfer_usage.download_bytes;
  rewardable_bytes = s.rewardable_bytes +ℤ as_i64 r.report.rewardable_bytes;
  first_timestamp = s.first_timestamp;
  last_timestamp = max s.last_timestamp ts;
}

-- What a report with this status adds to the row of a key, and what is written of it.
abbrev pub entered :
    ℕ
    → ℕ
    → ℕ
    → ReportStatus
    → IngestReport
    → Option DataTransferSession
    → Option DataTransferSession
entered ts k p valid r o =
    if (r.report.data_transfer_usage.pub_key == k) && (r.report.data_transfer_usage.payer == p)
    then some (added ts r o)
    else o
entered ts k p cancelled r o = o
entered ts k p duplicate r o = o
entered ts k p invalid_gateway_key r o = o
entered ts k p invalid_routing_key r o = o

abbrev pub invalid_of : ReportStatus → IngestReport → ℕ → List InvalidReport
invalid_of valid r now = []
invalid_of cancelled r now = record { report = r; reason = cancelled; timestamp = now } ∷ []
invalid_of duplicate r now = record { report = r; reason = duplicate; timestamp = now } ∷ []
invalid_of invalid_gateway_key r now =
    record { report = r; reason = invalid_gateway_key; timestamp = now } ∷ []
invalid_of invalid_routing_key r now =
    record { report = r; reason = invalid_routing_key; timestamp = now } ∷ []

-- What the end of a report's round does, for its status.
abbrev pub IsRecorded : ℕ → ReportStatus → IngestReport → ℕ → Work → Work → Type 0
IsRecorded ts status r now v w =
    ((k p : ℕ)
      → find_session k p w.conn.tables.sessions
        ≡ entered ts k p status r (find_session k p v.conn.tables.sessions))
    × (w.conn.tables.event_ids ≡ v.conn.tables.event_ids)
    × (w.invalid_sessions.written ≡ v.invalid_sessions.written ++ invalid_of status r now)

write_invalid-IsRecorded :
    (status : ReportStatus) (r : IngestReport) (now : ℕ) (v : Work)
    → Ends
        (λ _ w.
          (w.conn ≡ v.conn)
          × (w.invalid_sessions.written
              ≡ v.invalid_sessions.written
                ++ (record { report = r; reason = status; timestamp = now } ∷ [])))
        (write_invalid_report status r now v)
unfolding write_invalid_report write
write_invalid-IsRecorded status r now v = elim (List-cases v.invalid_sessions.faults) [
  | inl e ↦ rw e (refl, refl)
  | inr (true, r', e) ↦ rw e tt
  | inr (false, r', e) ↦ rw e (refl, refl)
]

put_sessions-Rows :
    (ts : ℕ) (r : IngestReport) (t : Tables) (o : Option (List DataTransferSession))
    → upsert (session_of ts r) t.sessions ≡ o
    → Ends
        (λ _ t'.
          ((k p : ℕ)
            → find_session k p t'.sessions ≡ entered ts k p valid r (find_session k p t.sessions))
          × (t'.event_ids ≡ t.event_ids))
        (put_sessions t o)
unfolding session_of merge
put_sessions-Rows ts r t none e = tt
put_sessions-Rows ts r t (some ss) e = (
  λ k p.
      find-upsert k p (session_of ts r) t.sessions ss e ∙ keyed k p (find_session k p t.sessions),
  refl,
)
  where
    keyed :
        (k p : ℕ) (o : Option DataTransferSession)
        → (if has_key k p (session_of ts r) then some (merged o (session_of ts r)) else o)
          ≡ entered ts k p valid r o
    keyed k p none = refl
    keyed k p (some s) = refl

pub invalid-IsRecorded :
    (ts : ℕ) (status : ReportStatus) (r : IngestReport) (now : ℕ) (v : Work)
    → ((k p : ℕ) (o : Option DataTransferSession) → entered ts k p status r o ≡ o)
    → invalid_of status r now ≡ record { report = r; reason = status; timestamp = now } ∷ []
    → Ends (λ _ w. IsRecorded ts status r now v w) (write_invalid_report status r now v)
invalid-IsRecorded ts status r now v same e =
    Ends-mono _ _ (write_invalid_report status r now v)
      (λ _ w h. (
        λ k p. ap (λ (d : Db). find_session k p d.tables.sessions) h.0 ∙ sym (same k p _),
        ap (λ (d : Db). d.tables.event_ids) h.0,
        h.1 ∙ ap (λ l. v.invalid_sessions.written ++ l) (sym e),
      ))
      (write_invalid-IsRecorded status r now v)

module _ {E Info : Type 0} (services : Services E Info) where
  pub record_status-IsRecorded :
      (ts : ℕ) (status : ReportStatus) (r : IngestReport) (now : ℕ) (v : Work)
      → Ends (λ _ w. IsRecorded ts status r now v w) (record_status services ts status r now v)
  unfolding record_status insert_session
  record_status-IsRecorded ts valid r now v =
      Ends-mono _ _ (on_conn (insert_session (session_of ts r)) v)
        (λ _ w h.
          (h.0.0, h.0.1, ap (λ (s : Sink InvalidReport). s.written) h.1 ∙ sym (append-nil _)))
        (on_conn-Ends
          (λ _ t'.
            ((k p : ℕ)
              → find_session k p t'.sessions
                ≡ entered ts k p valid r (find_session k p v.conn.tables.sessions))
            × (t'.event_ids ≡ v.conn.tables.event_ids))
          (insert_session (session_of ts r)) v
          (execute-Ends _ (λ t. put_sessions t (upsert (session_of ts r) t.sessions)) v.conn.tables
            v.conn.faults (put_sessions-Rows ts r v.conn.tables _ refl)))
  record_status-IsRecorded ts cancelled r now v =
      invalid-IsRecorded ts cancelled r now v (λ k p o. refl) refl
  record_status-IsRecorded ts duplicate r now v =
      invalid-IsRecorded ts duplicate r now v (λ k p o. refl) refl
  record_status-IsRecorded ts invalid_gateway_key r now v =
      invalid-IsRecorded ts invalid_gateway_key r now v (λ k p o. refl) refl
  record_status-IsRecorded ts invalid_routing_key r now v =
      invalid-IsRecorded ts invalid_routing_key r now v (λ k p o. refl) refl

  -- The status by whether the event is a duplicate, and by the answers of the two services: the gateway
  -- has to be known, and the routing key authorised.
  abbrev pub by_answers : Reply E (Option Info) → Reply E Bool → ReportStatus
  by_answers (done (some info)) (done true) = valid
  by_answers (done (some info)) (done false) = invalid_routing_key
  by_answers (done (some info)) (failed e) = invalid_routing_key
  by_answers (done none) routing = invalid_gateway_key
  by_answers (failed e) routing = invalid_gateway_key

  abbrev pub judged : Bool → IngestReport → ReportStatus
  judged true r = duplicate
  judged false r =
      by_answers (services.resolve_gateway_info r.report.data_transfer_usage.pub_key)
        (services.verify_authorized_key r.report.pub_key)

  validity-judged : (b : Bool) (r : IngestReport) → validity services b r ≡ judged b r
  unfolding validity verify_gateway verify_known_routing_key
  validity-judged true r = refl
  validity-judged false r =
      answers (services.resolve_gateway_info r.report.data_transfer_usage.pub_key)
        (services.verify_authorized_key r.report.pub_key)
    where
      answers :
          (g : Reply E (Option Info)) (k : Reply E Bool)
          → (if not (elim g [ done (some info) ↦ true | done none ↦ false | failed e ↦ false ])
              then invalid_gateway_key
              else if not (elim k [ done res ↦ res | failed e ↦ false ])
              then invalid_routing_key
              else valid)
            ≡ by_answers g k
      answers (done (some info)) (done true) = refl
      answers (done (some info)) (done false) = refl
      answers (done (some info)) (failed e) = refl
      answers (done none) k = refl
      answers (failed e) k = refl

  abbrev pub IsJudged : IngestReport → Tables → ReportStatus → Tables → Type 0
  IsJudged r t status t' =
      (status ≡ judged (is_some (lookup (event_id_of r) t.event_ids)) r)
      × HasEvents t (event_id_of r) t'

  pub verify_report-IsJudged :
      (r : IngestReport) (v : Work)
      → Ends
          (λ status w.
            ((status ≡ judged (is_some (lookup (event_id_of r) v.conn.tables.event_ids)) r)
              × HasEvents v.conn.tables (event_id_of r) w.conn.tables)
            × (w.invalid_sessions ≡ v.invalid_sessions))
          (on_conn (verify_report services r) v)
  unfolding verify_report is_duplicate insert_event_id
  verify_report-IsJudged r v =
      on_conn-Ends (IsJudged r v.conn.tables) (verify_report services r) v (
        Ends-bind _ _ (is_duplicate r) (λ dup. pure (validity services dup r)) v.conn
          (Ends-bind
            (λ rows d.
              ((rows == 0) ≡ is_some (lookup (event_id_of r) v.conn.tables.event_ids))
              × HasEvents v.conn.tables (event_id_of r) d.tables)
            (λ dup d.
              (dup ≡ is_some (lookup (event_id_of r) v.conn.tables.event_ids))
              × HasEvents v.conn.tables (event_id_of r) d.tables)
            (insert_event_id (event_id_of r) r.received_timestamp) (λ rows. pure (rows == 0)) v.conn
            (execute-Ends _
              (λ t.
                put_event_id (event_id_of r) r.received_timestamp t
                  (lookup (event_id_of r) t.event_ids))
              v.conn.tables v.conn.faults
              (put_event_id-HasEvents (event_id_of r) r.received_timestamp v.conn.tables _ refl))
            (λ rows d h. h))
          (λ dup d h. (validity-judged dup r ∙ ap (λ b. judged b r) h.0, h.1)))
