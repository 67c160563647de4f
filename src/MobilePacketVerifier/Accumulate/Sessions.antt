-- ===== src/MobilePacketVerifier/Accumulate/Sessions.antt =====
-- mobile_packet_verifier/src/accumulate.rs: which reports count, and what they add to the sessions.
use mathlib.Core.List.{append-nil, append_assoc}
use oracles.Prelude.{
  ℕ, ◌≡◌, refl, sym, ap, ◌∙◌, arith, Bool, true, false, not, ◌&&◌, ◌||◌, List, [], ◌∷◌, ◌++◌,
  Option, Action, Ends, Ends-bind, Ends-mono, Dict, lookup, ◌==◌, if◌then◌else◌, if-split,
}
use oracles.PacketVerifier.Verifier.{Sink}
use oracles.MobilePacketVerifier.Accumulate.{
  IngestReport, ReportStatus, cancelled, InvalidReport, DataTransferSession, Services, Work,
  Failure, on_conn, write_invalid_report, verify_report, record_status, accumulate_report,
  accumulate_sessions,
}
use oracles.MobilePacketVerifier.Accumulate.Table.{find_session}
use oracles.MobilePacketVerifier.Accumulate.Events.{is_some, event_id_of}
use oracles.MobilePacketVerifier.Accumulate.Accepted.{
  entered, judged, invalid_of, IsRecorded, IsJudged, invalid-IsRecorded, verify_report-IsJudged,
  record_status-IsRecorded,
}

-- The event of the id is that of an earlier report that is not cancelled.
abbrev pub seen : List IngestReport → ℕ → Bool
seen [] id = false
seen (e ∷ es) id = (not (e.report.rewardable_bytes == 0) && (event_id_of e == id)) || seen es id

-- The reports so far, after these ones.
abbrev pub after : List IngestReport → List (IngestReport × ℕ) → List IngestReport
after earlier [] = earlier
after earlier ((r, now) ∷ rs) = after (r ∷ earlier) rs

module _ {E Info : Type 0} (services : Services E Info) (before : Dict ℕ) where
  -- What is to be said of a report, after the earlier ones of the stream.
  abbrev pub verdict : List IngestReport → IngestReport → ReportStatus
  verdict earlier r =
      if r.report.rewardable_bytes == 0
      then cancelled
      else judged services (is_some (lookup (event_id_of r) before) || seen earlier (event_id_of r))
          r

  -- What all valid reports add to the row of a key, each of them once.
  abbrev pub session_after :
      ℕ
      → ℕ
      → ℕ
      → List IngestReport
      → List (IngestReport × ℕ)
      → Option DataTransferSession
      → Option DataTransferSession
  session_after ts k p earlier [] o = o
  session_after ts k p earlier ((r, now) ∷ rs) o =
      session_after ts k p (r ∷ earlier) rs (entered ts k p (verdict earlier r) r o)

  abbrev pub all_invalid : List IngestReport → List (IngestReport × ℕ) → List InvalidReport
  all_invalid earlier [] = []
  all_invalid earlier ((r, now) ∷ rs) =
      invalid_of (verdict earlier r) r now ++ all_invalid (r ∷ earlier) rs

  -- The table has the events of before and of the reports so far.
  abbrev pub HasSeen : List IngestReport → Work → Type 0
  HasSeen earlier w =
      (i : ℕ)
      → is_some (lookup i w.conn.tables.event_ids) ≡ (is_some (lookup i before) || seen earlier i)

  abbrev IsStep : ℕ → List IngestReport → IngestReport → ℕ → Work → Work → Type 0
  IsStep ts earlier r now v w =
      ((k p : ℕ)
        → find_session k p w.conn.tables.sessions
          ≡ entered ts k p (verdict earlier r) r (find_session k p v.conn.tables.sessions))
      × (w.invalid_sessions.written
          ≡ v.invalid_sessions.written ++ invalid_of (verdict earlier r) r now)
      × HasSeen (r ∷ earlier) w

  cancelled-IsStep :
      (ts : ℕ) (earlier : List IngestReport) (r : IngestReport) (now : ℕ) (v w : Work)
      → (r.report.rewardable_bytes == 0) ≡ true
      → HasSeen earlier v
      → IsRecorded ts cancelled r now v w
      → IsStep ts earlier r now v w
  cancelled-IsStep ts earlier r now v w e h d =
      rw e (d.0, d.2, λ i. ap (λ (x : Dict ℕ). is_some (lookup i x)) d.1 ∙ h i)

  judged-IsStep :
      (ts : ℕ) (earlier : List IngestReport) (r : IngestReport) (now : ℕ) (status : ReportStatus)
      (v u w : Work)
      → (r.report.rewardable_bytes == 0) ≡ false
      → HasSeen earlier v
      → IsJudged services r v.conn.tables status u.conn.tables
      → u.invalid_sessions ≡ v.invalid_sessions
      → IsRecorded ts status r now u w
      → IsStep ts earlier r now v w
  judged-IsStep ts earlier r now status v u w e h j s d = rw e (
    λ k p.
        d.0 k p
        ∙ ap (λ x. entered ts k p x r (find_session k p u.conn.tables.sessions)) same
        ∙ ap (λ x. entered ts k p (verdict') r (find_session k p x)) j.1.0,
    d.2
        ∙ ap (λ x. u.invalid_sessions.written ++ invalid_of x r now) same
        ∙ ap (λ (x : Sink InvalidReport). x.written ++ invalid_of verdict' r now) s,
    λ i.
        ap (λ (x : Dict ℕ). is_some (lookup i x)) d.1
        ∙ j.1.1 i
        ∙ ap (λ b. b || (event_id_of r == i)) (h i)
        ∙ ground arith,
  )
    where
      verdict' : ReportStatus
      verdict' =
          judged services (is_some (lookup (event_id_of r) before) || seen earlier (event_id_of r))
            r

      same : status ≡ verdict'
      same = j.0 ∙ ap (λ b. judged services b r) (h (event_id_of r))

  accumulate_report-IsStep :
      (ts : ℕ) (earlier : List IngestReport) (r : IngestReport) (now : ℕ) (v : Work)
      → HasSeen earlier v
      → Ends (λ _ w. IsStep ts earlier r now v w) (accumulate_report services ts r now v)
  unfolding accumulate_report
  accumulate_report-IsStep ts earlier r now v h =
      if-split
        (λ (m : Action Work Failure (Unit {0})). Ends (λ _ w. IsStep ts earlier r now v w) (m v))
        (r.report.rewardable_bytes == 0)
        (λ e.
          Ends-mono _ _ (write_invalid_report cancelled r now v)
            (λ _ w d. cancelled-IsStep ts earlier r now v w e h d)
            (invalid-IsRecorded ts cancelled r now v (λ k p o. refl) refl))
        (λ e.
          Ends-bind _ _ (on_conn (verify_report services r))
            (λ status. record_status services ts status r now) v
            (verify_report-IsJudged services r v)
            (λ status u j.
              Ends-mono _ _ (record_status services ts status r now u)
                (λ _ w d. judged-IsStep ts earlier r now status v u w e h j.0 j.1 d)
                (record_status-IsRecorded services ts status r now u)))

  abbrev pub IsAccumulated : ℕ → List IngestReport → List (IngestReport × ℕ) → Work → Work → Type 0
  IsAccumulated ts earlier reports v w =
      ((k p : ℕ)
        → find_session k p w.conn.tables.sessions
          ≡ session_after ts k p earlier reports (find_session k p v.conn.tables.sessions))
      × (w.invalid_sessions.written ≡ v.invalid_sessions.written ++ all_invalid earlier reports)
      × HasSeen (after earlier reports) w

  pub accumulate_sessions-from :
      (ts : ℕ) (earlier : List IngestReport) (reports : List (IngestReport × ℕ)) (v : Work)
      → HasSeen earlier v
      → Ends
          (λ _ w. IsAccumulated ts earlier reports v w)
          (accumulate_sessions services ts reports v)
  unfolding accumulate_sessions
  accumulate_sessions-from ts earlier [] v h = (λ k p. refl, sym (append-nil _), h)
  accumulate_sessions-from ts earlier ((r, now) ∷ rs) v h =
      Ends-bind _ _ (accumulate_report services ts r now) (λ _. accumulate_sessions services ts rs)
        v (accumulate_report-IsStep ts earlier r now v h)
        (λ _ u d.
          Ends-mono _ _ (accumulate_sessions services ts rs u)
            (λ _ w a. (
              λ k p. a.0 k p ∙ ap (session_after ts k p (r ∷ earlier) rs) (d.0 k p),
              a.1
                  ∙ ap (λ l. l ++ all_invalid (r ∷ earlier) rs) d.1
                  ∙ append_assoc v.invalid_sessions.written (invalid_of (verdict earlier r) r now)
                      _,
              a.2,
            ))
            (accumulate_sessions-from ts (r ∷ earlier) rs u d.2))

module _ {E Info : Type 0} (services : Services E Info) where
  -- When the accumulation of a file returns, the row of each gateway and payer is what it was with each
  -- valid report of the key added once, in their order, and every other report is written to the sink
  -- of invalid reports, with its reason. A report is valid if it has rewardable bytes, if neither an
  -- event of the table nor an earlier report with rewardable bytes has the id of its event, and if
  -- the gateway is known and the routing key authorised. A valid report is added to the sums of bytes of
  -- its key's row, or is its first row. The accumulation does not panic.
  pub accumulate_sessions-IsAccumulated :
      (ts : ℕ) (reports : List (IngestReport × ℕ)) (v : Work)
      → Ends
          (λ _ w.
            ((k p : ℕ)
              → find_session k p w.conn.tables.sessions
                ≡ session_after services v.conn.tables.event_ids ts k p [] reports
                    (find_session k p v.conn.tables.sessions))
            × (w.invalid_sessions.written
                ≡ v.invalid_sessions.written
                  ++ all_invalid services v.conn.tables.event_ids [] reports))
          (accumulate_sessions services ts reports v)
  accumulate_sessions-IsAccumulated ts reports v =
      Ends-mono _ _ (accumulate_sessions services ts reports v) (λ _ w h. (h.0, h.1))
        (accumulate_sessions-from services v.conn.tables.event_ids ts [] reports v
          (λ i. ground arith))
