-- ===== src/MobilePacketVerifier/Accumulate/Replayed.antt =====
-- mobile_packet_verifier: a file whose reports were accumulated before.
use oracles.Prelude.{
  ℕ, ◌≡◌, refl, sym, ap, ◌∙◌, arith, Bool, true, ◌||◌, List, [], ◌∷◌, Option, Outcome, ok, err,
  panic, Ends, Ends-bind, Ends-mono, Dict, lookup, ◌==◌, Bool-cases, inl, inr, ◌⊎◌, subst,
}
use oracles.PacketVerifier.Verifier.{Sink}
use oracles.MobilePacketVerifier.Accumulate.{
  IngestReport, InvalidReport, DataTransferSession, Tables, Services, Work, Failure, on_conn,
  validity, accumulate_sessions,
}
use oracles.MobilePacketVerifier.Accumulate.Table.{find_session}
use oracles.MobilePacketVerifier.Accumulate.Events.{
  is_some, event_id_of, execute-Ends, on_conn-Ends,
}
use oracles.MobilePacketVerifier.Accumulate.Accepted.{entered}
use oracles.MobilePacketVerifier.Accumulate.{
  begin, commit, in_transaction, or_rollback, handle_file, accumulate_commit,
}
use oracles.MobilePacketVerifier.Accumulate.Sessions.{
  seen, verdict, session_after, after, IsAccumulated, accumulate_sessions-from,
}

-- Every report that has rewardable bytes has an event of which `f` knows.
abbrev AllKnown : (ℕ → Bool) → List (IngestReport × ℕ) → Type 0
AllKnown f [] = Unit {0}
AllKnown f ((r, now) ∷ rs) =
    (((r.report.rewardable_bytes == 0) ≡ true) ⊎ (f (event_id_of r) ≡ true)) × AllKnown f rs

AllKnown-mono :
    (f g : ℕ → Bool) (reports : List (IngestReport × ℕ))
    → ((i : ℕ) → f i ≡ true → g i ≡ true)
    → AllKnown f reports
    → AllKnown g reports
AllKnown-mono f g [] h a = tt
AllKnown-mono f g ((r, now) ∷ rs) h a =
    (elim a.0 [ inl e ↦ inl e | inr e ↦ inr (h (event_id_of r) e) ], AllKnown-mono f g rs h a.1)

seen-after :
    (i : ℕ) (earlier : List IngestReport) (reports : List (IngestReport × ℕ))
    → seen earlier i ≡ true
    → seen (after earlier reports) i ≡ true
seen-after i earlier [] h = h
seen-after i earlier ((r, now) ∷ rs) h = seen-after i (r ∷ earlier) rs (ground arith)

after-AllKnown :
    (earlier : List IngestReport) (reports : List (IngestReport × ℕ))
    → AllKnown (seen (after earlier reports)) reports
after-AllKnown earlier [] = tt
after-AllKnown earlier ((r, now) ∷ rs) = (
  elim (Bool-cases (r.report.rewardable_bytes == 0)) [
    | inl e ↦ inl e
    | inr e ↦ inr (seen-after (event_id_of r) (r ∷ earlier) rs (ground arith))
  ],
  after-AllKnown (r ∷ earlier) rs,
)

or_true : (b : Bool) → (b || true) ≡ true
or_true b = ground arith

module _ {E Info : Type 0} (services : Services E Info) (before : Dict ℕ) where
  -- A report of a known event adds nothing.
  known-entered :
      (ts k p : ℕ) (earlier : List IngestReport) (r : IngestReport) (o : Option DataTransferSession)
      → ((r.report.rewardable_bytes == 0) ≡ true) ⊎ (is_some (lookup (event_id_of r) before) ≡ true)
      → entered ts k p (verdict services before earlier r) r o ≡ o
  unfolding validity
  known-entered ts k p earlier r o (inl e) = rw e refl
  known-entered ts k p earlier r o (inr e) = elim (Bool-cases (r.report.rewardable_bytes == 0)) [
    | inl z ↦ rw z refl
    | inr z ↦ rw (z, e) refl
  ]

  known-session_after :
      (ts k p : ℕ) (earlier : List IngestReport) (reports : List (IngestReport × ℕ))
      (o : Option DataTransferSession)
      → AllKnown (λ i. is_some (lookup i before)) reports
      → session_after services before ts k p earlier reports o ≡ o
  known-session_after ts k p earlier [] o a = refl
  known-session_after ts k p earlier ((r, now) ∷ rs) o a =
      known-session_after ts k p (r ∷ earlier) rs
        (entered ts k p (verdict services before earlier r) r o) a.1
      ∙ known-entered ts k p earlier r o a.0

or_rollback-Ends :
    (P : Unit {0} → Work → Type 0) (t : Tables) (r : Outcome Failure (Unit {0}) × Work)
    → Ends P r
    → Ends P (or_rollback t r)
or_rollback-Ends P t (ok a, w) h = h
or_rollback-Ends P t (err e, w) h = tt
or_rollback-Ends P t (panic, w) h = h

module _ {E Info : Type 0} (services : Services E Info) where
  abbrev HasAccumulated : ℕ → List (IngestReport × ℕ) → Work → Work → Type 0
  HasAccumulated ts reports v w = IsAccumulated services v.conn.tables.event_ids ts [] reports v w

  unchanged :
      (ts : ℕ) (reports : List (IngestReport × ℕ)) (u v w : Work)
      → v.conn.tables ≡ u.conn.tables
      → v.invalid_sessions ≡ u.invalid_sessions
      → HasAccumulated ts reports v w
      → HasAccumulated ts reports u w
  unchanged ts reports u v w e f h =
      subst
        (λ (x : Tables × Sink InvalidReport).
          IsAccumulated services x.0.event_ids ts [] reports
            (record { conn = record { tables = x.0; faults = [] }; invalid_sessions = x.1 }) w)
        (ap (λ (x : Tables). (x, v.invalid_sessions)) e ∙ ap (λ s. (u.conn.tables, s)) f) h

  handle_file-HasAccumulated :
      (ts : ℕ) (reports : List (IngestReport × ℕ)) (u : Work)
      → Ends (λ _ w. HasAccumulated ts reports u w) (handle_file services ts reports u)
  unfolding handle_file in_transaction accumulate_commit begin commit
  handle_file-HasAccumulated ts reports u =
      or_rollback-Ends _ u.conn.tables (in_transaction services ts reports u) (
        Ends-bind
          (λ _ v. (v.conn.tables ≡ u.conn.tables) × (v.invalid_sessions ≡ u.invalid_sessions))
          (λ _ w. HasAccumulated ts reports u w) (on_conn begin)
          (λ _. accumulate_commit services ts reports) u
          (on_conn-Ends (λ _ t. t ≡ u.conn.tables) begin u
            (execute-Ends (λ _ t. t ≡ u.conn.tables) (λ t. (ok tt, t)) u.conn.tables u.conn.faults
              refl))
          (λ _ v e.
            Ends-bind (λ _ w. HasAccumulated ts reports v w) (λ _ w. HasAccumulated ts reports u w)
              (accumulate_sessions services ts reports) (λ _. on_conn commit) v
              (accumulate_sessions-from services v.conn.tables.event_ids ts [] reports v
                (λ i. ground arith))
              (λ _ w h.
                Ends-mono
                  (λ _ x.
                    (x.conn.tables ≡ w.conn.tables) × (x.invalid_sessions ≡ w.invalid_sessions))
                  (λ _ x. HasAccumulated ts reports u x) (on_conn commit w)
                  (λ _ x k.
                    unchanged ts reports u v x e.0 e.1 (committed ts reports v w x k.0 k.1 h))
                  (on_conn-Ends (λ _ t. t ≡ w.conn.tables) commit w
                    (execute-Ends (λ _ t. t ≡ w.conn.tables) (λ t. (ok tt, t)) w.conn.tables
                      w.conn.faults refl)))))
    where
      committed :
          (ts : ℕ) (reports : List (IngestReport × ℕ)) (v w x : Work)
          → x.conn.tables ≡ w.conn.tables
          → x.invalid_sessions ≡ w.invalid_sessions
          → HasAccumulated ts reports v w
          → HasAccumulated ts reports v x
      committed ts reports v w x e f h =
          subst
            (λ (y : Tables × Sink InvalidReport).
              HasAccumulated ts reports v
                (record { conn = record { tables = y.0; faults = [] }; invalid_sessions = y.1 }))
            (ap (λ (y : Tables). (y, w.invalid_sessions)) (sym e)
              ∙ ap (λ s. (x.conn.tables, s)) (sym f))
            h

  -- Where a file was handled and this returned, handling the same reports again, in a file of any time,
  -- does not panic and, when it returns, leaves the row of every gateway and payer as it was: no bytes are
  -- counted twice.
  pub handle_file-replayed :
      (ts ts' : ℕ) (reports : List (IngestReport × ℕ)) (u v : Work)
      → handle_file services ts reports u ≡ (ok tt, v)
      → Ends
          (λ _ w.
            (k p : ℕ)
            → find_session k p w.conn.tables.sessions ≡ find_session k p v.conn.tables.sessions)
          (handle_file services ts' reports v)
  handle_file-replayed ts ts' reports u v e =
      let first =
        subst (Ends (λ _ w. HasAccumulated ts reports u w)) e
          (handle_file-HasAccumulated ts reports u) in
      Ends-mono _ _ (handle_file services ts' reports v)
        (λ _ w h k p.
          h.0 k p
          ∙ known-session_after services v.conn.tables.event_ids ts' k p [] reports _ (
              AllKnown-mono (seen (after [] reports))
                (λ i. is_some (lookup i v.conn.tables.event_ids)) reports
                (λ i s. first.2 i ∙ rw s (or_true _)) (after-AllKnown [] reports)))
        (handle_file-HasAccumulated ts' reports v)
