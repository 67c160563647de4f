-- ===== src/PocPurger/Steps.antt =====
-- iot_verifier/src/purger.rs: the steps of a tick, each of which writes a report out before it deletes it.
use oracles.Prelude.{
  ℕ, ◌≡◌, refl, ap, ◌⊎◌, inl, inr, Bool, true, false, List, [], ◌∷◌, ◌++◌, Option, if◌then◌else◌,
  none, some, Outcome, ok, err, panic, ◌>>=◌, map_err,
}
use oracles.PacketVerifier.Verifier.{Sink, SinkError, write_failed, write, commit_sink}
use oracles.Poc.Types.{BeaconIngestReport, WitnessIngestReport}
use oracles.PocRunner.Reports.{Report}
use oracles.PocRunner.State.{Reading}
use oracles.PocRunner.Conclude.{ingest_id, witness_id}
use oracles.PocRunner.Steady.{Post, Post-bind}
use oracles.PocPurger.{
  Purger, PurgeError, Purge, with_faults, on_fault, execute, without_id, delete_report,
  write_beacon, write_witness, stale_beacon, stale_witness, decoded, logged, for_each,
  handle_purged_beacon, handle_purged_witness, sink_error,
}
use oracles.PocPurger.Written.{
  HasId-last, beacon_id, invalid_witness_id, IsWritten, AllWritten-mono, more_beacons,
  more_witnesses, Both,
}

pub execute-Post :
    {A : Type 0} (R : A → Purger → Type 0) (Q : Purger → Type 0) (run : Purger → A × Purger)
    (s : Purger)
    → ((rest : List Bool) → Q (with_faults rest s))
    → ((rest : List Bool) → R (run (with_faults rest s)).0 (run (with_faults rest s)).1)
    → Post R Q (execute run s)
unfolding execute
execute-Post R Q run s q r = on s.faults
  where
    on : (fs : List Bool) → Post R Q (on_fault fs run s)
    on [] = r s.faults
    on (true ∷ rest) = q rest
    on (false ∷ rest) = r rest

write-cases :
    {T : Type 0} (x : T) (k : Sink T) (P : Outcome SinkError (Unit {0}) × Sink T → Type 0)
    → ((rest : List Bool) → P (ok tt, record { written = k.written ++ x ∷ []; faults = rest }))
    → ((rest : List Bool) → P (err write_failed, record { written = k.written; faults = rest }))
    → P (write x k)
unfolding write
write-cases {T} x k P a b = on k.faults
  where
    on :
        (fs : List Bool)
        → P (elim fs [
          | [] ↦ (ok tt, record k { written = k.written ++ x ∷ [] })
          | fault ∷ rest ↦
              if fault
              then (err write_failed, record k { faults = rest })
              else (ok tt, record { written = k.written ++ x ∷ []; faults = rest })
        ])
    on [] = a k.faults
    on (true ∷ rest) = b rest
    on (false ∷ rest) = a rest

pub commit_sink-cases :
    {T : Type 0} (k : Sink T) (P : Outcome SinkError (Unit {0}) × Sink T → Type 0)
    → ((r : Outcome SinkError (Unit {0})) (rest : List Bool)
        → (r ≡ ok tt) ⊎ (r ≡ err write_failed)
        → P (r, record { written = k.written; faults = rest }))
    → P (commit_sink k)
unfolding commit_sink
commit_sink-cases {T} k P a = on k.faults
  where
    on :
        (fs : List Bool)
        → P (elim fs [
          | [] ↦ (ok tt, k)
          | fault ∷ rest ↦
              (elim fault [ true ↦ err write_failed | false ↦ ok tt ], record k { faults = rest })
        ])
    on [] = a (ok tt) k.faults (inl refl)
    on (true ∷ rest) = a (err write_failed) rest (inr refl)
    on (false ∷ rest) = a (ok tt) rest (inl refl)

module _ (reading : Reading) (first : List Report) where
  abbrev pub Kept : Purger → Type 0
  Kept = Both reading first

  delete_report-Kept :
      (id : ℕ) (s : Purger)
      → Kept s
      → IsWritten reading s.invalid_beacons.written s.invalid_witnesses.written id
      → Post (λ _ u. Kept u) Kept (delete_report id s)
  unfolding delete_report
  delete_report-Kept id s h w =
      let (gone, e, k) = h.1 in
      execute-Post (λ _ u. Kept u) Kept
        (λ u. (tt, record u { open_report = without_id id u.open_report })) s (λ _. h)
        (λ _. (h.0, (id ∷ gone, ap (without_id id) e, (w, k))))

  write_beacon-Kept :
      (b : BeaconIngestReport) (s : Purger)
      → Kept s
      → Post
          (λ _ u.
            Kept u
            × IsWritten reading u.invalid_beacons.written u.invalid_witnesses.written
                (ingest_id reading b))
          Kept
          (write_beacon (stale_beacon b) s)
  unfolding write_beacon
  write_beacon-Kept b s h =
      let bs = s.invalid_beacons.written in
      let ws = s.invalid_witnesses.written in
      let x = stale_beacon b in
      let more = more_beacons reading bs ws x in
      let ((g, e, k), (g', e', k')) = h in
      write-cases x s.invalid_beacons
        (λ p.
          Post
            (λ _ u.
              Kept u
              × IsWritten reading u.invalid_beacons.written u.invalid_witnesses.written
                  (ingest_id reading b))
            Kept (map_err sink_error p.0, record s { invalid_beacons = p.1 }))
        (λ _. (
          (
            (g, e, AllWritten-mono reading bs (bs ++ x ∷ []) ws ws g more k),
            (g', e', AllWritten-mono reading bs (bs ++ x ∷ []) ws ws g' more k'),
          ),
          inl (HasId-last (beacon_id reading) bs x),
        ))
        (λ _. h)

  write_witness-Kept :
      (w : WitnessIngestReport) (s : Purger)
      → Kept s
      → Post
          (λ _ u.
            Kept u
            × IsWritten reading u.invalid_beacons.written u.invalid_witnesses.written
                (witness_id reading w))
          Kept
          (write_witness (stale_witness w) s)
  unfolding write_witness
  write_witness-Kept w s h =
      let bs = s.invalid_beacons.written in
      let ws = s.invalid_witnesses.written in
      let x = stale_witness w in
      let more = more_witnesses reading bs ws x in
      let ((g, e, k), (g', e', k')) = h in
      write-cases x s.invalid_witnesses
        (λ p.
          Post
            (λ _ u.
              Kept u
              × IsWritten reading u.invalid_beacons.written u.invalid_witnesses.written
                  (witness_id reading w))
            Kept (map_err sink_error p.0, record s { invalid_witnesses = p.1 }))
        (λ _. (
          (
            (g, e, AllWritten-mono reading bs bs ws (ws ++ x ∷ []) g more k),
            (g', e', AllWritten-mono reading bs bs ws (ws ++ x ∷ []) g' more k'),
          ),
          inr (HasId-last (invalid_witness_id reading) ws x),
        ))
        (λ _. h)

  decoded-Kept :
      {A : Type 0} (o : Option A) (s : Purger) → Kept s → Post (λ _ u. Kept u) Kept (decoded o s)
  decoded-Kept none s h = h
  decoded-Kept (some a) s h = h

  pub handle_purged_beacon-Kept :
      (r : Report) (s : Purger)
      → Kept s
      → Post (λ _ u. Kept u) Kept (handle_purged_beacon reading r s)
  unfolding handle_purged_beacon
  handle_purged_beacon-Kept r s h =
      Post-bind (λ _ u. Kept u) (λ _ u. Kept u) Kept (decoded (reading.decode_beacon r.report_data))
        (λ b. write_beacon (stale_beacon b) >>= λ _. delete_report (ingest_id reading b)) s
        (decoded-Kept (reading.decode_beacon r.report_data) s h)
        (λ b t k.
          Post-bind
            (λ _ u.
              Kept u
              × IsWritten reading u.invalid_beacons.written u.invalid_witnesses.written
                  (ingest_id reading b))
            (λ _ u. Kept u) Kept (write_beacon (stale_beacon b))
            (λ _. delete_report (ingest_id reading b)) t (write_beacon-Kept b t k)
            (λ _ u q. delete_report-Kept (ingest_id reading b) u q.0 q.1))

  pub handle_purged_witness-Kept :
      (r : Report) (s : Purger)
      → Kept s
      → Post (λ _ u. Kept u) Kept (handle_purged_witness reading r s)
  unfolding handle_purged_witness
  handle_purged_witness-Kept r s h =
      Post-bind (λ _ u. Kept u) (λ _ u. Kept u) Kept
        (decoded (reading.decode_witness r.report_data))
        (λ w. write_witness (stale_witness w) >>= λ _. delete_report (witness_id reading w)) s
        (decoded-Kept (reading.decode_witness r.report_data) s h)
        (λ w t k.
          Post-bind
            (λ _ u.
              Kept u
              × IsWritten reading u.invalid_beacons.written u.invalid_witnesses.written
                  (witness_id reading w))
            (λ _ u. Kept u) Kept (write_witness (stale_witness w))
            (λ _. delete_report (witness_id reading w)) t (write_witness-Kept w t k)
            (λ _ u q. delete_report-Kept (witness_id reading w) u q.0 q.1))

  pub logged-Kept :
      (Q : Purger → Type 0) (r : Outcome PurgeError (Unit {0}) × Purger)
      → Post (λ _ u. Q u) Q r
      → Post (λ _ u. Q u) Q (logged r)
  logged-Kept Q (ok a, s) h = h
  logged-Kept Q (err e, s) h = h
  logged-Kept Q (panic, s) h = h

  pub for_each-Kept :
      (f : Report → Purge (Unit {0})) (rs : List Report) (s : Purger)
      → ((r : Report) (u : Purger) → Kept u → Post (λ _ v. Kept v) Kept (f r u))
      → Kept s
      → Post (λ _ u. Kept u) Kept (for_each f rs s)
  for_each-Kept f [] s g h = h
  for_each-Kept f (r ∷ rs) s g h =
      Post-bind (λ _ u. Kept u) (λ _ u. Kept u) Kept (λ u. logged (f r u)) (λ _. for_each f rs) s
        (logged-Kept Kept (f r s) (g r s h)) (λ _ u k. for_each-Kept f rs u g k)
