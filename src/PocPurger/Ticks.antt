-- ===== src/PocPurger/Ticks.antt =====
-- iot_verifier/src/purger.rs: a tick, however it ends.
use oracles.Prelude.{
  ℕ, ◌-◌, ◌+◌, refl, inl, inr, Bool, true, false, List, [], Outcome, ok, err, panic, ◌>>=◌, map_err,
  filter,
}
use oracles.PocRunner.Reports.{Report}
use oracles.PocRunner.State.{Reading}
use oracles.PocRunner.Steady.{Post, Post-bind}
use oracles.PocPurger.{
  Periods, Purger, PurgeError, Purge, execute, is_stale, get_stale_beacons, get_stale_witnesses,
  begin, commit, purge_entropy, commit_beacons, commit_witnesses, purge_beacons, purge_witnesses,
  logged, for_each, handle_purged_beacon, handle_purged_witness, handle_db_tick, sink_error,
}
use oracles.PocPurger.Written.{IsPurged, Table}
use oracles.PocPurger.Steps.{
  execute-Post, commit_sink-cases, Kept, handle_purged_beacon-Kept, handle_purged_witness-Kept,
  for_each-Kept, logged-Kept,
}

weaken :
    {A : Type 0} (P : A → Purger → Type 0) (Q R : Purger → Type 0)
    (r : Outcome PurgeError A × Purger)
    → ((s : Purger) → Q s → R s)
    → Post P Q r
    → Post P R r
weaken P Q R (ok a, s) k h = h
weaken P Q R (err e, s) k h = k s h
weaken P Q R (panic, s) k h = h

module _ (reading : Reading) (first : List Report) where
  abbrev Tab : Purger → Type 0
  Tab = Table reading first

  abbrev Both : Purger → Type 0
  Both = Kept reading first

  begin-Both : (s : Purger) → Tab s → Post (λ _ u. Both u) Tab (begin s)
  unfolding begin
  begin-Both s h =
      execute-Post (λ _ u. Both u) Tab (λ u. (tt, record u { open_report = u.poc_report })) s
        (λ _. h) (λ _. (h, h))

  commit-Tab : (s : Purger) → Both s → Post (λ _ u. Tab u) Tab (commit s)
  unfolding commit
  commit-Tab s h =
      execute-Post (λ _ u. Tab u) Tab (λ u. (tt, record u { poc_report = u.open_report })) s
        (λ _. h.0) (λ _. h.1)

  commit_beacons-Both : (s : Purger) → Both s → Post (λ _ u. Both u) Tab (commit_beacons s)
  unfolding commit_beacons
  commit_beacons-Both s h =
      commit_sink-cases s.invalid_beacons
        (λ p. Post (λ _ u. Both u) Tab (map_err sink_error p.0, record s { invalid_beacons = p.1 }))
        (λ r rest o. elim o [ inl e ↦ rw e h | inr e ↦ rw e (h.0) ])

  commit_witnesses-Both : (s : Purger) → Both s → Post (λ _ u. Both u) Tab (commit_witnesses s)
  unfolding commit_witnesses
  commit_witnesses-Both s h =
      commit_sink-cases s.invalid_witnesses
        (λ p.
          Post (λ _ u. Both u) Tab (map_err sink_error p.0, record s { invalid_witnesses = p.1 }))
        (λ r rest o. elim o [ inl e ↦ rw e h | inr e ↦ rw e (h.0) ])

  -- A transaction over the reports that a query finds.
  transaction-Tab :
      (f : Report → Purge (Unit {0})) (seal : Purge (Unit {0})) (rs : List Report) (s : Purger)
      → ((r : Report) (u : Purger) → Both u → Post (λ _ v. Both v) Both (f r u))
      → ((u : Purger) → Both u → Post (λ _ v. Both v) Tab (seal u))
      → Tab s
      → Post (λ _ u. Tab u) Tab ((begin >>= λ _. for_each f rs >>= λ _. seal >>= λ _. commit) s)
  transaction-Tab f seal rs s g k h =
      Post-bind (λ _ u. Both u) (λ _ u. Tab u) Tab begin
        (λ _. for_each f rs >>= λ _. seal >>= λ _. commit) s (begin-Both s h)
        (λ _ t b.
          Post-bind (λ _ u. Both u) (λ _ u. Tab u) Tab (for_each f rs) (λ _. seal >>= λ _. commit) t
            (weaken (λ _ u. Both u) Both Tab (for_each f rs t) (λ _ q. q.0)
              (for_each-Kept reading first f rs t g b))
            (λ _ u c.
              Post-bind (λ _ v. Both v) (λ _ v. Tab v) Tab seal (λ _. commit) u (k u c)
                (λ _ v d. commit-Tab v d)))

  get-Tab :
      (p : Report → Bool) (s : Purger)
      → Tab s
      → Post (λ _ u. Tab u) Tab (execute (λ u. (filter p u.poc_report, u)) s)
  get-Tab p s h =
      execute-Post (λ _ u. Tab u) Tab (λ u. (filter p u.poc_report, u)) s (λ _. h) (λ _. h)

  purge_beacons-Tab :
      (p : Periods) (now : ℕ) (s : Purger)
      → Tab s
      → Post (λ _ u. Tab u) Tab (purge_beacons reading p now s)
  unfolding purge_beacons get_stale_beacons
  purge_beacons-Tab p now s h =
      Post-bind (λ _ u. Tab u) (λ _ u. Tab u) Tab
        (get_stale_beacons (p.base_stale_period + p.beacon_stale_period) now)
        (λ rs. begin >>= λ _.
          for_each (handle_purged_beacon reading) rs >>= λ _. commit_beacons >>= λ _. commit)
        s (get-Tab (is_stale true (now - (p.base_stale_period + p.beacon_stale_period))) s h)
        (λ rs t k.
          transaction-Tab (handle_purged_beacon reading) commit_beacons rs t
            (handle_purged_beacon-Kept reading first) commit_beacons-Both k)

  purge_witnesses-Tab :
      (p : Periods) (now : ℕ) (s : Purger)
      → Tab s
      → Post (λ _ u. Tab u) Tab (purge_witnesses reading p now s)
  unfolding purge_witnesses get_stale_witnesses
  purge_witnesses-Tab p now s h =
      Post-bind (λ _ u. Tab u) (λ _ u. Tab u) Tab
        (get_stale_witnesses (p.base_stale_period + p.witness_stale_period) now)
        (λ rs. begin >>= λ _.
          for_each (handle_purged_witness reading) rs >>= λ _. commit_witnesses >>= λ _. commit)
        s (get-Tab (is_stale false (now - (p.base_stale_period + p.witness_stale_period))) s h)
        (λ rs t k.
          transaction-Tab (handle_purged_witness reading) commit_witnesses rs t
            (handle_purged_witness-Kept reading first) commit_witnesses-Both k)

  purge_entropy-Tab :
      (period now : ℕ) (s : Purger) → Tab s → Post (λ _ u. Tab u) Tab (purge_entropy period now s)
  unfolding purge_entropy
  purge_entropy-Tab period now s h = execute-Post (λ _ u. Tab u) Tab _ s (λ _. h) (λ _. h)

-- A tick of the purger does not panic, and however it ends, with a fault of the database or of a sink or
-- without, the table is what it was before without the rows of some ids, each of which is the id of a
-- report that the sink of invalid beacons or that of invalid witnesses has.
pub handle_db_tick-IsPurged :
    (reading : Reading) (p : Periods) (t1 t2 t3 : ℕ) (s : Purger)
    → Post
        (λ _ u.
          IsPurged reading s.poc_report u.invalid_beacons.written u.invalid_witnesses.written
            u.poc_report)
        (λ u.
          IsPurged reading s.poc_report u.invalid_beacons.written u.invalid_witnesses.written
            u.poc_report)
        (handle_db_tick reading p t1 t2 t3 s)
unfolding handle_db_tick
handle_db_tick-IsPurged reading p t1 t2 t3 s =
    let first = s.poc_report in
    let T = Table reading first in
    Post-bind (λ _ u. T u) (λ _ u. T u) T (purge_beacons reading p t1)
      (λ _. purge_witnesses reading p t2 >>= λ _ u.
        logged (purge_entropy (p.base_stale_period + p.entropy_stale_period) t3 u))
      s (purge_beacons-Tab reading first p t1 s ([], refl, tt))
      (λ _ t k.
        Post-bind (λ _ u. T u) (λ _ u. T u) T (purge_witnesses reading p t2)
          (λ _ u. logged (purge_entropy (p.base_stale_period + p.entropy_stale_period) t3 u)) t
          (purge_witnesses-Tab reading first p t2 t k)
          (λ _ u c.
            logged-Kept reading first T
              (purge_entropy (p.base_stale_period + p.entropy_stale_period) t3 u)
              (purge_entropy-Tab reading first _ t3 u c)))
