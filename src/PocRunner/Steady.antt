-- ===== src/PocRunner/Steady.antt =====
-- iot_verifier/src/runner.rs: what each call of the runner does to the table of reports, while no statement
-- is to fail.
use oracles.Prelude.{
  ℕ, ◌≡◌, ◌≢◌, refl, sym, ap, subst, if◌then◌else◌, List, [], ◌∷◌, Option, none, some, Outcome, ok,
  err, panic, Action, ◌>>=◌, map, insert,
}
use oracles.PacketVerifier.Pending.{SqlxError, statement_failed}
use oracles.Poc.Types.{Bytes, PublicKey, InvalidReason, InvalidDetails, WitnessIngestReport}
use oracles.IotRewards.{GatewayPocShare, save_poc_share}
use oracles.PocRunner.Reports.{
  Report, Db, statement, count_attempt, without_packet, get_witnesses_for_beacon, update_attempts,
  delete_poc, update_last_timestamp, begin, commit, witnesses_of, beacons_of, get_next_beacons,
  save, save_each,
}
use oracles.PocRunner.State.{
  InvalidBeaconReport, LoraPoc, Runner, RunnerError, on_db, or_err, or_error, sink_beacon,
  sink_witness, sink_witnesses, sink_poc,
}
pub mod Saved

-- A call ends with a value and P, or with an error and Q; it does not panic.
abbrev pub Post : {S E A : Type 0} → (A → S → Type 0) → (S → Type 0) → Outcome E A × S → Type 0
Post P Q (ok a, s) = P a s
Post P Q (err _, s) = Q s
Post P Q (panic, s) = ⊥

bind_from :
    {S E A B : Type 0} (P : A → S → Type 0) (R : B → S → Type 0) (Q : S → Type 0)
    (f : A → Action S E B) (r : Outcome E A × S)
    → Post P Q r
    → ((a : A) (s : S) → P a s → Post R Q (f a s))
    → Post {E = E} R Q (elim r.0 [ ok a ↦ f a r.1 | err e ↦ (err e, r.1) | panic ↦ (panic, r.1) ])
bind_from P R Q f (ok a, s) h k = k a s h
bind_from P R Q f (err e, s) h k = h
bind_from P R Q f (panic, s) h k = h

pub Post-bind :
    {S E A B : Type 0} (P : A → S → Type 0) (R : B → S → Type 0) (Q : S → Type 0) (m : Action S E A)
    (f : A → Action S E B) (s : S)
    → Post P Q (m s)
    → ((a : A) (t : S) → P a t → Post R Q (f a t))
    → Post R Q ((m >>= f) s)
Post-bind P R Q m f s = bind_from P R Q f (m s)

pub Post-mono :
    {S E A : Type 0} (P R : A → S → Type 0) (Q : S → Type 0) (r : Outcome E A × S)
    → ((a : A) (s : S) → P a s → R a s)
    → Post P Q r
    → Post R Q r
Post-mono P R Q (ok a, s) k h = k a s h
Post-mono P R Q (err _, s) k h = h
Post-mono P R Q (panic, s) k h = h

module _ {D : Type 0} where
  -- No statement is to fail, and the reports are `t`.
  abbrev pub Steady : List Report → Runner D → Type 0
  Steady t s = (s.db.faults ≡ []) × (s.db.poc_report ≡ t)

pub statement-run :
    {D A : Type 0} (run : Db D → Outcome SqlxError A × Db D) (db : Db D)
    → db.faults ≡ []
    → statement run db ≡ run db
unfolding statement
statement-run run db e =
    ap
      (λ fs. elim fs [
        | [] ↦ run db
        | fault ∷ rest ↦
            let later = record db { faults = rest } in
            if fault then (err statement_failed, later) else run later
      ])
      e

on_db-run :
    {D A : Type 0} (E : Type 0) (P : A → Runner D → Type 0) (Q : Runner D → Type 0)
    (run : Db D → Outcome SqlxError A × Db D) (s : Runner D)
    → s.db.faults ≡ []
    → Post {E = RunnerError E} P Q (on_db run s)
    → Post {E = RunnerError E} P Q (on_db (statement run) s)
unfolding on_db
on_db-run E P Q run s e h =
    subst (λ x. Post {E = RunnerError E} P Q (on_db (λ _. x) s)) (sym (statement-run run s.db e)) h

module _ {D : Type 0} (E : Type 0) (t : List Report) (s : Runner D) (h : Steady t s) where
  pub begin-Steady : Post {E = RunnerError E} (λ _ u. Steady t u) (Steady t) (on_db begin s)
  unfolding on_db begin
  begin-Steady =
      on_db-run E (λ _ u. Steady t u) (Steady t)
        (λ db. (ok tt, record db { open_shares = db.shares })) s h.0 (h.0, h.1)

  pub commit-Steady : Post {E = RunnerError E} (λ _ u. Steady t u) (Steady t) (on_db commit s)
  unfolding on_db commit
  commit-Steady =
      on_db-run E (λ _ u. Steady t u) (Steady t)
        (λ db. (ok tt, record db { shares = db.open_shares })) s h.0 (h.0, h.1)

  pub update_last_timestamp-Steady :
      (id : PublicKey) (time : ℕ)
      → Post {E = RunnerError E}
          (λ _ u. Steady t u)
          (Steady t)
          (on_db (update_last_timestamp id time) s)
  unfolding on_db update_last_timestamp
  update_last_timestamp-Steady id time =
      on_db-run E (λ _ u. Steady t u) (Steady t)
        (λ db. (ok tt, record db { last_beacon = insert id time db.last_beacon })) s h.0 (h.0, h.1)

  pub get_witnesses-Steady :
      (packet : Bytes) (retries : ℕ)
      → Post {E = RunnerError E}
          (λ _ u. Steady t u)
          (Steady t)
          (on_db (get_witnesses_for_beacon packet retries) s)
  unfolding on_db get_witnesses_for_beacon
  get_witnesses-Steady packet retries =
      on_db-run E (λ _ u. Steady t u) (Steady t)
        (λ db. (ok (witnesses_of packet retries db.poc_report), db)) s h.0 (h.0, h.1)

  pub get_next_beacons-Steady :
      (now retries : ℕ)
      → Post {E = RunnerError E}
          (λ bs u. Steady t u × (bs ≡ beacons_of now retries s.db.entropy s.db.poc_report))
          (λ _. ⊥)
          (on_db (get_next_beacons now retries) s)
  unfolding on_db get_next_beacons
  get_next_beacons-Steady now retries =
      on_db-run E (λ bs u. Steady t u × (bs ≡ beacons_of now retries s.db.entropy s.db.poc_report))
        (λ _. ⊥) (λ db. (ok (beacons_of now retries db.entropy db.poc_report), db)) s h.0
        ((h.0, h.1), refl)

  pub or_err-Steady :
      {A : Type 0} (e : RunnerError E) (o : Option A)
      → Post (λ _ u. Steady t u) (Steady t) (or_err e o s)
  or_err-Steady e none = h
  or_err-Steady e (some a) = h

  pub or_error-Steady :
      {A : Type 0} (o : Outcome E A)
      → o ≢ panic
      → Post (λ a u. Steady t u × (o ≡ ok a)) (Steady t) (or_error o s)
  or_error-Steady (ok a) n = (h, refl)
  or_error-Steady (err e) n = h
  or_error-Steady panic n = absurd (n refl)

  pub update_attempts-Steady :
      (id now : ℕ)
      → Post {E = RunnerError E}
          (λ _ u. Steady (map (count_attempt id now) t) u)
          (Steady t)
          (on_db (update_attempts id now) s)
  unfolding on_db update_attempts
  update_attempts-Steady id now =
      on_db-run E (λ _ u. Steady (map (count_attempt id now) t) u) (Steady t)
        (λ db. (ok tt, record db { poc_report = map (count_attempt id now) db.poc_report })) s h.0
        (h.0, ap (map (count_attempt id now)) h.1)

  pub delete_poc-Steady :
      (packet : Bytes)
      → Post {E = RunnerError E}
          (λ _ u. Steady (without_packet packet t) u)
          (Steady t)
          (on_db (delete_poc packet) s)
  unfolding on_db delete_poc
  delete_poc-Steady packet =
      on_db-run E (λ _ u. Steady (without_packet packet t) u) (Steady t)
        (λ db. (ok tt, record db { poc_report = without_packet packet db.poc_report })) s h.0
        (h.0, ap (without_packet packet) h.1)

  pub sink_beacon-Steady :
      (x : InvalidBeaconReport)
      → Post {E = RunnerError E} (λ _ u. Steady t u) (Steady t) (sink_beacon x s)
  unfolding sink_beacon
  sink_beacon-Steady x = h

  pub sink_poc-Steady :
      (x : LoraPoc) → Post {E = RunnerError E} (λ _ u. Steady t u) (Steady t) (sink_poc x s)
  unfolding sink_poc
  sink_poc-Steady x = h

module _ {D : Type 0} (E : Type 0) (t : List Report) where
  pub sink_witnesses-Steady :
      (reason : InvalidReason) (details : Option InvalidDetails) (ws : List WitnessIngestReport)
      (s : Runner D)
      → Steady t s
      → Post {E = RunnerError E} (λ _ u. Steady t u) (Steady t) (sink_witnesses reason details ws s)
  unfolding sink_witnesses sink_witness
  sink_witnesses-Steady reason details [] s h = h
  sink_witnesses-Steady reason details (w ∷ ws) s h = sink_witnesses-Steady reason details ws _ h
