-- ===== src/PocRunner/Concluded.antt =====
-- iot_verifier/src/runner.rs: every beacon that is handled leaves the table or has its attempt counted.
use oracles.Prelude.{
  ℕ, ◌%◌, ◌^◌, ◌≡◌, sym, subst, Bool, true, false, List, [], Option, none, some, Action, ◌>>=◌,
  ◌>>◌, map, length,
}
use oracles.Poc.Types.{
  Bytes, GatewayInfo, BeaconIngestReport, WitnessIngestReport, VerifyBeaconResult, VerifiedWitness,
}
use oracles.IotRewards.{Decimals, shares_from_poc}
use oracles.PocRunner.Units.{UnitDecimals, poc_beaconer_reward_unit, poc_per_witness_reward_unit}
use oracles.PocRunner.Reports.{
  Report, count_attempt, update_attempts, delete_poc, update_last_timestamp, begin, commit,
  save_each,
}
use oracles.PocRunner.State.{
  ValidBeaconReport, Runner, RunnerError, unit_error, not_found, Reading, with_unit, on_db, or_err,
  sink_beacon, sink_witnesses, sink_poc,
}
use oracles.PocRunner.Conclude.{
  ingest_id, lora_poc, invalid_poc, rewarded_part, after_invalid, handle_invalid_poc, after_valid,
  handle_valid_poc,
}
use oracles.PocRunner.Handler.{valid_report, conclude}
use oracles.PocRunner.Attempts.{
  OfPacket, Keeps, IsCounted, count-Keeps, count-IsCounted, delete-Keeps, delete-IsCounted,
}
use oracles.PocRunner.Steady.{
  Post, Post-bind, Post-mono, Steady, begin-Steady, commit-Steady, update_last_timestamp-Steady,
  update_attempts-Steady, delete_poc-Steady, sink_beacon-Steady, sink_poc-Steady,
  sink_witnesses-Steady,
}
use oracles.PocRunner.Steady.Saved.{save_each-Steady}

-- The beacon of the id has been handled: its rows have left the table, or an attempt is counted.
abbrev pub IsHandled : {D : Type 0} → List Report → ℕ → Runner D → Type 0
IsHandled t id s = (s.db.faults ≡ []) × Keeps t s.db.poc_report × IsCounted id t s.db.poc_report

module _ {D : Type 0} (E : Type 0) (t : List Report) where
  pub update_attempts-IsHandled :
      (id now : ℕ) (s : Runner D)
      → Steady t s
      → Post {E = RunnerError E}
          (λ _ u. IsHandled t id u)
          (Steady t)
          (on_db (update_attempts id now) s)
  update_attempts-IsHandled id now s h =
      Post-mono (λ _ u. Steady (map (count_attempt id now) t) u) (λ _ u. IsHandled t id u)
        (Steady t) (on_db (update_attempts id now) s)
        (λ _ u k. (
          k.0,
          subst (Keeps t) (sym k.1) (count-Keeps id now t),
          subst (IsCounted id t) (sym k.1) (count-IsCounted id now t),
        ))
        (update_attempts-Steady E t s h id now)

  delete_poc-IsHandled :
      (id : ℕ) (packet : Bytes) (s : Runner D)
      → OfPacket id packet t
      → Steady t s
      → Post {E = RunnerError E} (λ _ u. IsHandled t id u) (Steady t) (on_db (delete_poc packet) s)
  delete_poc-IsHandled id packet s o h =
      Post-mono _ (λ _ u. IsHandled t id u) (Steady t) (on_db (delete_poc packet) s)
        (λ _ u k. (
          k.0,
          subst (Keeps t) (sym k.1) (delete-Keeps packet t),
          subst (IsCounted id t) (sym k.1) (delete-IsCounted id packet t o),
        ))
        (delete_poc-Steady E t s h packet)

  module _ (reading : Reading) where
    after_invalid-IsHandled :
        (result : VerifyBeaconResult) (b : BeaconIngestReport) (ws : List WitnessIngestReport)
        (now : ℕ) (sunk : Bool) (s : Runner D)
        → OfPacket (ingest_id reading b) b.report.packet t
        → Steady t s
        → Post {E = RunnerError E}
            (λ _ u. IsHandled t (ingest_id reading b) u)
            (Steady t)
            (after_invalid reading result b ws now sunk s)
    unfolding after_invalid
    after_invalid-IsHandled result b ws now false s o h =
        update_attempts-IsHandled (ingest_id reading b) now s h
    after_invalid-IsHandled result b ws now true s o h =
        Post-bind (λ _ u. Steady t u) (λ _ u. IsHandled t (ingest_id reading b) u) (Steady t)
          (sink_witnesses result.invalid_reason result.invalid_details ws)
          (λ _. on_db (delete_poc b.report.packet)) s
          (sink_witnesses-Steady E t result.invalid_reason result.invalid_details ws s h)
          (λ _ u k. delete_poc-IsHandled (ingest_id reading b) b.report.packet u o k)

    pub handle_invalid_poc-IsHandled :
        (result : VerifyBeaconResult) (b : BeaconIngestReport) (ws : List WitnessIngestReport)
        (now : ℕ) (s : Runner D)
        → OfPacket (ingest_id reading b) b.report.packet t
        → Steady t s
        → Post {E = RunnerError E}
            (λ _ u. IsHandled t (ingest_id reading b) u)
            (Steady t)
            (handle_invalid_poc reading result b ws now s)
    unfolding handle_invalid_poc
    handle_invalid_poc-IsHandled result b ws now s o h =
        Post-bind (λ _ u. Steady t u) (λ _ u. IsHandled t (ingest_id reading b) u) (Steady t)
          (sink_beacon (invalid_poc result b)) (λ sunk. after_invalid reading result b ws now sunk)
          s (sink_beacon-Steady E t s h (invalid_poc result b))
          (λ sunk u k. after_invalid-IsHandled result b ws now sunk u o k)

abbrev pub valid_id : Reading → ValidBeaconReport → ℕ
valid_id reading b = reading.hash b.report.packet b.received_timestamp b.report.pub_key

module _ {D : Type 0} (E : Type 0) (t : List Report) (reading : Reading) (dec : Decimals D)
    (of_steps : ℕ → D) where
  after_valid-IsHandled :
      (b : ValidBeaconReport) (now : ℕ) (sunk : Bool) (s : Runner D)
      → OfPacket (valid_id reading b) b.report.packet t
      → Steady t s
      → Post {E = RunnerError E}
          (λ _ u. IsHandled t (valid_id reading b) u)
          (Steady t)
          (after_valid reading dec of_steps b now sunk s)
  unfolding after_valid
  after_valid-IsHandled b now false s o h =
      update_attempts-IsHandled E t (valid_id reading b) now s h
  after_valid-IsHandled b now true s o h =
      Post-bind (λ _ u. Steady t u) (λ _ u. IsHandled t (valid_id reading b) u) (Steady t)
        (on_db (update_last_timestamp b.report.pub_key b.received_timestamp))
        (λ _. on_db (delete_poc b.report.packet)) s
        (update_last_timestamp-Steady E t s h b.report.pub_key b.received_timestamp)
        (λ _ u k. delete_poc-IsHandled E t (valid_id reading b) b.report.packet u o k)

  handle_valid_poc-IsHandled :
      (b : ValidBeaconReport) (selected unselected : List VerifiedWitness) (now : ℕ) (s : Runner D)
      → OfPacket (valid_id reading b) b.report.packet t
      → Steady t s
      → Post {E = RunnerError E}
          (λ _ u. IsHandled t (valid_id reading b) u)
          (Steady t)
          (handle_valid_poc reading dec of_steps b selected unselected now s)
  unfolding handle_valid_poc
  handle_valid_poc-IsHandled b selected unselected now s o h =
      let P : Unit {0} → Runner D → Type 0 = λ _ u. IsHandled t (valid_id reading b) u in
      let N : Unit {0} → Runner D → Type 0 = λ _ u. Steady t u in
      let poc = lora_poc reading b selected unselected in
      let finish = λ (sunk : Bool). after_valid {E = E} reading dec of_steps b now sunk in
      Post-bind N P (Steady t) (on_db begin)
        (λ _.
          on_db (save_each (shares_from_poc dec (rewarded_part of_steps poc)))
          >> (on_db commit >> (sink_poc poc >>= finish)))
        s (begin-Steady E t s h)
        (λ _ s1 h1.
          Post-bind N P (Steady t)
            (on_db (save_each (shares_from_poc dec (rewarded_part of_steps poc))))
            (λ _. on_db commit >> (sink_poc poc >>= finish)) s1
            (save_each-Steady E t (shares_from_poc dec (rewarded_part of_steps poc)) s1 h1)
            (λ _ s2 h2.
              Post-bind N P (Steady t) (on_db commit) (λ _. sink_poc poc >>= finish) s2
                (commit-Steady E t s2 h2)
                (λ _ s3 h3.
                  Post-bind (λ _ u. Steady t u) P (Steady t) (sink_poc poc) finish s3
                    (sink_poc-Steady E t s3 h3 poc)
                    (λ sunk s4 h4. after_valid-IsHandled b now sunk s4 o h4))))

  pub conclude-IsHandled :
      (units : UnitDecimals D) (b : BeaconIngestReport) (info : GatewayInfo) (hex_scale : Option ℕ)
      (selected unselected : List VerifiedWitness) (now : ℕ) (s : Runner D)
      → OfPacket (ingest_id reading b) b.report.packet t
      → Steady t s
      → Post {E = RunnerError E}
          (λ _ u. IsHandled t (ingest_id reading b) u)
          (Steady t)
          (conclude reading dec units of_steps b info hex_scale selected unselected now s)
  unfolding conclude
  conclude-IsHandled units b info hex_scale selected unselected now s o h =
      let n = length selected % 2 ^ 32 in
      let finish : ℕ → ℕ → ℕ → Action (Runner D) (RunnerError E) (Unit {0}) = λ bu wu scale.
        handle_valid_poc reading dec of_steps (valid_report b info scale bu)
          (map (with_unit wu) selected) unselected now in
      or_err-then unit_error (poc_beaconer_reward_unit units n)
        (λ bu. or_err unit_error (poc_per_witness_reward_unit units n) >>= λ wu.
          or_err not_found hex_scale >>= λ scale. finish bu wu scale)
        s h
        (λ bu.
          or_err-then unit_error (poc_per_witness_reward_unit units n)
            (λ wu. or_err not_found hex_scale >>= λ scale. finish bu wu scale) s h
            (λ wu.
              or_err-then not_found hex_scale (λ scale. finish bu wu scale) s h
                (λ scale.
                  handle_valid_poc-IsHandled (valid_report b info scale bu)
                    (map (with_unit wu) selected) unselected now s o h)))
    where
      or_err-then :
          (e : RunnerError E) (x : Option ℕ) (f : ℕ → Action (Runner D) (RunnerError E) (Unit {0}))
          (s : Runner D)
          → Steady t s
          → ((a : ℕ) → Post (λ _ u. IsHandled t (ingest_id reading b) u) (Steady t) (f a s))
          → Post (λ _ u. IsHandled t (ingest_id reading b) u) (Steady t) ((or_err e x >>= f) s)
      or_err-then e none f s h k = h
      or_err-then e (some a) f s h k = k a
