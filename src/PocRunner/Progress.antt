-- ===== src/PocRunner/Progress.antt =====
-- iot_verifier/src/runner.rs: one beacon that is ready, and what becomes of it.
use oracles.Prelude.{
  ℕ, ◌≡◌, ◌≢◌, refl, sym, subst, List, [], Option, none, some, Outcome, ok, err, panic, ◌>>=◌, Dict,
}
use oracles.Prelude.Int.{ℤ}
use oracles.Poc.Types.{
  Bytes, valid, invalid, VerificationStatus, GatewayInfo, BeaconIngestReport, WitnessIngestReport,
  VerifyBeaconResult,
}
use oracles.Poc.Beacon.{Poc, new}
use oracles.Poc.Witness.{VerifyWitnessesResult}
use oracles.IotRewards.{Decimals}
use oracles.PocRunner.Select.{select}
use oracles.PocRunner.Units.{UnitDecimals}
use oracles.PocRunner.Reports.{Report, get_witnesses_for_beacon}
use oracles.PocRunner.State.{
  Settings, Runner, RunnerError, decode_error, Verifier, Reading, on_db, or_err, or_error,
}
use oracles.PocRunner.Conclude.{ingest_id}
use oracles.PocRunner.Handler.{
  with_failed, verify_rest, with_result, decode_each, judge, handle_decoded, handle_beacon_report,
}
use oracles.PocRunner.Attempts.{OfPacket, Keeps, IsCounted, count-Keeps, count-IsCounted}
use oracles.PocRunner.Steady.{Post, Post-bind, Steady, get_witnesses-Steady, or_error-Steady}
use oracles.PocRunner.Steady.Saved.{update_attempts-counts}
use oracles.PocRunner.Handler.{with_entropy, handle_beacon, or_count}
use oracles.PocRunner.Concluded.{IsHandled, handle_invalid_poc-IsHandled, conclude-IsHandled}

-- What the runner relies on of the verification: it does not panic, it says whose a valid beacon is, and it
-- leaves no witness without an answer.
pub record IsVerifier {E : Type 0} (verifier : Verifier E) : Type 0 where
  pub beacon_returns :
      (last : Dict ℕ) (poc : Poc) (interval : ℕ) → verifier.verify_beacon last poc interval ≢ panic
  pub confirms :
      (last : Dict ℕ) (poc : Poc) (interval : ℕ) (r : VerifyBeaconResult)
      → verifier.verify_beacon last poc interval ≡ ok r
      → r.result ≡ valid
      → (info : GatewayInfo) × (r.gateway_info ≡ some info)
  pub witnesses_return :
      (poc : Poc) (info : GatewayInfo) → verifier.verify_witnesses poc info ≢ panic
  pub none_fails :
      (poc : Poc) (info : GatewayInfo) (r : VerifyWitnessesResult)
      → verifier.verify_witnesses poc info ≡ ok r
      → r.failed_witnesses ≡ []

-- A beacon as the loader stores it: its id is that of its report, and all rows of the id are of its packet.
abbrev pub IsLoaded : Reading → List Report → Report → Type 0
IsLoaded reading t r =
    (b : BeaconIngestReport)
    → reading.decode_beacon r.report_data ≡ some b
    → (r.id ≡ ingest_id reading b) × OfPacket (ingest_id reading b) b.report.packet t

-- A row of the join with the entropy.
abbrev pub IsJoined : Report → Type 0
IsJoined r =
    ((start : ℕ) × (r.timestamp ≡ some start)) × ((version : ℤ) × (r.version ≡ some version))

module _ {D E : Type 0} (settings : Settings) (verifier : Verifier E) (reading : Reading)
    (dec : Decimals D) (units : UnitDecimals D) (of_steps : ℕ → D) (good : IsVerifier verifier)
    (t : List Report) where
  abbrev Handles : ℕ → Outcome (RunnerError E) (Unit {0}) × Runner D → Type 0
  Handles id = Post (λ _ u. IsHandled t id u) (Steady t)

  verify_rest-IsHandled :
      (poc : Poc) (hex_scale : Option ℕ) (o : Option GatewayInfo) (info : GatewayInfo) (now : ℕ)
      (s : Runner D)
      → o ≡ some info
      → OfPacket (ingest_id reading poc.beacon_report) poc.beacon_report.report.packet t
      → Steady t s
      → Handles
          (ingest_id reading poc.beacon_report)
          (verify_rest settings verifier reading dec units of_steps poc hex_scale o now s)
  unfolding verify_rest with_failed
  verify_rest-IsHandled poc hex_scale none info now s e o h = absurd (cc e)
  verify_rest-IsHandled poc hex_scale (some info') info now s e o h =
      Post-bind (λ r u. Steady t u × (verifier.verify_witnesses poc info' ≡ ok r))
        (λ _ u. IsHandled t (ingest_id reading poc.beacon_report) u) (Steady t)
        (or_error (verifier.verify_witnesses poc info'))
        (λ r.
          with_failed settings verifier reading dec units of_steps poc.beacon_report info' hex_scale
            r.failed_witnesses r.verified_witnesses now)
        s
        (or_error-Steady E t s h (verifier.verify_witnesses poc info')
          (good.witnesses_return poc info'))
        (λ r u k.
          subst
            (λ fs. Handles (ingest_id reading poc.beacon_report) (
              with_failed settings verifier reading dec units of_steps poc.beacon_report info'
                hex_scale fs r.verified_witnesses now u))
            (sym (good.none_fails poc info' r k.1))
            (conclude-IsHandled E t reading dec of_steps units poc.beacon_report info' hex_scale
              (select r.verified_witnesses settings.max_witnesses_per_poc).0
              (select r.verified_witnesses settings.max_witnesses_per_poc).1 now u o k.0))

  with_result-IsHandled :
      (poc : Poc) (r : VerifyBeaconResult) (ws : List WitnessIngestReport)
      (status : VerificationStatus) (now : ℕ) (s : Runner D)
      → (status ≡ valid → (info : GatewayInfo) × (r.gateway_info ≡ some info))
      → OfPacket (ingest_id reading poc.beacon_report) poc.beacon_report.report.packet t
      → Steady t s
      → Handles
          (ingest_id reading poc.beacon_report)
          (with_result settings verifier reading dec units of_steps poc r ws status now s)
  unfolding with_result
  with_result-IsHandled poc r ws valid now s c o h =
      let (info, e) = c refl in
      verify_rest-IsHandled poc r.hex_scale r.gateway_info info now s e o h
  with_result-IsHandled poc r ws invalid now s c o h =
      handle_invalid_poc-IsHandled E t reading r poc.beacon_report ws now s o h

  judge-IsHandled :
      (poc : Poc) (ws : List WitnessIngestReport) (now : ℕ) (s : Runner D)
      → OfPacket (ingest_id reading poc.beacon_report) poc.beacon_report.report.packet t
      → Steady t s
      → Handles
          (ingest_id reading poc.beacon_report)
          (judge settings verifier reading dec units of_steps poc ws now s)
  unfolding judge
  judge-IsHandled poc ws now s o h =
      let answer = verifier.verify_beacon s.db.last_beacon poc settings.beacon_interval in
      Post-bind (λ r u. Steady t u × (answer ≡ ok r))
        (λ _ u. IsHandled t (ingest_id reading poc.beacon_report) u) (Steady t) (or_error answer)
        (λ r. with_result settings verifier reading dec units of_steps poc r ws r.result now) s
        (or_error-Steady E t s h answer
          (good.beacon_returns s.db.last_beacon poc settings.beacon_interval))
        (λ r u k.
          with_result-IsHandled poc r ws r.result now u
            (good.confirms s.db.last_beacon poc settings.beacon_interval r k.1) o k.0)

  handle_decoded-IsHandled :
      (b : BeaconIngestReport) (packet : Bytes) (start : ℕ) (version : ℤ) (now : ℕ) (s : Runner D)
      → OfPacket (ingest_id reading b) b.report.packet t
      → Steady t s
      → Handles
          (ingest_id reading b)
          (handle_decoded settings verifier reading dec units of_steps b packet start version now s)
  unfolding handle_decoded new
  handle_decoded-IsHandled b packet start version now s o h =
      Post-bind (λ _ u. Steady t u) (λ _ u. IsHandled t (ingest_id reading b) u) (Steady t)
        (on_db (get_witnesses_for_beacon packet settings.witness_max_retries))
        (λ rows. or_err decode_error (decode_each reading rows) >>= λ ws.
          judge settings verifier reading dec units of_steps (new b ws start version) ws now)
        s (get_witnesses-Steady E t s h packet settings.witness_max_retries)
        (λ rows u k. decoded (decode_each reading rows) u k)
    where
      decoded :
          (x : Option (List WitnessIngestReport)) (u : Runner D)
          → Steady t u
          → Handles (ingest_id reading b) (
              (or_err decode_error x >>= λ ws.
              judge settings verifier reading dec units of_steps (new b ws start version) ws now)
                u)
      decoded none u k = k
      decoded (some ws) u k = judge-IsHandled (new b ws start version) ws now u o k

  with_entropy-IsHandled :
      (r : Report) (x : Option ℕ) (y : Option ℤ) (start : ℕ) (version : ℤ) (now : ℕ) (s : Runner D)
      → x ≡ some start
      → y ≡ some version
      → IsLoaded reading t r
      → Steady t s
      → Handles r.id (with_entropy settings verifier reading dec units of_steps r x y now s)
  with_entropy-IsHandled r none y start version now s e f l h = absurd (cc e)
  with_entropy-IsHandled r (some x) none start version now s e f l h = absurd (cc f)
  with_entropy-IsHandled r (some x) (some y) start version now s e f l h =
      decoded (reading.decode_beacon r.report_data) refl
    where
      decoded :
          (o : Option BeaconIngestReport)
          → reading.decode_beacon r.report_data ≡ o
          → Handles r.id (
              (or_err decode_error o >>= λ b.
              handle_decoded settings verifier reading dec units of_steps b r.packet_data x y now)
                s)
      decoded none d = h
      decoded (some b) d =
          subst
            (λ id. Handles id (
              handle_decoded settings verifier reading dec units of_steps b r.packet_data x y now
                s))
            (sym (l b d).0) (handle_decoded-IsHandled b r.packet_data x y now s (l b d).1 h)

  -- The beacon is handled, or an error counts its attempt.
  pub handle_beacon-IsHandled :
      (r : Report) (now : ℕ) (s : Runner D)
      → IsJoined r
      → IsLoaded reading t r
      → Steady t s
      → Post
          (λ _ u. IsHandled t r.id u)
          (λ _. ⊥)
          (handle_beacon settings verifier reading dec units of_steps r now s)
  unfolding handle_beacon handle_beacon_report
  handle_beacon-IsHandled r now s j l h =
      counted (handle_beacon_report settings verifier reading dec units of_steps r now s)
        (with_entropy-IsHandled r r.timestamp r.version j.0.0 j.1.0 now s j.0.1 j.1.1 l h)
    where
      counted :
          (x : Outcome (RunnerError E) (Unit {0}) × Runner D)
          → Handles r.id x
          → Post (λ _ u. IsHandled t r.id u) (λ _. ⊥) (or_count r now x)
      counted (ok a, u) k = k
      counted (panic, u) k = k
      counted (err e, u) k =
          let c = update_attempts-counts t r.id now u.db k in
          (
            c.0,
            subst (Keeps t) (sym c.1) (count-Keeps r.id now t),
            subst (IsCounted r.id t) (sym c.1) (count-IsCounted r.id now t),
          )
