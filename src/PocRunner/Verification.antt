-- ===== src/PocRunner/Verification.antt =====
-- iot_verifier/src/runner.rs and iot_verifier/src/poc.rs: the runner's calls of the verification, which
-- read the last beacons from the runner's table.
use oracles.Prelude.{
  ℕ, ◌≡◌, ◌≢◌, refl, subst, Bool, false, Option, none, some, Outcome, ok, err, panic, done, failed,
  Reply, Dict, lookup, map_err, arith, List, [],
}
use oracles.Prelude.Int.{ℤ}
use oracles.Poc.Types.{
  VerificationStatus, invalid, VerifiedWitness, PublicKey, valid, GatewayMetadata, GatewayInfo,
  BeaconReport, BeaconIngestReport, LastBeacon, VerifyResult, VerifyBeaconResult,
}
use oracles.Poc.Externals.{Cells, Floats, Beacon, Beacons, DenyList}
use oracles.Poc.Checks.{verify_beacon_schedule}
use oracles.Poc.Beacon.{
  Poc, Tables, VerificationError, beacon_answer, with_last, with_region, with_metadata,
  with_gateway, compare_beacons, asserted_checks, do_beacon_verifications, verify_beacon,
  verify_beacon_payload,
}
use oracles.Poc.Witness.{verify_witnesses}
use oracles.Poc.Witness.Answers.{
  Total, &>-Total, refuse_if-Total, verify_denylist-Total, verify_entropy-Total,
  verify_gw_capability-Total,
}
use oracles.Poc.Witness.Loop.{verify_witnesses-Verdicts}
use oracles.PocRunner.State.{Verifier}
use oracles.PocRunner.Progress.{IsVerifier}

-- `LastBeacon::get`.
abbrev pub last_of : PublicKey → Option ℕ → Option LastBeacon
last_of key none = none
last_of key (some t) = some (record { id = key; timestamp = t })

-- A valid answer says whose the beacon is, which is the gateway that was found.
abbrev Named : VerificationStatus → Option GatewayInfo → Option GatewayInfo → Type 0
Named valid found given = (info : GatewayInfo) × (found ≡ some info) × (given ≡ some info)
Named invalid found given = Unit {0}

-- An answer is no panic.
abbrev pub IsAnswer : {E : Type 0} → Option GatewayInfo → Outcome E VerifyBeaconResult → Type 0
IsAnswer found (ok r) = Named r.result found r.gateway_info
IsAnswer found (err e) = Unit {0}
IsAnswer found panic = ⊥

module _ {Params E : Type 0} (beacons : Beacons Params E) (duration_trunc : ℕ → ℕ → Option ℕ)
    (deny_list : DenyList) where
  abbrev pub Cuts : ℕ → ℕ → Type 0
  Cuts t interval = (cut : ℕ) × (duration_trunc t interval ≡ some cut)

  -- Both times that the schedule compares can be cut.
  abbrev CutsBoth : Option LastBeacon → ℕ → ℕ → Type 0
  CutsBoth none received interval = Unit {0}
  CutsBoth (some last) received interval = Cuts last.timestamp interval × Cuts received interval

  schedule-Total :
      (last : Option LastBeacon) (received interval : ℕ)
      → CutsBoth last received interval
      → Total (verify_beacon_schedule duration_trunc last received interval)
  unfolding verify_beacon_schedule
  schedule-Total none received interval h = record { not_panic = ground arith }
  schedule-Total (some last) received interval ((a, e), (b, f)) = rw (e, f) (refuse_if-Total _ _)

  compare-Total : (r : Reply E Beacon) (b : Beacon) → Total (compare_beacons beacons r b)
  compare-Total (failed e) b = record { not_panic = ground arith }
  compare-Total (done g) b = refuse_if-Total _ _

  payload-Total :
      (r : BeaconReport) (region : ℕ) (params : Params) (gain : ℤ) (start version : ℕ)
      → Total (verify_beacon_payload beacons r region params gain start version)
  unfolding verify_beacon_payload
  payload-Total r region params gain start version = compare-Total _ _

  checks-Total :
      (m : Option GatewayMetadata) (start end : ℕ) (version : ℤ) (last : Option LastBeacon)
      (b : BeaconIngestReport) (full : Bool) (params : Params) (interval : ℕ)
      → CutsBoth last b.received_timestamp interval
      → Total (
          asserted_checks beacons duration_trunc deny_list m start end version last b full params
            interval)
  checks-Total none start end version last b full params interval h = record {
    not_panic = ground arith;
  }
  checks-Total (some m) start end version last b full params interval h =
      &>-Total _ _ (verify_denylist-Total b.report.pub_key deny_list) (
        &>-Total _ _ (verify_entropy-Total start end b.received_timestamp) (
          &>-Total _ _ (verify_gw_capability-Total full) (
            &>-Total _ _ (schedule-Total last b.received_timestamp interval h)
              (payload-Total b.report m.region params m.gain start _))))

  module _ {Db Region : Type 0} (tables : Tables Params Db Region) where
    abbrev CutsRead : Reply Db (Option LastBeacon) → ℕ → ℕ → Type 0
    CutsRead (failed e) received interval = Unit {0}
    CutsRead (done last) received interval = CutsBoth last received interval

    beacon_answer-IsAnswer :
        (r : VerifyResult) (info : GatewayInfo) (location : ℕ)
        → Total r
        → IsAnswer
            (some info)
            (beacon_answer beacons duration_trunc deny_list tables r info location)
    beacon_answer-IsAnswer (ok _) info location h = (info, refl, refl)
    beacon_answer-IsAnswer (err r) info location h = tt
    beacon_answer-IsAnswer panic info location h = h.not_panic refl

    with_last-IsAnswer :
        (l : Reply Db (Option LastBeacon)) (poc : Poc) (interval : ℕ) (info : GatewayInfo)
        (m : GatewayMetadata) (params : Params)
        → CutsRead l poc.beacon_report.received_timestamp interval
        → IsAnswer
            (some info)
            (with_last beacons duration_trunc deny_list tables l poc interval info m params)
    unfolding do_beacon_verifications
    with_last-IsAnswer (failed e) poc interval info m params h = tt
    with_last-IsAnswer (done last) poc interval info m params h =
        beacon_answer-IsAnswer _ info m.location (
          checks-Total info.metadata poc.entropy_start poc.entropy_end poc.entropy_version last
            poc.beacon_report info.is_full_hotspot params interval h)

    with_region-IsAnswer :
        (r : Reply Region Params) (poc : Poc) (interval : ℕ) (info : GatewayInfo)
        (m : GatewayMetadata)
        → CutsRead
            (tables.last_beacons poc.beacon_report.report.pub_key)
            poc.beacon_report.received_timestamp
            interval
        → IsAnswer
            (some info)
            (with_region beacons duration_trunc deny_list tables r poc interval info m)
    with_region-IsAnswer (failed e) poc interval info m h = tt
    with_region-IsAnswer (done params) poc interval info m h =
        with_last-IsAnswer _ poc interval info m params h

    with_metadata-IsAnswer :
        (o : Option GatewayMetadata) (poc : Poc) (interval : ℕ) (info : GatewayInfo)
        → CutsRead
            (tables.last_beacons poc.beacon_report.report.pub_key)
            poc.beacon_report.received_timestamp
            interval
        → IsAnswer
            (some info)
            (with_metadata beacons duration_trunc deny_list tables o poc interval info)
    with_metadata-IsAnswer none poc interval info h = tt
    with_metadata-IsAnswer (some m) poc interval info h =
        with_region-IsAnswer _ poc interval info m h

    verify_beacon-IsAnswer :
        (poc : Poc) (interval : ℕ)
        → CutsRead
            (tables.last_beacons poc.beacon_report.report.pub_key)
            poc.beacon_report.received_timestamp
            interval
        → IsAnswer
            (tables.gateways poc.beacon_report.report.pub_key)
            (verify_beacon beacons duration_trunc deny_list tables poc interval)
    unfolding verify_beacon
    verify_beacon-IsAnswer poc interval h =
        of_gateway (tables.gateways poc.beacon_report.report.pub_key)
      where
        of_gateway :
            (o : Option GatewayInfo)
            → IsAnswer o (with_gateway beacons duration_trunc deny_list tables o poc interval)
        of_gateway none = tt
        of_gateway (some info) = with_metadata-IsAnswer info.metadata poc interval info h

-- The two halves of Poc, as the runner calls them.
module _ {Params E Db Region Cell F : Type 0} (beacons : Beacons Params E)
    (duration_trunc : ℕ → ℕ → Option ℕ) (deny_list : DenyList) (tables : Tables Params Db Region)
    (cells : Cells Cell) (f64 : Floats F) where
  abbrev pub reading_last : Dict ℕ → Tables Params Db Region
  reading_last last = record tables { last_beacons = λ key. done (last_of key (lookup key last)) }

  unfoldable pub poc_verifier : Verifier (Option (VerificationError Db Region))
  unfolding verify_beacon verify_witnesses
  poc_verifier = record {
    verify_beacon = λ last poc interval.
        map_err some
          (verify_beacon beacons duration_trunc deny_list (reading_last last) poc interval);
    verify_witnesses = λ poc info.
        map_err (λ _. none)
          (verify_witnesses cells f64 deny_list tables.gateways tables.density poc info);
  }

module _ {E : Type 0} (found : Option GatewayInfo) where
  map_err-IsAnswer :
      {F : Type 0} (f : E → F) (r : Outcome E VerifyBeaconResult)
      → IsAnswer found r
      → IsAnswer found (map_err f r)
  map_err-IsAnswer f (ok a) h = h
  map_err-IsAnswer f (err a) h = tt
  map_err-IsAnswer f panic h = h

  returned : (r : Outcome E VerifyBeaconResult) → IsAnswer found r → r ≢ panic
  returned (ok a) h e = absurd (cc e)
  returned (err a) h e = absurd (cc e)
  returned panic h e = h

  confirmed :
      (r : Outcome E VerifyBeaconResult) (a : VerifyBeaconResult)
      → IsAnswer found r
      → r ≡ ok a
      → a.result ≡ valid
      → (info : GatewayInfo) × (a.gateway_info ≡ some info)
  confirmed r a h e v =
      let h' : IsAnswer {E = E} found (ok a) = subst (IsAnswer found) e h in
      let (info, _, g) : Named valid found a.gateway_info =
        subst (λ s. Named s found a.gateway_info) v h' in
      (info, g)

module _ {Params E Db Region Cell F : Type 0} (beacons : Beacons Params E)
    (duration_trunc : ℕ → ℕ → Option ℕ) (deny_list : DenyList) (tables : Tables Params Db Region)
    (cells : Cells Cell) (f64 : Floats F) where
  read :
      (key received interval : ℕ) (o : Option ℕ)
      → ((t : ℕ)
          → o ≡ some t
          → Cuts beacons duration_trunc deny_list t interval
            × Cuts beacons duration_trunc deny_list received interval)
      → CutsBoth beacons duration_trunc deny_list (last_of key o) received interval
  read key received interval none h = tt
  read key received interval (some t) h = h t refl

  -- Where the time of the last beacon of a beacon's gateway, if there is one, and the time at which the
  -- beacon was received can be cut to the interval: the verification of the beacon does not panic, an
  -- answer that it is valid names the gateway that its key has, and the verification of its witnesses
  -- returns with none of them failed, whatever the gateway is.
  pub poc_verifier-IsAnswer :
      (last : Dict ℕ) (poc : Poc) (interval : ℕ) (info : GatewayInfo)
      → ((t : ℕ)
          → lookup poc.beacon_report.report.pub_key last ≡ some t
          → Cuts beacons duration_trunc deny_list t interval
            × Cuts beacons duration_trunc deny_list poc.beacon_report.received_timestamp interval)
      → IsAnswer (tables.gateways poc.beacon_report.report.pub_key) (
          (poc_verifier beacons duration_trunc deny_list tables cells f64).verify_beacon last poc
            interval)
        × ((vs : List VerifiedWitness) × ((poc_verifier beacons duration_trunc deny_list tables
                  cells f64).verify_witnesses
                poc info
              ≡ ok (record { verified_witnesses = vs; failed_witnesses = [] })))
  unfolding poc_verifier
  poc_verifier-IsAnswer last poc interval info h =
      let key = poc.beacon_report.report.pub_key in
      let read_tables = reading_last beacons duration_trunc deny_list tables cells f64 last in
      let (vs, a, _) =
        verify_witnesses-Verdicts cells f64 deny_list tables.gateways tables.density poc info in
      (
        map_err-IsAnswer (tables.gateways key) some
            (verify_beacon beacons duration_trunc deny_list read_tables poc interval)
            (verify_beacon-IsAnswer beacons duration_trunc deny_list read_tables poc interval
              (read key poc.beacon_report.received_timestamp interval (lookup key last) h)),
        (vs, rw a refl),
      )

  -- Where every time can be cut to every interval, the verification is as the runner relies on it.
  pub poc_verifier-IsVerifier :
      ((t interval : ℕ) → Cuts beacons duration_trunc deny_list t interval)
      → IsVerifier (poc_verifier beacons duration_trunc deny_list tables cells f64)
  poc_verifier-IsVerifier cuts = record {
    beacon_returns = λ last poc interval. returned (found poc) _ (answer last poc interval);
    confirms = λ last poc interval r. confirmed (found poc) _ r (answer last poc interval);
    witnesses_return = λ poc info e. let (vs, a) = witnessed poc info in absurd (cc (a, e));
    none_fails = λ poc info r e. let (vs, a) = witnessed poc info in cc (a, e);
  }
    where
      found : Poc → Option GatewayInfo
      found poc = tables.gateways poc.beacon_report.report.pub_key

      answer :
          (last : Dict ℕ) (poc : Poc) (interval : ℕ)
          → IsAnswer (found poc) (
              (poc_verifier beacons duration_trunc deny_list tables cells f64).verify_beacon last
                poc interval)
      answer last poc interval =
          (poc_verifier-IsAnswer last poc interval
            (record { address = 0; metadata = none; is_full_hotspot = false })
            (λ t _. (cuts t interval, cuts poc.beacon_report.received_timestamp interval))).0

      witnessed :
          (poc : Poc) (info : GatewayInfo)
          → (vs : List VerifiedWitness) × ((poc_verifier beacons duration_trunc deny_list tables
                  cells f64).verify_witnesses
                poc info
              ≡ ok (record { verified_witnesses = vs; failed_witnesses = [] }))
      witnessed poc info =
          (poc_verifier-IsAnswer [] poc 0 info
            (λ t _. (cuts t 0, cuts poc.beacon_report.received_timestamp 0))).1
