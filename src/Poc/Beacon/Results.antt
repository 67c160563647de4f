-- ===== src/Poc/Beacon/Results.antt =====
-- What `verify_beacon` of iot_verifier/src/poc.rs answers.
use oracles.Prelude.{
  ℕ, ◌≡◌, refl, ap, subst, sym, ◌∙◌, ◌↔◌, Option, none, some, ok, err, panic, done, failed, Reply,
  arith,
}
use oracles.Poc.Types.{
  GatewayMetadata, GatewayInfo, LastBeacon, VerifyResult, valid_beacon, invalid, VerificationStatus,
}
use oracles.Poc.Externals.{Beacons, DenyList}
use oracles.Poc.Checks.Passed.{Passes}
use oracles.Poc.Beacon.{
  Poc, Tables, Answer, tx_scale, beacon_answer, with_last, with_region, with_metadata, with_gateway,
  verify_beacon,
}
use oracles.Poc.Beacon.Accepted.{Admissible, do_beacon_verifications-Admissible}

abbrev result_of : {Db Region : Type 0} → Answer Db Region → VerificationStatus
result_of (ok r) = r.result
result_of (err e) = invalid
result_of panic = invalid

abbrev gateway_of : {Db Region : Type 0} → Answer Db Region → Option GatewayInfo
gateway_of (ok r) = r.gateway_info
gateway_of (err e) = none
gateway_of panic = none

abbrev scale_of : {Db Region : Type 0} → Answer Db Region → Option ℕ
scale_of (ok r) = r.hex_scale
scale_of (err e) = none
scale_of panic = none

module _ {Params E Db Region : Type 0} (beacons : Beacons Params E)
    (duration_trunc : ℕ → ℕ → Option ℕ) (deny_list : DenyList)
    (tables : Tables Params Db Region) where
  -- The answer says that the beacon is valid, for the gateway and with the scale.
  abbrev pub Accepts : Answer Db Region → GatewayInfo → ℕ → Type 0
  Accepts a info scale = a ≡ ok (valid_beacon info scale)

  -- The gateway is known and asserted, its region and its last beacon can be read, and the beacon
  -- is admissible; the scale is that of its location, or the default.
  abbrev pub Confirmed : Poc → ℕ → GatewayInfo → ℕ → Type 0
  Confirmed poc interval info scale =
      (m : GatewayMetadata) × (params : Params) × (last : Option LastBeacon) × (tables.gateways
          poc.beacon_report.report.pub_key
        ≡ some info)
      × (info.metadata ≡ some m)
      × (tables.regions m.region ≡ done params)
      × (tables.last_beacons poc.beacon_report.report.pub_key ≡ done last)
      × (scale ≡ tx_scale (tables.density m.location))
      × Admissible beacons duration_trunc deny_list poc.entropy_start poc.entropy_end
          poc.entropy_version last poc.beacon_report info params interval

  accepted :
      (r : VerifyResult) (info : GatewayInfo) (location : ℕ) (info' : GatewayInfo) (scale : ℕ)
      → Accepts (beacon_answer beacons duration_trunc deny_list tables r info location) info' scale
      → Passes r × (info ≡ info') × (scale ≡ tx_scale (tables.density location))
  accepted (ok _) info location info' scale h =
      let g = ap gateway_of h in let d = ap scale_of h in (refl, grind arith, grind arith)
  accepted (err r) info location info' scale h = let e = ap result_of h in grind arith
  accepted panic info location info' scale h = let e = ap result_of h in grind arith

  -- `verify_beacon` answers that a beacon is valid, for a gateway and with a scale, exactly if the
  -- gateway is the beacon's and is asserted, its region and its last beacon can be read, the beacon is
  -- admissible, and the scale is that of the gateway's location, or the default.
  pub verify_beacon-Confirmed :
      (poc : Poc) (interval : ℕ) (info : GatewayInfo) (scale : ℕ)
      → Accepts (verify_beacon beacons duration_trunc deny_list tables poc interval) info scale
        ↔ Confirmed poc interval info scale
  unfolding verify_beacon
  verify_beacon-Confirmed poc interval info scale = (
    from_gateway (tables.gateways poc.beacon_report.report.pub_key) refl,
    λ (m, params, last, g, n, r, l, e, a).
        let p =
          (do_beacon_verifications-Admissible beacons duration_trunc deny_list poc.entropy_start
              poc.entropy_end poc.entropy_version last poc.beacon_report info params interval).1
            a in
        ap (λ o. with_gateway beacons duration_trunc deny_list tables o poc interval) g
        ∙ ap (λ o. with_metadata beacons duration_trunc deny_list tables o poc interval info) n
        ∙ ap (λ x. with_region beacons duration_trunc deny_list tables x poc interval info m) r
        ∙ ap (λ x. with_last beacons duration_trunc deny_list tables x poc interval info m params) l
        ∙ ap (λ x. beacon_answer beacons duration_trunc deny_list tables x info m.location) p
        ∙ ap (λ x. ok (valid_beacon info x)) (sym e),
  )
    where
      from_last :
          (l : Reply Db (Option LastBeacon)) (i : GatewayInfo) (m : GatewayMetadata)
          (params : Params)
          → tables.last_beacons poc.beacon_report.report.pub_key ≡ l
          → Accepts
              (with_last beacons duration_trunc deny_list tables l poc interval i m params)
              info
              scale
          → (last : Option LastBeacon) × (i ≡ info)
            × (tables.last_beacons poc.beacon_report.report.pub_key ≡ done last)
            × (scale ≡ tx_scale (tables.density m.location))
            × Admissible beacons duration_trunc deny_list poc.entropy_start poc.entropy_end
                poc.entropy_version last poc.beacon_report i params interval
      from_last (failed e) i m params el h = let x = ap result_of h in grind arith
      from_last (done last) i m params el h =
          let (p, ei, es) = accepted _ i m.location info scale h in
          (
            last,
            ei,
            el,
            es,
            (do_beacon_verifications-Admissible beacons duration_trunc deny_list poc.entropy_start
                  poc.entropy_end poc.entropy_version last poc.beacon_report i params interval).0
                p,
          )

      from_region :
          (r : Reply Region Params) (i : GatewayInfo) (m : GatewayMetadata)
          → tables.gateways poc.beacon_report.report.pub_key ≡ some i
          → i.metadata ≡ some m
          → tables.regions m.region ≡ r
          → Accepts
              (with_region beacons duration_trunc deny_list tables r poc interval i m)
              info
              scale
          → Confirmed poc interval info scale
      from_region (failed e) i m eg em er h = let x = ap result_of h in grind arith
      from_region (done params) i m eg em er h =
          let (last, ei, el, es, a) = from_last _ i m params refl h in
          let (g, n, b) =
            subst
              (λ j.
                (tables.gateways poc.beacon_report.report.pub_key ≡ some j)
                × (j.metadata ≡ some m)
                × Admissible beacons duration_trunc deny_list poc.entropy_start poc.entropy_end
                    poc.entropy_version last poc.beacon_report j params interval)
              ei (eg, em, a) in
          (m, params, last, g, n, er, el, es, b)

      from_metadata :
          (o : Option GatewayMetadata) (i : GatewayInfo)
          → tables.gateways poc.beacon_report.report.pub_key ≡ some i
          → i.metadata ≡ o
          → Accepts
              (with_metadata beacons duration_trunc deny_list tables o poc interval i)
              info
              scale
          → Confirmed poc interval info scale
      from_metadata none i eg em h = let x = ap result_of h in grind arith
      from_metadata (some m) i eg em h = from_region _ i m eg em refl h

      from_gateway :
          (o : Option GatewayInfo)
          → tables.gateways poc.beacon_report.report.pub_key ≡ o
          → Accepts (with_gateway beacons duration_trunc deny_list tables o poc interval) info scale
          → Confirmed poc interval info scale
      from_gateway none eg h = let x = ap result_of h in grind arith
      from_gateway (some i) eg h = from_metadata _ i eg refl h
