-- ===== src/Poc/Witness/Loop.antt =====
-- The loop of `verify_witnesses` of iot_verifier/src/poc.rs.
use mathlib.Core.List.{append_assoc, append-nil}
use oracles.Prelude.{
  ℕ, ◌≡◌, refl, ap, sym, ◌∙◌, Bool, true, false, Option, List, [], ◌∷◌, ◌++◌, ok, ◌||◌, ◌==◌,
  ==_iff, arith, contains, contains-++,
}
use oracles.Poc.Types.{
  PublicKey, GatewayInfo, WitnessIngestReport, VerifiedWitness, duplicate, witness,
}
use oracles.Poc.Externals.{Cells, Floats, DenyList}
use oracles.Poc.Beacon.{Poc}
use oracles.Poc.Witness.{
  unlocated, verify_witness, Progress, step_on, push_answer, each, verify_witnesses, result_of,
  from_first,
}
use oracles.Poc.Witness.Answers.{verify_witness-About}

-- The keys of the reports.
abbrev pub keys : List WitnessIngestReport → List PublicKey
keys [] = []
keys (w ∷ ws) = w.report.pub_key ∷ keys ws

keys-++ : (xs ys : List WitnessIngestReport) → keys (xs ++ ys) ≡ keys xs ++ keys ys
keys-++ [] ys = refl
keys-++ (x ∷ xs) ys = ap (◌∷◌ x.report.pub_key) (keys-++ xs ys)

-- The start of the lag: the time of the first report.
abbrev pub first_received : List WitnessIngestReport → ℕ
first_received [] = 0
first_received (w ∷ ws) = w.received_timestamp

module _ {Cell F : Type 0} (cells : Cells Cell) (f64 : Floats F) (deny_list : DenyList)
    (gateways : PublicKey → Option GatewayInfo) (density : ℕ → Option ℕ) where
  -- The answer for a report that comes after the given ones: a duplicate exactly if one of them has
  -- its key, and otherwise what its own verification says.
  abbrev pub Verdict :
      Poc
      → GatewayInfo
      → ℕ
      → List WitnessIngestReport
      → WitnessIngestReport
      → VerifiedWitness
      → Type 0
  Verdict poc info first before w v =
      (contains (keys before) w.report.pub_key ≡ true → v ≡ unlocated duplicate w witness)
      × (contains (keys before) w.report.pub_key ≡ false
          → verify_witness cells f64 deny_list gateways density poc w info first ≡ ok v)

  -- One answer for each report, in their order.
  abbrev pub Verdicts :
      Poc
      → GatewayInfo
      → ℕ
      → List WitnessIngestReport
      → List WitnessIngestReport
      → List VerifiedWitness
      → Type 0
  Verdicts poc info first before [] [] = Unit {0}
  Verdicts poc info first before [] (v ∷ vs) = ⊥
  Verdicts poc info first before (w ∷ ws) [] = ⊥
  Verdicts poc info first before (w ∷ ws) (v ∷ vs) =
      Verdict poc info first before w v × Verdicts poc info first (before ++ (w ∷ [])) ws vs

  -- The set of keys that the loop has seen is that of the reports before.
  abbrev Seen : Progress cells f64 deny_list gateways density → List WitnessIngestReport → Type 0
  Seen p before = (k : PublicKey) → contains p.existing k ≡ contains (keys before) k

  -- What the rest of the loop makes of its progress.
  abbrev Continues :
      Poc
      → GatewayInfo
      → ℕ
      → List WitnessIngestReport
      → List WitnessIngestReport
      → Progress cells f64 deny_list gateways density
      → Type 0
  Continues poc info first before ws p =
      (q : Progress cells f64 deny_list gateways density) × (vs : List VerifiedWitness) × (each
          cells f64 deny_list gateways density poc info first ws (ok p)
        ≡ ok q)
      × (q.verified ≡ p.verified ++ vs)
      × (q.failed ≡ p.failed)
      × Verdicts poc info first before ws vs

  seen_keys :
      (before : List WitnessIngestReport) (w : WitnessIngestReport) (k : PublicKey)
      → contains (keys (before ++ (w ∷ []))) k
        ≡ (contains (keys before) k || (w.report.pub_key == k))
  seen_keys before w k =
      ap (λ l. contains l k) (keys-++ before (w ∷ []))
      ∙ contains-++ (keys before) (w.report.pub_key ∷ []) k
      ∙ grind arith

  -- One report, and then the rest of the loop.
  one-Continues :
      (poc : Poc) (info : GatewayInfo) (first : ℕ) (before ws : List WitnessIngestReport)
      (w : WitnessIngestReport) (p : Progress cells f64 deny_list gateways density)
      → Seen p before
      → ((q : Progress cells f64 deny_list gateways density)
          → Seen q (before ++ (w ∷ []))
          → Continues poc info first (before ++ (w ∷ [])) ws q)
      → (b : Bool) → contains p.existing w.report.pub_key ≡ b
      → (q : Progress cells f64 deny_list gateways density) × (vs : List VerifiedWitness) × (each
            cells f64 deny_list gateways density poc info first ws
            (step_on cells f64 deny_list gateways density b poc info first w p)
          ≡ ok q)
        × (q.verified ≡ p.verified ++ vs)
        × (q.failed ≡ p.failed)
        × Verdicts poc info first before (w ∷ ws) vs
  one-Continues poc info first before ws w p h rest true e =
      let v = unlocated duplicate w witness in
      let (q, vs, r, a, f, s) =
        rest (record p { verified = p.verified ++ (v ∷ []) })
          (λ k.
            let y = seen_keys before w k in
            let z = ==_iff w.report.pub_key k in
            let x = h k in let u = h w.report.pub_key in grind arith) in
      (
        q,
        v ∷ vs,
        r,
        a ∙ append_assoc p.verified (v ∷ []) vs,
        f,
        (((λ d. refl), (λ d. let u = h w.report.pub_key in grind arith)), s),
      )
  one-Continues poc info first before ws w p h rest false e =
      let (v, ev, er) =
        verify_witness-About cells f64 deny_list gateways density poc w info first in
      let (q, vs, r, a, f, s) =
        rest
          (record {
            verified = p.verified ++ (v ∷ []);
            failed = p.failed;
            existing = p.existing ++ (v.report.pub_key ∷ []);
          })
          (λ k.
            let y = seen_keys before w k in
            let c = contains-++ p.existing (v.report.pub_key ∷ []) k in
            let x = h k in let g = ap (λ r. r.pub_key) er in grind arith) in
      (
        q,
        v ∷ vs,
        ap
              (λ x.
                each cells f64 deny_list gateways density poc info first ws
                  (push_answer cells f64 deny_list gateways density x w p))
              ev
            ∙ r,
        a ∙ append_assoc p.verified (v ∷ []) vs,
        f,
        (((λ d. let u = h w.report.pub_key in grind arith), (λ d. ev)), s),
      )

  each-Continues :
      (poc : Poc) (info : GatewayInfo) (first : ℕ) (before ws : List WitnessIngestReport)
      (p : Progress cells f64 deny_list gateways density)
      → Seen p before
      → Continues poc info first before ws p
  each-Continues poc info first before [] p h = (p, [], refl, sym (append-nil p.verified), refl, tt)
  each-Continues poc info first before (w ∷ ws) p h =
      one-Continues poc info first before ws w p h
        (each-Continues poc info first (before ++ (w ∷ [])) ws)
        (contains p.existing w.report.pub_key) refl

  -- `verify_witnesses` returns, no report fails, and each report has one answer, in their order: a
  -- report whose key an earlier one has is a duplicate, and every other one gets the answer of its own
  -- verification.
  pub verify_witnesses-Verdicts :
      (poc : Poc) (info : GatewayInfo)
      → (vs : List VerifiedWitness) × (verify_witnesses cells f64 deny_list gateways density poc
            info
          ≡ ok (record { verified_witnesses = vs; failed_witnesses = [] }))
        × Verdicts poc info (first_received poc.witness_reports) [] poc.witness_reports vs
  unfolding verify_witnesses
  verify_witnesses-Verdicts poc info = of_reports poc.witness_reports
    where
      of_reports :
          (ws : List WitnessIngestReport)
          → (vs : List VerifiedWitness) × (result_of cells f64 deny_list gateways density
                (from_first cells f64 deny_list gateways density poc info ws)
              ≡ ok (record { verified_witnesses = vs; failed_witnesses = [] }))
            × Verdicts poc info (first_received ws) [] ws vs
      of_reports [] = ([], refl, tt)
      of_reports (w ∷ ws) =
          let (q, vs, r, a, f, s) =
            each-Continues poc info w.received_timestamp [] (w ∷ ws)
              (record { verified = []; failed = []; existing = [] }) (λ k. refl) in
          (
            vs,
            ap (result_of cells f64 deny_list gateways density) r
                ∙ ap (λ x. ok (record { verified_witnesses = x; failed_witnesses = q.failed })) a
                ∙ ap (λ x. ok (record { verified_witnesses = vs; failed_witnesses = x })) f,
            s,
          )
