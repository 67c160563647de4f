-- ===== src/PocRunner/Ticks.antt =====
-- iot_verifier/src/runner.rs: the beacons of a tick.
use oracles.Prelude.{
  ℕ, suc, ◌≡◌, refl, sym, subst, Bool, true, false, Bool-cases, inl, inr, zero, take, filter, ltb,
  lookup, ◌&&◌, List, [], ◌∷◌, Option, none, some, Dict,
}
use oracles.IotRewards.{Decimals}
use oracles.PocRunner.Units.{UnitDecimals}
use oracles.PocRunner.Reports.{Report}
use oracles.PocRunner.State.{Settings, Runner, RunnerError, Verifier, Reading, on_db}
use oracles.PocRunner.Conclude.{ingest_id}
use oracles.PocRunner.Attempts.{Keeps, IsCounted, Keeps-refl, Keeps-trans}
use oracles.PocRunner.Steady.{Post, Post-bind, Post-mono, Steady}
use oracles.PocRunner.Handler.{handle_beacon}
use oracles.PocRunner.Concluded.{IsHandled}
use oracles.PocRunner.Reports.{
  beacons_of, get_next_beacons, order_by, insert_by, join_entropy, joined, is_beacon, is_ready,
  EntropyRow,
}
use oracles.PocRunner.Handler.{handle_each, handle_db_tick}
use oracles.PocRunner.Steady.{get_next_beacons-Steady}
use oracles.PocRunner.Progress.{IsVerifier, IsLoaded, IsJoined, handle_beacon-IsHandled}

abbrev pub All : (Report → Type 0) → List Report → Type 0
All P [] = Unit {0}
All P (r ∷ rs) = P r × All P rs

All-mono :
    (P Q : Report → Type 0) (rs : List Report) → ((r : Report) → P r → Q r) → All P rs → All Q rs
All-mono P Q [] k h = tt
All-mono P Q (r ∷ rs) k h = (k r h.0, All-mono P Q rs k h.1)

module _ (P : Report → Type 0) where
  All-take : (n : ℕ) (rs : List Report) → All P rs → All P (take n rs)
  All-take zero rs h = tt
  All-take (suc n) [] h = tt
  All-take (suc n) (r ∷ rs) h = (h.0, All-take n rs h.1)

  All-filter :
      (p : Report → Bool) (rs : List Report) → All (λ r. p r ≡ true → P r) rs → All P (filter p rs)
  All-filter p [] h = tt
  All-filter p (r ∷ rs) h = elim (Bool-cases (p r)) [
    | inl e ↦ rw e (h.0 e, All-filter p rs h.1)
    | inr e ↦ rw e (All-filter p rs h.1)
  ]

  All-insert_by :
      (column : Report → ℕ) (r : Report) (rs : List Report)
      → P r
      → All P rs
      → All P (insert_by column r rs)
  unfolding insert_by
  All-insert_by column r [] p h = (p, tt)
  All-insert_by column r (x ∷ xs) p h = elim (Bool-cases (ltb (column x) (column r))) [
    | inl e ↦ rw e (h.0, All-insert_by column r xs p h.1)
    | inr e ↦ rw e (p, h)
  ]

  All-order_by : (column : Report → ℕ) (rs : List Report) → All P rs → All P (order_by column rs)
  unfolding order_by
  All-order_by column [] h = tt
  All-order_by column (r ∷ rs) h =
      All-insert_by column r (order_by column rs) h.0 (All-order_by column rs h.1)

module _ (reading : Reading) (t : List Report) where
  abbrev pub IsTaken : Report → Type 0
  IsTaken r = IsJoined r × IsLoaded reading t r

  joined-IsTaken :
      (time : ℕ) (r : Report) (o : Option EntropyRow)
      → IsLoaded reading t r
      → All IsTaken (joined time r o)
  joined-IsTaken time r none l = tt
  joined-IsTaken time r (some e) l = elim (Bool-cases (ltb e.timestamp time)) [
    | inl q ↦ rw q ((((e.timestamp, refl), (e.version, refl)), l), tt)
    | inr q ↦ rw q tt
  ]

  join_entropy-IsTaken :
      (time : ℕ) (entropy : Dict EntropyRow) (rs : List Report)
      → All (IsLoaded reading t) rs
      → All IsTaken (join_entropy time entropy rs)
  join_entropy-IsTaken time entropy [] h = tt
  join_entropy-IsTaken time entropy (r ∷ rs) h =
      let rest = join_entropy-IsTaken time entropy rs h.1 in
      first (joined time r (lookup r.remote_entropy entropy))
        (joined-IsTaken time r (lookup r.remote_entropy entropy) h.0) rest
    where
      first :
          (xs : List Report)
          → All IsTaken xs
          → All IsTaken (join_entropy time entropy rs)
          → All IsTaken (elim xs [
            | [] ↦ join_entropy time entropy rs
            | x ∷ _ ↦ x ∷ join_entropy time entropy rs
          ])
      first [] k rest = rest
      first (x ∷ xs) k rest = (k.0, rest)

  beacons_of-IsTaken :
      (now retries : ℕ) (entropy : Dict EntropyRow)
      → All (λ r. is_beacon r ≡ true → IsLoaded reading t r) t
      → All IsTaken (beacons_of now retries entropy t)
  beacons_of-IsTaken now retries entropy h = All-take IsTaken 25_000 _ (
      All-order_by IsTaken (λ r. r.created_at) _
        (join_entropy-IsTaken _ entropy _ (
          All-filter (IsLoaded reading t)
            (λ r. is_beacon r && (is_ready r && ltb r.attempts retries)) t
            (All-mono (λ r. is_beacon r ≡ true → IsLoaded reading t r) _ t
              (λ r l e. l (both (is_beacon r) _ e)) h))))
    where
      both : (a b : Bool) → (a && b) ≡ true → a ≡ true
      both true b e = refl
      both false b e = e

-- What a change of the table keeps of the beacons still to come.
IsTaken-Keeps :
    (reading : Reading) (t t' : List Report) (rs : List Report)
    → Keeps t t'
    → All (IsTaken reading t) rs
    → All (IsTaken reading t') rs
IsTaken-Keeps reading t t' rs k = All-mono (IsTaken reading t) (IsTaken reading t') rs (λ r h.
    (h.0, λ b e. ((h.1 b e).0, k.packets (ingest_id reading b) b.report.packet (h.1 b e).1)))

module _ {D E : Type 0} (settings : Settings) (verifier : Verifier E) (reading : Reading)
    (dec : Decimals D) (units : UnitDecimals D) (of_steps : ℕ → D)
    (good : IsVerifier verifier) where
  abbrev Counts : List Report → List Report → Runner D → Type 0
  Counts t rs u =
      (u.db.faults ≡ []) × Keeps t u.db.poc_report × All (λ r. IsCounted r.id t u.db.poc_report) rs

  handle_each-Counts :
      (t : List Report) (rs : List Report) (now : ℕ) (s : Runner D)
      → All (IsTaken reading t) rs
      → Steady t s
      → Post {E = RunnerError E}
          (λ _ u. Counts t rs u)
          (λ _. ⊥)
          (handle_each settings verifier reading dec units of_steps rs now s)
  unfolding handle_each
  handle_each-Counts t [] now s h k = (k.0, subst (Keeps t) (sym k.1) (Keeps-refl t), tt)
  handle_each-Counts t (r ∷ rs) now s h k =
      Post-bind (λ _ u. IsHandled t r.id u) (λ _ u. Counts t (r ∷ rs) u) (λ _. ⊥)
        (handle_beacon settings verifier reading dec units of_steps r now)
        (λ _. handle_each settings verifier reading dec units of_steps rs now) s
        (handle_beacon-IsHandled settings verifier reading dec units of_steps good t r now s h.0.0
          h.0.1 k)
        (λ _ u d.
          Post-mono (λ _ v. Counts u.db.poc_report rs v) (λ _ v. Counts t (r ∷ rs) v) (λ _. ⊥)
            (handle_each settings verifier reading dec units of_steps rs now u)
            (λ _ v c. (
              c.0,
              Keeps-trans d.1 c.1,
              (
                (λ n a. c.1.attempts r.id (suc n) (d.2 n a)),
                All-mono (λ q. IsCounted q.id u.db.poc_report v.db.poc_report)
                    (λ q. IsCounted q.id t v.db.poc_report) rs
                    (λ q i n a. i n (d.1.attempts q.id n a)) c.2,
              ),
            ))
            (handle_each-Counts u.db.poc_report rs now u
              (IsTaken-Keeps reading t u.db.poc_report rs d.1 h.1) (d.0, refl)))

  -- A tick neither fails nor panics, when no statement is to fail, the verification is as IsVerifier says and
  -- the beacons in the table are as the loader stores them. After it each beacon that was ready has left the
  -- table or has one more attempt at least, no row has lost attempts, and no row of another packet has come in.
  pub handle_db_tick-IsCounted :
      (now : ℕ) (s : Runner D)
      → s.db.faults ≡ []
      → All (λ r. is_beacon r ≡ true → IsLoaded reading s.db.poc_report r) s.db.poc_report
      → Post {E = RunnerError E}
          (λ _ u.
            (u.db.faults ≡ [])
            × Keeps s.db.poc_report u.db.poc_report
            × All
                (λ r. IsCounted r.id s.db.poc_report u.db.poc_report)
                (beacons_of now settings.beacon_max_retries s.db.entropy s.db.poc_report))
          (λ _. ⊥)
          (handle_db_tick settings verifier reading dec units of_steps now s)
  unfolding handle_db_tick
  handle_db_tick-IsCounted now s f l =
      let t = s.db.poc_report in
      let ready = beacons_of now settings.beacon_max_retries s.db.entropy t in
      Post-bind (λ bs u. Steady t u × (bs ≡ ready)) (λ _ u. Counts t ready u) (λ _. ⊥)
        (on_db (get_next_beacons now settings.beacon_max_retries))
        (λ bs. handle_each settings verifier reading dec units of_steps bs now) s
        (get_next_beacons-Steady E t s (f, refl) now settings.beacon_max_retries)
        (λ bs u k.
          subst
            (λ xs.
              Post {E = RunnerError E} (λ _ v. Counts t ready v) (λ _. ⊥)
                (handle_each settings verifier reading dec units of_steps xs now u))
            (sym k.1)
            (handle_each-Counts t ready now u
              (beacons_of-IsTaken reading t now settings.beacon_max_retries s.db.entropy l) k.0))
