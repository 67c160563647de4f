-- ===== src/PocRunner/Steady/Saved.antt =====
-- iot_verifier/src/runner.rs: the statements on the tables alone, while none is to fail.
use oracles.Prelude.{ℕ, ◌≡◌, sym, ap, subst, List, [], ◌∷◌, Outcome, ok, err, panic, map}
use oracles.PacketVerifier.Pending.{SqlxError}
use oracles.IotRewards.{GatewayPocShare, save_poc_share}
use oracles.PocRunner.Reports.{Report, Db, count_attempt, update_attempts, save, save_each}
use oracles.PocRunner.State.{Runner, RunnerError, on_db}
use oracles.PocRunner.Steady.{Post, Post-bind, Steady, statement-run}

-- The loop over the shares of a proof of coverage.
abbrev pub SteadyDb : {D : Type 0} → List Report → Db D → Type 0
SteadyDb t d = (d.faults ≡ []) × (d.poc_report ≡ t)

save-SteadyDb :
    {D : Type 0} (t : List Report) (share : GatewayPocShare D) (d : Db D)
    → SteadyDb t d
    → Post (λ _ u. SteadyDb t u) (SteadyDb t) (save share d)
unfolding save
save-SteadyDb t share d h =
    subst (Post (λ _ u. SteadyDb t u) (SteadyDb t))
      (sym (
        statement-run
          (λ db. (ok tt, record db { open_shares = (save_poc_share share db.open_shares).1 })) d
          h.0))
      h

save_each-SteadyDb :
    {D : Type 0} (t : List Report) (shares : List (GatewayPocShare D)) (d : Db D)
    → SteadyDb t d
    → Post (λ _ u. SteadyDb t u) (SteadyDb t) (save_each shares d)
unfolding save_each
save_each-SteadyDb t [] d h = h
save_each-SteadyDb t (share ∷ shares) d h =
    Post-bind (λ _ u. SteadyDb t u) (λ _ u. SteadyDb t u) (SteadyDb t) (save share)
      (λ _. save_each shares) d (save-SteadyDb t share d h)
      (λ _ u k. save_each-SteadyDb t shares u k)

pub save_each-Steady :
    {D : Type 0} (E : Type 0) (t : List Report) (shares : List (GatewayPocShare D)) (s : Runner D)
    → Steady t s
    → Post {E = RunnerError E} (λ _ u. Steady t u) (Steady t) (on_db (save_each shares) s)
unfolding on_db
save_each-Steady {D} E t shares s h =
    lifted (save_each shares s.db) (save_each-SteadyDb t shares s.db h)
  where
    lifted :
        (r : Outcome SqlxError (Unit {0}) × Db D)
        → Post (λ _ u. SteadyDb t u) (SteadyDb t) r
        → Post {E = RunnerError E} (λ _ u. Steady t u) (Steady t) (on_db (λ _. r) s)
    lifted (ok a, d) k = k
    lifted (err e, d) k = k
    lifted (panic, d) k = k

-- The statement that counts an attempt.
pub update_attempts-counts :
    {D : Type 0} (t : List Report) (id now : ℕ) (d : Db D)
    → SteadyDb t d
    → SteadyDb (map (count_attempt id now) t) (update_attempts id now d).1
unfolding update_attempts
update_attempts-counts {D} t id now d h =
    subst (λ (x : Outcome SqlxError (Unit {0}) × Db D). SteadyDb (map (count_attempt id now) t) x.1)
      (sym (
        statement-run
          (λ db. (ok tt, record db { poc_report = map (count_attempt id now) db.poc_report })) d
          h.0))
      (h.0, ap (map (count_attempt id now)) h.1)
