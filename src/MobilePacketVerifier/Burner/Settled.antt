-- ===== src/MobilePacketVerifier/Burner/Settled.antt =====
-- mobile_packet_verifier/src/burner.rs: what one payer's round does to the table, the sink and the chain.
use mathlib.Core.List.{append-nil, append_assoc}
use oracles.Prelude.{
  ℕ, ◌+◌, ◌≡◌, refl, sym, ap, ◌∙◌, arith, Bool, true, false, ◌&&◌, List, [], ◌∷◌, ◌++◌, map, Ends,
  Ends-bind, Ends-mono, Reply, done, failed, ◌==◌, if◌then◌else◌, List-cases, inl, inr,
}
use oracles.PacketVerifier.Solana.{SolanaNetwork}
use oracles.PacketVerifier.Verifier.{write}
use oracles.MobilePacketVerifier.Accumulate.{DataTransferSession, Tables, execute}
use oracles.MobilePacketVerifier.Burner.{
  PayerTotals, valid_session, Burning, BurnError, without_payer, delete_payer, on_pool, write_valid,
  write_each, settle_payer, burn_data_credits,
}

abbrev pub is_done : {E A : Type 0} → Reply E A → Bool
is_done (done a) = true
is_done (failed e) = false

-- What the burner relies on of the chain, where `paid` is what each payer has paid on it: a transaction
-- that is submitted takes its amount from its payer once or not at all, it does so where the submission
-- succeeds, and where it fails the transaction may have gone through or not. No other call takes
-- anything.
pub record IsLedger {Chain E Transaction : Type 0} (solana : SolanaNetwork Chain E Transaction)
    (paid : Chain → ℕ → ℕ) : Type 0 where
  pub taken : Transaction → Chain → Bool
  pub asks : (payer : ℕ) (c : Chain) (q : ℕ) → paid (solana.payer_balance payer c).1 q ≡ paid c q
  pub makes :
      (payer amount : ℕ) (c : Chain) (q : ℕ)
      → paid (solana.make_burn_transaction payer amount c).1 q ≡ paid c q
  pub submits :
      (payer amount : ℕ) (c c' : Chain) (txn : Transaction) (q : ℕ)
      → (solana.make_burn_transaction payer amount c).0 ≡ done txn
      → paid (solana.submit_transaction txn c').1 q
        ≡ paid c' q + (if taken txn c' && (payer == q) then amount else 0)
  pub takes :
      (c' : Chain) (txn : Transaction)
      → is_done (solana.submit_transaction txn c').0 ≡ true
      → taken txn c' ≡ true

module _ {Chain : Type 0} where
  -- What has changed: nothing but what is written.
  abbrev HasWritten : List DataTransferSession → Burning Chain → Burning Chain → Type 0
  HasWritten ss v w =
      (w.chain ≡ v.chain)
      × (w.pool.tables ≡ v.pool.tables)
      × (w.valid_sessions.written ≡ v.valid_sessions.written ++ map valid_session ss)

module _ {Chain : Type 0} (E : Type 0) where
  write_valid-HasWritten :
      (s : DataTransferSession) (v : Burning Chain)
      → Ends {E = BurnError E} (λ _ w. HasWritten (s ∷ []) v w) (write_valid s v)
  unfolding write_valid write
  write_valid-HasWritten s v = elim (List-cases v.valid_sessions.faults) [
    | inl e ↦ rw e (refl, refl, refl)
    | inr (true, r, e) ↦ rw e tt
    | inr (false, r, e) ↦ rw e (refl, refl, refl)
  ]

  write_each-HasWritten :
      (ss : List DataTransferSession) (v : Burning Chain)
      → Ends {E = BurnError E} (λ _ w. HasWritten ss v w) (write_each ss v)
  unfolding write_each
  write_each-HasWritten [] v = (refl, refl, sym (append-nil _))
  write_each-HasWritten (s ∷ ss) v =
      Ends-bind _ _ (write_valid s) (λ _. write_each ss) v (write_valid-HasWritten s v)
        (λ _ u h.
          Ends-mono _ _ (write_each ss u)
            (λ _ w k. (
              k.0 ∙ h.0,
              k.1 ∙ h.1,
              k.2
                  ∙ ap (λ l. l ++ map valid_session ss) h.2
                  ∙ append_assoc v.valid_sessions.written (valid_session s ∷ []) _,
            ))
            (write_each-HasWritten ss u))

  delete_payer-Ends :
      (payer : ℕ) (v : Burning Chain)
      → Ends {E = BurnError E}
          (λ _ w.
            (w.chain ≡ v.chain)
            × (w.pool.tables.sessions ≡ without_payer payer v.pool.tables.sessions)
            × (w.valid_sessions.written ≡ v.valid_sessions.written))
          (on_pool (delete_payer payer) v)
  unfolding on_pool delete_payer execute
  delete_payer-Ends payer v = elim (List-cases v.pool.faults) [
    | inl e ↦ rw e (refl, refl, refl)
    | inr (true, r, e) ↦ rw e tt
    | inr (false, r, e) ↦ rw e (refl, refl, refl)
  ]

  pub settle_payer-Ends :
      (payer : ℕ) (totals : PayerTotals) (v : Burning Chain)
      → Ends {E = BurnError E}
          (λ _ w.
            (w.chain ≡ v.chain)
            × (w.pool.tables.sessions ≡ without_payer payer v.pool.tables.sessions)
            × (w.valid_sessions.written
                ≡ v.valid_sessions.written ++ map valid_session totals.sessions))
          (settle_payer payer totals true v)
  unfolding settle_payer
  settle_payer-Ends payer totals v =
      Ends-bind _ _ (on_pool (delete_payer payer)) (λ _. write_each totals.sessions) v
        (delete_payer-Ends payer v)
        (λ _ u h.
          Ends-mono _ _ (write_each totals.sessions u)
            (λ _ w k. (
              k.0 ∙ h.0,
              ap (λ (t : Tables). t.sessions) k.1 ∙ h.1,
              k.2 ∙ ap (λ l. l ++ map valid_session totals.sessions) h.2,
            ))
            (write_each-HasWritten totals.sessions u))

module _ {Chain E Transaction : Type 0} (solana : SolanaNetwork Chain E Transaction)
    (paid : Chain → ℕ → ℕ) where
  -- A payer's round: where it is settled, its sessions leave the table for the sink; where it is charged,
  -- it has paid their cost. One that is settled is charged.
  pub record IsRound (b c : Bool) (e : ℕ × PayerTotals) (v w : Burning Chain) : Type 0 where
    pub charged : b ≡ true → c ≡ true
    pub sessions :
        w.pool.tables.sessions
        ≡ (if b then without_payer e.0 v.pool.tables.sessions else v.pool.tables.sessions)
    pub written :
        w.valid_sessions.written
        ≡ v.valid_sessions.written ++ (if b then map valid_session e.1.sessions else [])
    pub pays :
        (q : ℕ) → paid w.chain q ≡ paid v.chain q + (if c && (e.0 == q) then e.1.total_dcs else 0)

  -- A burn of the amount that has answered, or not, with the payer charged once or not at all.
  abbrev pub Charges : ℕ → ℕ → Chain → Bool → Chain → Type 0
  Charges payer amount c b c' =
      (t : Bool) × (b ≡ true → t ≡ true)
      × ((q : ℕ) → paid c' q ≡ paid c q + (if t && (payer == q) then amount else 0))

  module _ (ledger : IsLedger solana paid) where
    pub burn_data_credits-Charges :
        (payer amount : ℕ) (c : Chain)
        → Charges payer amount c
            (is_done (burn_data_credits solana payer amount c).0)
            (burn_data_credits solana payer amount c).1
    unfolding burn_data_credits
    burn_data_credits-Charges payer amount c =
        by_answer (solana.make_burn_transaction payer amount c) refl
      where
        submitted : Reply E Transaction × Chain → Reply E (Unit {0}) × Chain
        submitted r = elim r.0 [
          | done txn ↦ solana.submit_transaction txn r.1
          | failed e ↦ (failed e, r.1)
        ]

        by_answer :
            (r : Reply E Transaction × Chain)
            → solana.make_burn_transaction payer amount c ≡ r
            → Charges payer amount c (is_done (submitted r).0) (submitted r).1
        by_answer (done txn, c') e = (
          ledger.taken txn c',
          ledger.takes c' txn,
          λ q.
              ledger.submits payer amount c c' txn q (ap (λ x. x.0) e)
              ∙ ap (λ n. n + (if ledger.taken txn c' && (payer == q) then amount else 0))
                  (ap (λ (x : Reply E Transaction × Chain). paid x.1 q) (sym e)
                    ∙ ledger.makes payer amount c q),
        )
        by_answer (failed x, c') e = (
          false,
          λ h. absurd (cc h),
          λ q.
              ap (λ (x : Reply E Transaction × Chain). paid x.1 q) (sym e)
              ∙ ledger.makes payer amount c q
              ∙ omega arith,
        )
