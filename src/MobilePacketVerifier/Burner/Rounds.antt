-- ===== src/MobilePacketVerifier/Burner/Rounds.antt =====
-- mobile_packet_verifier/src/burner.rs: the rounds of the loop over the payers.
use mathlib.Core.List.{append-nil}
use oracles.Prelude.{
  ℕ, ◌+◌, ◌≡◌, refl, sym, ap, ◌∙◌, arith, Bool, true, false, not, ◌&&◌, ◌++◌, map, Ends, Ends-bind,
  Ends-mono, Reply, done, failed, Call, ltb, ◌==◌, if◌then◌else◌,
}
use oracles.PacketVerifier.Solana.{SolanaNetwork}
use oracles.PacketVerifier.Verifier.{Sink}
use oracles.MobilePacketVerifier.Accumulate.{Db}
use oracles.MobilePacketVerifier.Burner.{
  PayerTotals, ValidDataTransferSession, valid_session, Burning, BurnError, without_payer,
  on_solana, attempt, settle_payer, burn_data_credits, burn_covered, burn_payer,
}
use oracles.MobilePacketVerifier.Burner.Settled.{
  is_done, IsLedger, IsRound, Charges, settle_payer-Ends, burn_data_credits-Charges,
}

module _ {Chain E : Type 0} where
  attempt-Ends :
      {A : Type 0} (P : Bool → Chain → Type 0) (m : Call Chain E A) (v : Burning Chain)
      → P (is_done (m v.chain).0) (m v.chain).1
      → Ends {E = BurnError E}
          (λ b u. P b u.chain × (u.pool ≡ v.pool) × (u.valid_sessions ≡ v.valid_sessions))
          (attempt m v)
  unfolding attempt
  attempt-Ends {A = A} P m v = by_reply (m v.chain)
    where
      by_reply :
          (r : Reply E A × Chain)
          → P (is_done r.0) r.1
          → Ends {E = BurnError E}
              (λ b u. P b u.chain × (u.pool ≡ v.pool) × (u.valid_sessions ≡ v.valid_sessions))
              (attempt (λ _. r) v)
      by_reply (done a, c) h = (h, refl, refl)
      by_reply (failed e, c) h = (h, refl, refl)

  on_solana-Ends :
      {A : Type 0} (P : Chain → Type 0) (m : Call Chain E A) (v : Burning Chain)
      → P (m v.chain).1
      → Ends {E = BurnError E}
          (λ _ u. P u.chain × (u.pool ≡ v.pool) × (u.valid_sessions ≡ v.valid_sessions))
          (on_solana m v)
  unfolding on_solana
  on_solana-Ends {A = A} P m v = by_reply (m v.chain)
    where
      by_reply :
          (r : Reply E A × Chain)
          → P r.1
          → Ends {E = BurnError E}
              (λ _ u. P u.chain × (u.pool ≡ v.pool) × (u.valid_sessions ≡ v.valid_sessions))
              (on_solana (λ _. r) v)
      by_reply (done a, c) h = (h, refl, refl)
      by_reply (failed e, c) h = tt

module _ {Chain E Transaction : Type 0} (solana : SolanaNetwork Chain E Transaction)
    (paid : Chain → ℕ → ℕ) where
  -- The burn has been answered, or not; the table and the sink are as before.
  abbrev IsPaid : ℕ → ℕ → Burning Chain → Bool → Burning Chain → Type 0
  IsPaid payer amount v b u =
      Charges solana paid payer amount v.chain b u.chain
      × (u.pool ≡ v.pool)
      × (u.valid_sessions ≡ v.valid_sessions)

  abbrev PaysFrom : ℕ → ℕ → Burning Chain → Burning Chain → Bool → Burning Chain → Type 0
  PaysFrom payer amount v u b x =
      Charges solana paid payer amount v.chain b x.chain
      × (x.pool ≡ u.pool)
      × (x.valid_sessions ≡ u.valid_sessions)

  -- How a round ends.
  abbrev pub HasRound : ℕ × PayerTotals → Burning Chain → Burning Chain → Type 0
  HasRound e v w = (b : Bool) × (c : Bool) × IsRound solana paid b c e v w

  settle-HasRound :
      (payer : ℕ) (totals : PayerTotals) (b : Bool) (v u : Burning Chain)
      → IsPaid payer totals.total_dcs v b u
      → Ends {E = BurnError E} (λ _ w. HasRound (payer, totals) v w) (settle_payer payer totals b u)
  unfolding settle_payer
  settle-HasRound payer totals false v u ((t, i, h), p, s) = (
    false,
    t,
    record {
      charged = i;
      sessions = ap (λ (d : Db). d.tables.sessions) p;
      written = ap (λ (s : Sink ValidDataTransferSession). s.written) s ∙ sym (append-nil _);
      pays = h;
    },
  )
  settle-HasRound payer totals true v u ((t, i, h), p, s) =
      Ends-mono _ _ (settle_payer payer totals true u)
        (λ _ w k. (
          true,
          t,
          record {
            charged = i;
            sessions = k.1 ∙ ap (λ (d : Db). without_payer payer d.tables.sessions) p;
            written =
                k.2
                ∙ ap
                    (λ (s : Sink ValidDataTransferSession).
                      s.written ++ map valid_session totals.sessions)
                    s;
            pays = λ q. ap (λ c. paid c q) k.0 ∙ h q;
          },
        ))
        (settle_payer-Ends E payer totals u)

  module _ (ledger : IsLedger solana paid) where
    -- The burn of an amount, after calls that took nothing.
    charged :
        (payer amount : ℕ) (c c' : Chain)
        → ((q : ℕ) → paid c' q ≡ paid c q)
        → Charges solana paid payer amount c
            (is_done (burn_data_credits solana payer amount c').0)
            (burn_data_credits solana payer amount c').1
    charged payer amount c c' same =
        let (t, i, h) = burn_data_credits-Charges solana paid ledger payer amount c' in
        (t, i, λ q. h q ∙ ap (λ n. n + (if t && (payer == q) then amount else 0)) (same q))

    burn_covered-HasRound :
        (payer : ℕ) (totals : PayerTotals) (b : Bool) (v u : Burning Chain)
        → ((q : ℕ) → paid u.chain q ≡ paid v.chain q)
        → u.pool ≡ v.pool
        → u.valid_sessions ≡ v.valid_sessions
        → Ends (λ _ w. HasRound (payer, totals) v w) (burn_covered solana payer totals b u)
    unfolding burn_covered
    burn_covered-HasRound payer totals false v u same p s =
        settle-HasRound payer totals false v u
          ((false, (λ h. absurd (cc h)), λ q. same q ∙ omega arith), p, s)
    burn_covered-HasRound payer totals true v u same p s =
        Ends-bind (IsPaid payer totals.total_dcs v) (λ _ w. HasRound (payer, totals) v w)
          (attempt (burn_data_credits solana payer totals.total_dcs))
          (λ b. settle_payer payer totals b) u
          (Ends-mono (PaysFrom payer totals.total_dcs v u) (IsPaid payer totals.total_dcs v)
            (attempt (burn_data_credits solana payer totals.total_dcs) u)
            (λ b x k. (k.0, k.1 ∙ p, k.2 ∙ s))
            (attempt-Ends (λ b c. Charges solana paid payer totals.total_dcs v.chain b c)
              (burn_data_credits solana payer totals.total_dcs) u
              (charged payer totals.total_dcs v.chain u.chain same)))
          (λ b x k. settle-HasRound payer totals b v x k)

    pub burn_payer-HasRound :
        (payer : ℕ) (totals : PayerTotals) (v : Burning Chain)
        → Ends (λ _ w. HasRound (payer, totals) v w) (burn_payer solana (payer, totals) v)
    unfolding burn_payer
    burn_payer-HasRound payer totals v =
        Ends-bind
          (λ _ u.
            ((q : ℕ) → paid u.chain q ≡ paid v.chain q)
            × (u.pool ≡ v.pool)
            × (u.valid_sessions ≡ v.valid_sessions))
          (λ _ w. HasRound (payer, totals) v w) (on_solana (solana.payer_balance payer))
          (λ balance. burn_covered solana payer totals (not (ltb balance totals.total_dcs))) v
          (on_solana-Ends (λ c. (q : ℕ) → paid c q ≡ paid v.chain q) (solana.payer_balance payer) v
            (λ q. ledger.asks payer v.chain q))
          (λ balance u h.
            burn_covered-HasRound payer totals (not (ltb balance totals.total_dcs)) v u h.0 h.1 h.2)
