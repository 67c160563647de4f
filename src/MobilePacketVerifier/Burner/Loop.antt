-- ===== src/MobilePacketVerifier/Burner/Loop.antt =====
-- mobile_packet_verifier/src/burner.rs: all rounds of the loop over the payers.
use mathlib.Core.List.{append-nil, append_assoc}
use oracles.Prelude.{
  ℕ, ◌+◌, ◌≡◌, refl, sym, ap, ◌∙◌, arith, Bool, true, false, List, [], ◌∷◌, ◌++◌, map, Ends,
  contains, Ends-bind, Ends-mono, Dict, ◌==◌, if◌then◌else◌,
}
use oracles.PacketVerifier.Solana.{SolanaNetwork}
use oracles.MobilePacketVerifier.Accumulate.{DataTransferSession}
use oracles.MobilePacketVerifier.Burner.{
  PayerTotals, ValidDataTransferSession, valid_session, Burning, without_payer, burn_payer,
}
use oracles.MobilePacketVerifier.Burner.{burn_each}
use oracles.MobilePacketVerifier.Burner.Settled.{IsLedger, IsRound}
use oracles.MobilePacketVerifier.Burner.Rounds.{HasRound, burn_payer-HasRound}

abbrev pub payers : Dict PayerTotals → List ℕ
payers [] = []
payers (e ∷ es) = e.0 ∷ payers es

-- Some of the entries, in their order.
abbrev pub chosen : List Bool → Dict PayerTotals → Dict PayerTotals
chosen [] es = []
chosen (b ∷ bs) [] = []
chosen (b ∷ bs) (e ∷ es) = if b then e ∷ chosen bs es else chosen bs es

abbrev pub without_all : Dict PayerTotals → List DataTransferSession → List DataTransferSession
without_all [] ss = ss
without_all (e ∷ es) ss = without_all es (without_payer e.0 ss)

abbrev pub all_written : Dict PayerTotals → List ValidDataTransferSession
all_written [] = []
all_written (e ∷ es) = map valid_session e.1.sessions ++ all_written es

abbrev pub all_paid : ℕ → Dict PayerTotals → ℕ
all_paid q [] = 0
all_paid q (e ∷ es) = (if e.0 == q then e.1.total_dcs else 0) + all_paid q es

module _ {Chain E Transaction : Type 0} (solana : SolanaNetwork Chain E Transaction)
    (paid : Chain → ℕ → ℕ) where
  -- The payers of `settled` have left the table for the sink, and those of `charged` have paid.
  pub record HasRounds (settled charged : Dict PayerTotals) (v w : Burning Chain) : Type 0 where
    pub within : (q : ℕ) → contains (payers settled) q ≡ true → contains (payers charged) q ≡ true
    pub sessions : w.pool.tables.sessions ≡ without_all settled v.pool.tables.sessions
    pub written : w.valid_sessions.written ≡ v.valid_sessions.written ++ all_written settled
    pub pays : (q : ℕ) → paid w.chain q ≡ paid v.chain q + all_paid q charged

  round-HasRounds :
      (b c : Bool) (bs cs : List Bool) (e : ℕ × PayerTotals) (es : Dict PayerTotals)
      (v u w : Burning Chain)
      → IsRound solana paid b c e v u
      → HasRounds (chosen bs es) (chosen cs es) u w
      → HasRounds (chosen (b ∷ bs) (e ∷ es)) (chosen (c ∷ cs) (e ∷ es)) v w
  round-HasRounds false false bs cs e es v u w h k = record {
    within = k.within;
    sessions = k.sessions ∙ ap (without_all (chosen bs es)) h.sessions;
    written = k.written ∙ ap (λ l. l ++ all_written (chosen bs es)) (h.written ∙ append-nil _);
    pays = λ q. omega (arith, k.pays q, h.pays q);
  }
  round-HasRounds false true bs cs e es v u w h k = record {
    within = λ q x. let y = k.within q x in ground arith;
    sessions = k.sessions ∙ ap (without_all (chosen bs es)) h.sessions;
    written = k.written ∙ ap (λ l. l ++ all_written (chosen bs es)) (h.written ∙ append-nil _);
    pays = λ q. k.pays q ∙ omega (arith, h.pays q);
  }
  round-HasRounds true true bs cs e es v u w h k = record {
    within = λ q x. let y = k.within q in grind arith;
    sessions = k.sessions ∙ ap (without_all (chosen bs es)) h.sessions;
    written =
        k.written
        ∙ ap (λ l. l ++ all_written (chosen bs es)) h.written
        ∙ append_assoc v.valid_sessions.written (map valid_session e.1.sessions) _;
    pays = λ q. k.pays q ∙ omega (arith, h.pays q);
  }
  round-HasRounds true false bs cs e es v u w h k = absurd (cc (h.charged refl))

  -- Some rounds settle their payers, and some charge them.
  abbrev pub SomeRounds : Dict PayerTotals → Burning Chain → Burning Chain → Type 0
  SomeRounds es v w =
      (bs : List Bool) × (cs : List Bool) × HasRounds (chosen bs es) (chosen cs es) v w

  pub burn_each-SomeRounds :
      IsLedger solana paid
      → (es : Dict PayerTotals) (v : Burning Chain)
      → Ends (λ _ w. SomeRounds es v w) (burn_each solana es v)
  unfolding burn_each
  burn_each-SomeRounds ledger [] v = (
    [],
    [],
    record {
      within = λ q h. h;
      sessions = refl;
      written = sym (append-nil _);
      pays = λ q. omega arith;
    },
  )
  burn_each-SomeRounds ledger ((payer, totals) ∷ es) v =
      Ends-bind (λ _ u. HasRound solana paid (payer, totals) v u)
        (λ _ w. SomeRounds ((payer, totals) ∷ es) v w) (burn_payer solana (payer, totals))
        (λ _. burn_each solana es) v (burn_payer-HasRound solana paid ledger payer totals v)
        (λ _ u (b, c, h).
          Ends-mono (λ _ w. SomeRounds es u w) (λ _ w. SomeRounds ((payer, totals) ∷ es) v w)
            (burn_each solana es u)
            (λ _ w (bs, cs, k).
              (b ∷ bs, c ∷ cs, round-HasRounds b c bs cs (payer, totals) es v u w h k))
            (burn_each-SomeRounds ledger es u))
