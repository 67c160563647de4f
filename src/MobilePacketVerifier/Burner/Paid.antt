-- ===== src/MobilePacketVerifier/Burner/Paid.antt =====
-- mobile_packet_verifier/src/burner.rs: what a burn takes from the payers, and what it writes for that.
use oracles.Prelude.{
  subst, contains, lookup, Keyed, filter, ap, ℕ, ◌+◌, ◌≡◌, refl, sym, ◌∙◌, Bool, true, false, not,
  List, [], ◌++◌, Ends, Ends-bind, Ends-mono, Dict, if◌then◌else◌, List-cases, inl, inr,
}
use oracles.PacketVerifier.Balances.{u64}
use oracles.PacketVerifier.Solana.{SolanaNetwork}
use oracles.MobilePacketVerifier.Accumulate.{DataTransferSession, Tables, execute}
use oracles.MobilePacketVerifier.Burner.{PayerTotals, Burning, BurnError, on_pool}
use oracles.MobilePacketVerifier.Burner.{burn_each}
use oracles.MobilePacketVerifier.Burner.Settled.{IsLedger}
use oracles.MobilePacketVerifier.Burner.{burn, fetch_all, group_by_payer}
use oracles.MobilePacketVerifier.Burner.Totals.{
  of_payer, cost, IsTotal, group_by_payer-AreTotals, group_by_payer-Keyed,
}
use oracles.MobilePacketVerifier.Burner.Loop.{
  payers, chosen, HasRounds, SomeRounds, burn_each-SomeRounds,
}
use oracles.MobilePacketVerifier.Burner.Entries.{
  NoRepeat, written_for, chosen-Keyed, Keyed-NoRepeat, without_all-filter, AllTotals,
  chosen-AllTotals, entries-AllTotals, all_written-for, all_paid-cost,
}

-- The order in which a HashMap is gone through gives each of its entries once.
pub record IsOrder (order : Dict PayerTotals → Dict PayerTotals) : Type 0 where
  pub keyed : (d : Dict PayerTotals) → Keyed d → Keyed (order d)
  pub same : (d : Dict PayerTotals) (k : ℕ) → Keyed d → lookup k (order d) ≡ lookup k d

fetch_all-Ends :
    {Chain : Type 0} (E : Type 0) (v : Burning Chain)
    → Ends {E = BurnError E}
        (λ ss u.
          (ss ≡ v.pool.tables.sessions)
          × (u.pool.tables ≡ v.pool.tables)
          × (u.chain ≡ v.chain)
          × (u.valid_sessions ≡ v.valid_sessions))
        (on_pool fetch_all v)
unfolding on_pool fetch_all execute
fetch_all-Ends E v = elim (List-cases v.pool.faults) [
  | inl e ↦ rw e (refl, refl, refl, refl)
  | inr (true, r, e) ↦ rw e tt
  | inr (false, r, e) ↦ rw e (refl, refl, refl, refl)
]

module _ {Chain E Transaction : Type 0} (solana : SolanaNetwork Chain E Transaction)
    (paid : Chain → ℕ → ℕ) (order : Dict PayerTotals → Dict PayerTotals) where
  -- The sessions of the payers `settled` are written out and gone from the table, and the payers
  -- `charged`, which are these and maybe others, have paid for their sessions.
  pub record HasBurned (settled charged : List ℕ) (v w : Burning Chain) : Type 0 where
    pub settled_once : NoRepeat settled
    pub charged_once : NoRepeat charged
    pub within : (q : ℕ) → contains settled q ≡ true → contains charged q ≡ true
    pub sessions :
        w.pool.tables.sessions ≡ filter (λ s. not (contains settled s.payer)) v.pool.tables.sessions
    pub written :
        w.valid_sessions.written
        ≡ v.valid_sessions.written ++ written_for settled v.pool.tables.sessions
    pub pays :
        (q : ℕ)
        → paid w.chain q
          ≡ paid v.chain q
            + (if contains charged q then u64 (cost (of_payer q v.pool.tables.sessions)) else 0)

  abbrev pub Burnt : Burning Chain → Burning Chain → Type 0
  Burnt v w = (settled : List ℕ) × (charged : List ℕ) × HasBurned settled charged v w

  ordered-AllTotals :
      IsOrder order
      → (ss : List DataTransferSession)
      → Keyed (order (group_by_payer ss [])) × AllTotals ss (order (group_by_payer ss []))
  ordered-AllTotals o ss =
      let d = group_by_payer ss [] in
      let k = group_by_payer-Keyed ss [] tt in
      (
        o.keyed d k,
        entries-AllTotals ss (order d) (o.keyed d k) (λ p t e.
            subst (IsTotal (of_payer p ss)) (sym (o.same d p k) ∙ e)
              (group_by_payer-AreTotals ss p)),
      )

  rounds-HasBurned :
      (bs cs : List Bool) (es : Dict PayerTotals) (v w : Burning Chain)
      → Keyed es
      → AllTotals v.pool.tables.sessions es
      → HasRounds solana paid (chosen bs es) (chosen cs es) v w
      → HasBurned (payers (chosen bs es)) (payers (chosen cs es)) v w
  rounds-HasBurned bs cs es v w k a h =
      let ss = v.pool.tables.sessions in
      record {
        settled_once = Keyed-NoRepeat (chosen bs es) (chosen-Keyed bs es k);
        charged_once = Keyed-NoRepeat (chosen cs es) (chosen-Keyed cs es k);
        within = h.within;
        sessions = h.sessions ∙ without_all-filter (chosen bs es) ss;
        written =
            h.written
            ∙ ap (λ l. v.valid_sessions.written ++ l)
                (all_written-for ss (chosen bs es) (chosen-AllTotals ss bs es a));
        pays = λ q.
            h.pays q
            ∙ ap (λ n. paid v.chain q + n)
                (all_paid-cost ss q (chosen cs es) (chosen-Keyed cs es k)
                  (chosen-AllTotals ss cs es a));
      }

  burn_each-HasBurned :
      IsLedger solana paid
      → (es : Dict PayerTotals) (v : Burning Chain) → Keyed es
      → AllTotals v.pool.tables.sessions es
      → Ends (λ _ w. Burnt v w) (burn_each solana es v)
  burn_each-HasBurned ledger es v k a =
      Ends-mono (λ _ w. SomeRounds solana paid es v w) (λ _ w. Burnt v w) (burn_each solana es v)
        (λ _ w (bs, cs, h).
          (payers (chosen bs es), payers (chosen cs es), rounds-HasBurned bs cs es v w k a h))
        (burn_each-SomeRounds solana paid ledger es v)

  -- For a chain on which a submitted transaction takes its amount from its payer once or not at all, and
  -- does so where its submission succeeds, and an order that gives each payer once: burn does not panic,
  -- and when it returns, there are settled payers, each of them once, such that the table has lost
  -- exactly their sessions and exactly these sessions are written out, payer by payer. There are charged
  -- payers, each of them once, among them all settled ones, and each of these has paid the sum, as a u64,
  -- of what its sessions cost, and no other payer has paid.
  pub burn-HasBurned :
      (v : Burning Chain)
      → IsLedger solana paid
      → IsOrder order
      → Ends (λ _ w. Burnt v w) (burn solana order v)
  unfolding burn
  burn-HasBurned v ledger o =
      Ends-bind
        (λ ss u.
          (ss ≡ v.pool.tables.sessions)
          × (u.pool.tables ≡ v.pool.tables)
          × (u.chain ≡ v.chain)
          × (u.valid_sessions ≡ v.valid_sessions))
        (λ _ w. Burnt v w) (on_pool fetch_all)
        (λ ss. burn_each solana (order (group_by_payer ss []))) v (fetch_all-Ends E v)
        (λ ss u h. from_fetched ss u h.0 h.1 h.2 h.3)
    where
      moved :
          (u w : Burning Chain)
          → u.pool.tables ≡ v.pool.tables
          → u.chain ≡ v.chain
          → u.valid_sessions ≡ v.valid_sessions
          → Burnt u w
          → Burnt v w
      moved u w t c s (settled, charged, h) = (
        settled,
        charged,
        record {
          settled_once = h.settled_once;
          charged_once = h.charged_once;
          within = h.within;
          sessions =
              h.sessions
              ∙ ap (λ (x : Tables). filter (λ s. not (contains settled s.payer)) x.sessions) t;
          written = h.written ∙ (λ i. (s i).written ++ written_for settled (t i).sessions);
          pays = λ q. h.pays q ∙ (λ i.
              paid (c i) q
              + (if contains charged q then u64 (cost (of_payer q (t i).sessions)) else 0));
        },
      )

      from_fetched :
          (ss : List DataTransferSession) (u : Burning Chain)
          → ss ≡ v.pool.tables.sessions
          → u.pool.tables ≡ v.pool.tables
          → u.chain ≡ v.chain
          → u.valid_sessions ≡ v.valid_sessions
          → Ends (λ _ w. Burnt v w) (burn_each solana (order (group_by_payer ss [])) u)
      from_fetched ss u e t c s =
          let es = order (group_by_payer ss []) in
          let a = ordered-AllTotals o ss in
          Ends-mono (λ _ w. Burnt u w) (λ _ w. Burnt v w) (burn_each solana es u)
            (λ _ w h. moved u w t c s h)
            (burn_each-HasBurned ledger es u a.0
              (subst (λ l. AllTotals l es) (e ∙ ap (λ (x : Tables). x.sessions) (sym t)) a.1))
