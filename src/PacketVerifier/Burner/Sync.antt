-- ===== src/PacketVerifier/Burner/Sync.antt =====
-- iot_packet_verifier/src/burner.rs: burning keeps the cache and the table of pending burns in
-- agreement.
use mathlib.Core.Option
use oracles.Prelude.{
  Bool, true, false, List, [], ◌∷◌, ◌≢◌, ℕ, ◌≤◌, ◌≡◌, refl, inl, inr, Option, none, some, Outcome,
  ok, err, panic, lookup, lookup-insert, lookup-update, Option-cases, arith,
}
use oracles.Prelude.Int.{pos, int_laws, ◌≤ℤ◌}
use oracles.PacketVerifier.Solana.{PublicKey, SolanaNetwork}
use oracles.PacketVerifier.Balances.{PayerAccount, Burn}
use oracles.PacketVerifier.Balances.Debit.{burned_of}
use oracles.PacketVerifier.Pending.{
  as_u64, statement, BurnRow, World, burn_threshold, oldest_burn, fetch_next_burn, burn_from_row,
}
use oracles.PacketVerifier.Burner.{BurnError, BurnClock, burn_next, burn}
use oracles.PacketVerifier.Pending.Sync.{
  with_faults, amount_of, InSync, oldest_burn-row, IsDue, oldest_burn-IsDue, Unowed, lowered,
  settled, lowered-settled-Synced,
}
use oracles.PacketVerifier.Burner.Recorded.{Recorded, burn_next-Recorded}

module _ {Chain E Transaction : Type 0} (net : SolanaNetwork Chain E Transaction) where
  -- The burn of a row that is owed in full keeps the two sides equal, and finds the account.
  Recorded-InSync :
      (b : Burn) (now : ℕ) (account : PayerAccount) (row : BurnRow) (w : World Chain)
      (r : Outcome (BurnError E) (Unit {0}) × World Chain)
      → lookup b.payer w.db.tables.pending_burns ≡ some row
      → lookup b.payer w.cache.payer_accounts ≡ some account
      → b.amount ≤ account.burned
      → InSync w
      → Recorded net b now account w r
      → InSync r.1 × (r.0 ≢ panic)
  Recorded-InSync b now account row w (ok _, w') seen known le s h = (
    rw (h.0, h.1)
        (lowered-settled-Synced w.db.tables.pending_burns w.cache.payer_accounts b.payer b.amount
          now account known le s),
    λ e. cc,
  )
  Recorded-InSync b now account row w (err _, w') seen known le s h = (rw (h.0, h.1) s, λ e. cc)
  Recorded-InSync b now account row w (panic, w') seen known le s h = absurd h

  -- A row at the threshold has an account that owes the same.
  pub owed :
      (payer : PublicKey) (row : BurnRow) (w : World Chain)
      → lookup payer w.db.tables.pending_burns ≡ some row
      → burn_threshold ≤ℤ row.amount
      → InSync w
      → (account : PayerAccount) × (lookup payer w.cache.payer_accounts ≡ some account)
        × (as_u64 row.amount ≡ account.burned)
  owed payer row w seen big s = elim (Option-cases (lookup payer w.cache.payer_accounts)) [
    | inl unknown ↦ absurd (ground (arith, s.synced payer))
    | inr (account, known) ↦ (account, known, ground (arith, s.synced payer))
  ]

  burn_next-InSync :
      (clock : BurnClock) (next : Option (PublicKey × BurnRow)) (w : World Chain)
      → oldest_burn w.db.tables.pending_burns ≡ next
      → InSync w
      → let r = burn_next net clock (Option.map burn_from_row next) w in InSync r.1 × (r.0 ≢ panic)
  unfolding burn_next
  burn_next-InSync clock none w h s = (s, λ e. cc)
  burn_next-InSync clock (some (payer, row)) w h s =
      let (seen, big) = oldest_burn-row w.db.tables.pending_burns payer row s.keyed h in
      let (account, known, same) = owed payer row w seen big s in
      Recorded-InSync (burn_from_row (payer, row)) clock.burned account row w _ seen known
        (omega arith) s (burn_next-Recorded net clock (burn_from_row (payer, row)) account w known)

  burn_faults-InSync :
      (clock : BurnClock) (faults : List Bool) (w : World Chain)
      → InSync w
      → let r = burn net clock (with_faults faults w) in InSync r.1 × (r.0 ≢ panic)
  unfolding burn fetch_next_burn statement
  burn_faults-InSync clock [] w s =
      burn_next-InSync clock (oldest_burn w.db.tables.pending_burns) (with_faults [] w) refl s
  burn_faults-InSync clock (true ∷ rest) w s = (s, λ e. cc)
  burn_faults-InSync clock (false ∷ rest) w s =
      burn_next-InSync clock (oldest_burn w.db.tables.pending_burns) (with_faults rest w) refl s

  -- From a state in which the accounts and the table agree, `burn` never meets an unknown payer, and
  -- however it ends, with a fault of the database or of the chain or without, they agree again.
  pub burn-InSync :
      (clock : BurnClock) (w : World Chain)
      → InSync w
      → InSync (burn net clock w).1 × ((burn net clock w).0 ≢ panic)
  burn-InSync clock w s = burn_faults-InSync clock w.db.faults w s

  -- What `burn` has done, by how it ended, where `b` is the burn that was due.
  abbrev pub Burned :
      World Chain → Option Burn → Outcome (BurnError E) (Unit {0}) × World Chain → Type 0
  Burned w (some b) (ok _, w') =
      (amount_of (lookup b.payer w'.db.tables.pending_burns) ≡ pos 0)
      × (burned_of (lookup b.payer w'.cache.payer_accounts) ≡ 0)
      × ((q : PublicKey)
          → q ≢ b.payer
          → (lookup q w'.db.tables.pending_burns ≡ lookup q w.db.tables.pending_burns)
            × (lookup q w'.cache.payer_accounts ≡ lookup q w.cache.payer_accounts))
  Burned w (some b) (err _, w') = Unowed w w'
  Burned w (some b) (panic, w') = ⊥
  Burned w none (ok _, w') = Unowed w w'
  Burned w none (err _, w') = Unowed w w'
  Burned w none (panic, w') = ⊥

  Recorded-Burned :
      (b : Burn) (now : ℕ) (account : PayerAccount) (row : BurnRow) (w : World Chain)
      (r : Outcome (BurnError E) (Unit {0}) × World Chain)
      → lookup b.payer w.db.tables.pending_burns ≡ some row
      → lookup b.payer w.cache.payer_accounts ≡ some account
      → b.amount ≡ account.burned
      → InSync w
      → Recorded net b now account w r
      → Burned w (some b) r
  Recorded-Burned b now account row w (ok _, w') seen known same s h = (
    grind (
      int_laws,
      s.synced b.payer,
      lookup-update b.payer b.payer (lowered b.amount now) w.db.tables.pending_burns,
    ),
    grind (arith, lookup-insert b.payer b.payer (settled b.amount account) w.cache.payer_accounts),
    λ q n. (
      grind (arith, lookup-update b.payer q (lowered b.amount now) w.db.tables.pending_burns),
      grind (arith, lookup-insert b.payer q (settled b.amount account) w.cache.payer_accounts),
    ),
  )
  Recorded-Burned b now account row w (err _, w') seen known same s h = h
  Recorded-Burned b now account row w (panic, w') seen known same s h = h

  burn_next-Burned :
      (clock : BurnClock) (next : Option (PublicKey × BurnRow)) (w : World Chain)
      → oldest_burn w.db.tables.pending_burns ≡ next
      → InSync w
      → Burned w
          (Option.map burn_from_row next)
          (burn_next net clock (Option.map burn_from_row next) w)
  unfolding burn_next
  burn_next-Burned clock none w h s = (refl, refl)
  burn_next-Burned clock (some (payer, row)) w h s =
      let (seen, big) = oldest_burn-row w.db.tables.pending_burns payer row s.keyed h in
      let (account, known, same) = owed payer row w seen big s in
      Recorded-Burned (burn_from_row (payer, row)) clock.burned account row w _ seen known same s
        (burn_next-Recorded net clock (burn_from_row (payer, row)) account w known)

  burn_faults-Burned :
      (clock : BurnClock) (faults : List Bool) (w : World Chain)
      (next : Option (PublicKey × BurnRow))
      → oldest_burn w.db.tables.pending_burns ≡ next
      → InSync w
      → Burned w (Option.map burn_from_row next) (burn net clock (with_faults faults w))
  unfolding burn fetch_next_burn statement
  burn_faults-Burned clock [] w next h s = rw h (burn_next-Burned clock next (with_faults [] w) h s)
  burn_faults-Burned clock (true ∷ rest) w none h s = (refl, refl)
  burn_faults-Burned clock (true ∷ rest) w (some _) h s = (refl, refl)
  burn_faults-Burned clock (false ∷ rest) w next h s =
      rw h (burn_next-Burned clock next (with_faults rest w) h s)

  -- Where the accounts and the table agree, `burn` settles the burn that is due, which is the row of a
  -- payer with an amount of 10 000 or more, such that no other row of that much has an earlier last
  -- burn; none is due only where every amount is below 10 000. When it returns, that payer owes nothing
  -- on either side and no other payer has changed. If none is due, or if it returns an error, nothing
  -- owed has changed. It does not panic.
  pub burn-Burned :
      (clock : BurnClock) (w : World Chain)
      → InSync w
      → (due : Option (PublicKey × BurnRow)) × IsDue w.db.tables.pending_burns due
        × Burned w (Option.map burn_from_row due) (burn net clock w)
  burn-Burned clock w s = (
    oldest_burn w.db.tables.pending_burns,
    oldest_burn-IsDue w.db.tables.pending_burns s.keyed,
    burn_faults-Burned clock w.db.faults w _ refl s,
  )
