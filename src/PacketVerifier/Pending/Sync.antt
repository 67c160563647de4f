-- ===== src/PacketVerifier/Pending/Sync.antt =====
-- When the table of pending burns (iot_packet_verifier/src/pending.rs) and the balance cache
-- (iot_packet_verifier/src/balances.rs) agree on what each payer owes.
use oracles.Prelude.{
  Bool, true, List, [], ◌∷◌, ℕ, refl, ◌⊎◌, leb, leb→le, Bool-cases, ◌-◌, ◌^◌, ◌≤◌, ◌<◌, ◌≡◌, inl,
  inr, Option, none, some, lookup, insert, update, lookup-insert, lookup-update, Option-cases,
  arith, Dict, Keyed, update-Keyed,
}
use oracles.Prelude.Int.{ℤ, pos, int_laws, ◌≤ℤ◌, ◌-ℤ◌, ltb_ℤ}
use oracles.PacketVerifier.Solana.{PublicKey}
use oracles.PacketVerifier.Balances.{PayerAccount}
use oracles.PacketVerifier.Balances.Debit.{burned_of}
use oracles.PacketVerifier.Pending.{as_i64, BurnRow, World, burn_threshold, oldest_burn, older}

-- What a payer owes by the table.
abbrev pub amount_of : Option BurnRow → ℤ
amount_of none = pos 0
amount_of (some row) = row.amount

-- The table has a row for a payer at most once; it holds what the payer's account counts as burned,
-- which fits a signed word.
pub record Synced (rows : Dict BurnRow) (accounts : Dict PayerAccount) : Type 0 where
  pub keyed : Keyed rows
  pub synced :
      (q : PublicKey)
      → (amount_of (lookup q rows) ≡ pos (burned_of (lookup q accounts)))
        × (burned_of (lookup q accounts) < 2 ^ 63)

abbrev pub InSync : {Chain : Type 0} → World Chain → Type 0
InSync w = Synced w.db.tables.pending_burns w.cache.payer_accounts

-- The burn that is fetched is the payer's row, at or over the threshold.
pub oldest_burn-row :
    (rows : Dict BurnRow) (payer : PublicKey) (row : BurnRow)
    → Keyed rows
    → oldest_burn rows ≡ some (payer, row)
    → (lookup payer rows ≡ some row) × (burn_threshold ≤ℤ row.amount)
unfolding oldest_burn lookup older
oldest_burn-row [] payer row k h = cc
oldest_burn-row (e ∷ rows) payer row k h = elim (Option-cases (oldest_burn rows)) [
  | inl empty ↦ ground arith
  | inr (f, found) ↦ ground (arith, oldest_burn-row rows f.0 f.1 k.1 found)
]

-- Every amount is below 10 000.
abbrev pub NoneDue : Dict BurnRow → Type 0
NoneDue [] = Unit {0}
NoneDue (e ∷ rows) = (ltb_ℤ (BurnRow.amount e.1) (pos 10_000) ≡ true) × NoneDue rows

-- Every row with an amount of 10 000 or more has had its last burn at the time t or later.
abbrev pub NoneOlder : ℕ → Dict BurnRow → Type 0
NoneOlder t [] = Unit {0}
NoneOlder t (e ∷ rows) =
    ((ltb_ℤ (BurnRow.amount e.1) (pos 10_000) ≡ true) ⊎ (t ≤ BurnRow.last_burn e.1))
    × NoneOlder t rows

-- The row that is due for a burn.
abbrev pub IsDue : Dict BurnRow → Option (PublicKey × BurnRow) → Type 0
IsDue rows none = NoneDue rows
IsDue rows (some (payer, row)) =
    (lookup payer rows ≡ some row) × (pos 10_000 ≤ℤ row.amount) × NoneOlder row.last_burn rows

NoneDue-NoneOlder : (t : ℕ) (rows : Dict BurnRow) → NoneDue rows → NoneOlder t rows
NoneDue-NoneOlder t [] h = tt
NoneDue-NoneOlder t (e ∷ rows) h = (inl h.0, NoneDue-NoneOlder t rows h.1)

NoneOlder-mono : (t u : ℕ) (rows : Dict BurnRow) → t ≤ u → NoneOlder u rows → NoneOlder t rows
NoneOlder-mono t u [] l h = tt
NoneOlder-mono t u (e ∷ rows) l h =
    (elim h.0 [ inl a ↦ inl a | inr a ↦ inr (omega arith) ], NoneOlder-mono t u rows l h.1)

-- No row that is due is older than the one that is chosen.
abbrev IsOldest : Dict BurnRow → Option (PublicKey × BurnRow) → Type 0
IsOldest rows none = NoneDue rows
IsOldest rows (some e) = NoneOlder (BurnRow.last_burn e.1) rows

oldest_burn-IsOldest : (rows : Dict BurnRow) → IsOldest rows (oldest_burn rows)
unfolding oldest_burn older
oldest_burn-IsOldest [] = tt
oldest_burn-IsOldest (e ∷ rows) = elim (Bool-cases (ltb_ℤ (BurnRow.amount e.1) burn_threshold)) [
  | inl b ↦ rw b (skipped b (oldest_burn rows) (oldest_burn-IsOldest rows))
  | inr b ↦ rw b (chosen (oldest_burn rows) (oldest_burn-IsOldest rows))
]
  where
    skipped :
        ltb_ℤ (BurnRow.amount e.1) burn_threshold ≡ true
        → (o : Option (PublicKey × BurnRow)) → IsOldest rows o
        → IsOldest (e ∷ rows) o
    skipped b none h = (b, h)
    skipped b (some f) h = (inl b, h)

    chosen : (o : Option (PublicKey × BurnRow)) → IsOldest rows o → IsOldest (e ∷ rows) (older e o)
    chosen none h = (inr (omega arith), NoneDue-NoneOlder _ rows h)
    chosen (some f) h = elim (Bool-cases (leb (BurnRow.last_burn e.1) (BurnRow.last_burn f.1))) [
      | inl c ↦ rw c (inr (omega arith), NoneOlder-mono _ _ rows (leb→le _ _ c) h)
      | inr c ↦ rw c (inr (ground arith), h)
    ]

pub oldest_burn-IsDue : (rows : Dict BurnRow) → Keyed rows → IsDue rows (oldest_burn rows)
oldest_burn-IsDue rows k = of_option (oldest_burn rows) refl (oldest_burn-IsOldest rows)
  where
    of_option :
        (o : Option (PublicKey × BurnRow)) → oldest_burn rows ≡ o → IsOldest rows o → IsDue rows o
    of_option none e h = h
    of_option (some (payer, row)) e h =
        let (seen, big) = oldest_burn-row rows payer row k e in (seen, big, h)

-- The row and the account after the burn of an amount.
abbrev pub lowered : ℕ → ℕ → BurnRow → BurnRow
lowered amount now row = record { amount = row.amount -ℤ as_i64 amount; last_burn = now }

abbrev pub settled : ℕ → PayerAccount → PayerAccount
settled amount account = record {
  balance = account.balance - amount;
  burned = account.burned - amount;
}

-- Taking the same amount, at most what is owed, from the row and from the account keeps them equal.
pub lowered-settled-Synced :
    (rows : Dict BurnRow) (accounts : Dict PayerAccount) (payer amount now : ℕ)
    (account : PayerAccount)
    → lookup payer accounts ≡ some account
    → amount ≤ account.burned
    → Synced rows accounts
    → Synced
        (update payer (lowered amount now) rows)
        (insert payer (settled amount account) accounts)
lowered-settled-Synced rows accounts payer amount now account a le s = record {
  keyed = update-Keyed payer (lowered amount now) rows s.keyed;
  synced = λ q. grind (
    int_laws,
    s.synced q,
    s.synced payer,
    Option-cases (lookup payer rows),
    lookup-update payer q (lowered amount now) rows,
    lookup-insert payer q (settled amount account) accounts,
  );
}

-- Neither the table of pending burns nor the accounts of the cache have changed.
abbrev pub Unowed : {Chain : Type 0} → World Chain → World Chain → Type 0
Unowed w w' =
    (w'.db.tables.pending_burns ≡ w.db.tables.pending_burns)
    × (w'.cache.payer_accounts ≡ w.cache.payer_accounts)

-- The same state under another schedule of faults.
abbrev pub with_faults : {Chain : Type 0} → List Bool → World Chain → World Chain
with_faults faults w = record w { db = record w.db { faults = faults } }
