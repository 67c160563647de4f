-- ===== src/PacketVerifier/Pending.antt =====
-- iot_packet_verifier/src/pending.rs: the tables of pending burns and of pending transactions, as
-- the SQL statements of `PgPool` and `Transaction` change them. A statement may fail: the schedule
-- `faults` says which of the next ones do. The transaction that is open works on a copy of the
-- tables, which `commit` makes the tables; a transaction that is dropped leaves them as they were.
pub mod Sync
pub mod Confirm
use mathlib.Core.Option
use oracles.Prelude.{
  ℕ, ◌-◌, ◌%◌, ◌^◌, Bool, true, false, List, [], ◌∷◌, Option, none, some, Outcome, ok, err, panic,
  Action, pure, ◌>>=◌, ◌>>◌, map_err, Dict, of_reply, Call, lookup, insert, update, ltb, leb, ◌==◌,
  ◌||◌, map, if◌then◌else◌,
}
use oracles.Prelude.Int.{ℤ, pos, negsuc, ◌+ℤ◌, ◌-ℤ◌, ltb_ℤ}
use oracles.PacketVerifier.Solana.{PublicKey, Signature, SolanaNetwork}
use oracles.PacketVerifier.Balances.{u64_mod, saturating_sub, Burn, Cache}

-- `amount as i64` and `amount as u64`.
abbrev pub as_i64 : ℕ → ℤ
as_i64 n = if ltb n (2 ^ 63) then pos n else negsuc (u64_mod - n - 1)

abbrev pub as_u64 : ℤ → ℕ
as_u64 (pos n) = n % u64_mod
as_u64 (negsuc n) = (u64_mod - 1) - n % u64_mod

-- A row of pending_burns, under its key, the payer.
pub record BurnRow : Type 0 where
  pub amount : ℤ
  pub last_burn : ℕ

pub record PendingTxn : Type 0 where
  pub signature : Signature
  pub payer : PublicKey
  pub amount : ℕ
  pub time_of_submission : ℕ

pub record Tables : Type 0 where
  pub pending_burns : Dict BurnRow
  pub pending_txns : List PendingTxn

pub record Db : Type 0 where
  pub tables : Tables
  pub open_txn : Tables
  pub faults : List Bool

pub data SqlxError : Type 0 where
  statement_failed : SqlxError

-- Runs a statement unless the schedule fails it.
unfoldable pub statement : {A : Type 0} → (Db → Outcome SqlxError A × Db) → Action Db SqlxError A
statement run db = elim db.faults [
  | [] ↦ run db
  | fault ∷ rest ↦
      let later = record db { faults = rest } in
      if fault then (err statement_failed, later) else run later
]

-- BURN_THRESHOLD.
abbrev pub burn_threshold : ℤ
burn_threshold = pos 10_000

-- The row of the oldest burn among two candidates; the first one wins a tie.
unfoldable pub older :
    PublicKey × BurnRow → Option (PublicKey × BurnRow) → Option (PublicKey × BurnRow)
older e none = some e
older e (some f) = if leb (BurnRow.last_burn e.1) (BurnRow.last_burn f.1) then some e else some f

-- `SELECT * FROM pending_burns WHERE amount >= $1 ORDER BY last_burn ASC LIMIT 1`.
unfoldable pub oldest_burn : Dict BurnRow → Option (PublicKey × BurnRow)
unfolding older
oldest_burn [] = none
oldest_burn (e ∷ rows) =
    let rest = oldest_burn rows in
    if ltb_ℤ (BurnRow.amount e.1) burn_threshold then rest else older e rest

-- `Burn::from_row`.
abbrev pub burn_from_row : PublicKey × BurnRow → Burn
burn_from_row (payer, row) = record { payer = payer; amount = as_u64 (row.amount) }

unfoldable pub fetch_next_burn : Action Db SqlxError (Option Burn)
unfolding statement oldest_burn
fetch_next_burn =
    statement λ db. (ok (Option.map burn_from_row (oldest_burn db.tables.pending_burns)), db)

unfoldable pub fetch_all_pending_burns : Action Db SqlxError (List Burn)
unfolding statement
fetch_all_pending_burns = statement λ db. (ok (map burn_from_row db.tables.pending_burns), db)

unfoldable pub fetch_all_pending_txns : Action Db SqlxError (List PendingTxn)
unfolding statement
fetch_all_pending_txns = statement λ db. (ok db.tables.pending_txns, db)

unfoldable pub has_signature : Signature → List PendingTxn → Bool
has_signature s [] = false
has_signature s (t ∷ ts) = t.signature == s || has_signature s ts

-- `INSERT INTO pending_txns`, whose primary key is the signature.
unfoldable pub add_pending_transaction :
    PublicKey → ℕ → Signature → ℕ → Action Db SqlxError (Unit {0})
unfolding statement has_signature
add_pending_transaction payer amount signature now = statement λ db.
    if has_signature signature db.tables.pending_txns then (err statement_failed, db) else (
      ok tt,
      record db {
        tables = record db.tables {
          pending_txns =
              record {
                signature = signature;
                payer = payer;
                amount = as_u64 (as_i64 amount);
                time_of_submission = now;
              }
              ∷ db.tables.pending_txns;
        };
      },
    )

unfoldable pub begin : Action Db SqlxError (Unit {0})
unfolding statement
begin = statement λ db. (ok tt, record db { open_txn = db.tables })

unfoldable pub commit : Action Db SqlxError (Unit {0})
unfolding statement
commit = statement λ db. (ok tt, record db { tables = db.open_txn })

unfoldable pub without_signature : Signature → List PendingTxn → List PendingTxn
without_signature s [] = []
without_signature s (t ∷ ts) =
    let rest = without_signature s ts in if t.signature == s then rest else t ∷ rest

-- `DELETE FROM pending_txns WHERE signature = $1`, in the open transaction.
unfoldable pub remove_pending_transaction : Signature → Action Db SqlxError (Unit {0})
unfolding statement without_signature
remove_pending_transaction signature = statement λ db. (
  ok tt,
  record db {
    open_txn = record db.open_txn {
      pending_txns = without_signature signature db.open_txn.pending_txns;
    };
  },
)

-- `UPDATE pending_burns SET amount = amount - $1, last_burn = $2 WHERE payer = $3`.
unfoldable pub subtract_burned_amount : PublicKey → ℕ → ℕ → Action Db SqlxError (Unit {0})
unfolding statement
subtract_burned_amount payer amount now = statement λ db. (
  ok tt,
  record db {
    open_txn = record db.open_txn {
      pending_burns =
          update payer (λ row. record { amount = row.amount -ℤ as_i64 amount; last_burn = now })
            db.open_txn.pending_burns;
    };
  },
)

abbrev pub add_to_row : ℤ → ℕ → Option BurnRow → BurnRow
add_to_row amount now none = record { amount = amount; last_burn = now }
add_to_row amount now (some row) = record row { amount = row.amount +ℤ amount }

-- `INSERT INTO pending_burns ... ON CONFLICT (payer) DO UPDATE SET amount = pending_burns.amount + $2`.
unfoldable pub add_burned_amount : PublicKey → ℕ → ℕ → Action Db SqlxError (Unit {0})
unfolding statement
add_burned_amount payer amount now = statement λ db. (
  ok tt,
  record db {
    open_txn = record db.open_txn {
      pending_burns =
          insert payer (add_to_row (as_i64 amount) now (lookup payer db.open_txn.pending_burns))
            db.open_txn.pending_burns;
    };
  },
)

-- What the burner works on: the balances shared with the verifier, the chain, and the tables.
pub record World (Chain : Type 0) : Type 0 where
  pub cache : Cache Chain
  pub db : Db

pub data ConfirmPendingError (E : Type 0) : Type 0 where
  sqlx_error : SqlxError → ConfirmPendingError E
  solana_error : E → ConfirmPendingError E

module _ {Chain : Type 0} where
  -- A statement, a call of the chain and a use of the cache as actions on the whole state.
  unfoldable pub on_db : {E F A : Type 0} → (E → F) → Action Db E A → Action (World Chain) F A
  on_db f m w = let (r, db') = m w.db in (map_err f r, record w { db = db' })

  unfoldable pub on_chain : {E F A : Type 0} → (E → F) → Call Chain E A → Action (World Chain) F A
  on_chain f m w =
      let (r, chain') = m w.cache.chain in
      (of_reply f r, record w { cache = record w.cache { chain = chain' } })

  -- `balance_lock.get_mut(&payer).unwrap()`, then both numbers lowered by the amount.
  unfoldable pub settle : {F : Type 0} → PublicKey → ℕ → Action (World Chain) F (Unit {0})
  settle payer amount w = elim (lookup payer w.cache.payer_accounts) [
    | none ↦ (panic, w)
    | some account ↦ (
      ok tt,
      record w {
        cache = record w.cache {
          payer_accounts =
              insert payer
                (record {
                  balance = saturating_sub account.balance amount;
                  burned = saturating_sub account.burned amount;
                })
                w.cache.payer_accounts;
        };
      },
    )
  ]

module _ {Chain E Transaction : Type 0} (net : SolanaNetwork Chain E Transaction) where
  -- What a confirmed transaction takes from the tables and from the cache.
  unfoldable pub confirmed :
      PendingTxn → ℕ → Bool → Action (World Chain) (ConfirmPendingError E) (Unit {0})
  unfolding on_db settle subtract_burned_amount
  confirmed txn now true = do
    on_db sqlx_error (subtract_burned_amount txn.payer txn.amount now)
    settle txn.payer txn.amount
  confirmed txn now false = pure tt

  -- The body of the loop of `confirm_pending_txns`. The sleep before it changes nothing here;
  -- `now` is the time at which the row is updated.
  unfoldable pub confirm_pending_txn :
      PendingTxn → ℕ → Action (World Chain) (ConfirmPendingError E) (Unit {0})
  unfolding on_db on_chain begin remove_pending_transaction confirmed commit
  confirm_pending_txn txn now = do
    on_db sqlx_error begin
    on_db sqlx_error (remove_pending_transaction txn.signature)
    is_confirmed ← on_chain solana_error (net.confirm_transaction txn.signature)
    confirmed txn now is_confirmed
    on_db sqlx_error commit

  unfoldable pub confirm_each :
      (PendingTxn → ℕ) → List PendingTxn → Action (World Chain) (ConfirmPendingError E) (Unit {0})
  confirm_each clock [] = pure tt
  confirm_each clock (txn ∷ txns) = do confirm_pending_txn txn (clock txn); confirm_each clock txns

  unfoldable pub confirm_pending_txns :
      (PendingTxn → ℕ) → Action (World Chain) (ConfirmPendingError E) (Unit {0})
  unfolding on_db fetch_all_pending_txns confirm_each
  confirm_pending_txns clock = do
    pending ← on_db sqlx_error fetch_all_pending_txns
    confirm_each clock pending
