-- ===== src/MobilePacketVerifier/Burner.antt =====
-- mobile_packet_verifier/src/burner.rs: the sessions of each payer are burned and written out. The chain
-- stands outside the program, and the order in which a HashMap is gone through is a parameter.
use Prim.Native.Nat.{max}
use oracles.Prelude.{
  ℕ, ◌+◌, ◌-◌, ◌/◌, Bool, true, false, List, [], ◌∷◌, ◌++◌, Option, none, some, Outcome, ok, err,
  panic, Action, pure, ◌>>=◌, ◌>>◌, map_err, Reply, done, failed, Call, Dict, lookup, insert,
  filter, not, ltb, ◌==◌, of_reply, if◌then◌else◌,
}
use oracles.PacketVerifier.Balances.{u64}
use oracles.PacketVerifier.Solana.{SolanaNetwork}
use oracles.PacketVerifier.Pending.{SqlxError, as_u64}
use oracles.PacketVerifier.Verifier.{Sink, SinkError, write}
use oracles.MobilePacketVerifier.Accumulate.{DataTransferSession, Tables, Db, execute}
pub mod Totals
pub mod Settled
pub mod Rounds
pub mod Loop
pub mod Entries
pub mod Paid

-- BYTES_PER_DC.
abbrev pub bytes_per_dc : ℕ
bytes_per_dc = 20_000

unfoldable pub bytes_to_dc : ℕ → ℕ
bytes_to_dc bytes =
    let bytes = max bytes bytes_per_dc in u64 (bytes + bytes_per_dc - 1) / bytes_per_dc

abbrev pub session_dcs : DataTransferSession → ℕ
session_dcs s = bytes_to_dc (as_u64 s.rewardable_bytes)

pub record PayerTotals : Type 0 where
  pub total_dcs : ℕ
  pub sessions : List DataTransferSession

-- `or_default()`.
abbrev pub totals_or_default : Option PayerTotals → PayerTotals
totals_or_default none = record { total_dcs = 0; sessions = [] }
totals_or_default (some t) = t

unfoldable pub push_sess : DataTransferSession → PayerTotals → PayerTotals
push_sess s t = record {
  total_dcs = u64 (t.total_dcs + session_dcs s);
  sessions = t.sessions ++ (s ∷ []);
}

unfoldable pub group_by_payer : List DataTransferSession → Dict PayerTotals → Dict PayerTotals
group_by_payer [] totals = totals
group_by_payer (s ∷ ss) totals =
    group_by_payer ss
      (insert s.payer (push_sess s (totals_or_default (lookup s.payer totals))) totals)

pub record ValidDataTransferSession : Type 0 where
  pub pub_key : ℕ
  pub payer : ℕ
  pub upload_bytes : ℕ
  pub download_bytes : ℕ
  pub rewardable_bytes : ℕ
  pub num_dcs : ℕ
  pub first_timestamp : ℕ
  pub last_timestamp : ℕ

unfoldable pub valid_session : DataTransferSession → ValidDataTransferSession
valid_session s = record {
  pub_key = s.pub_key;
  payer = s.payer;
  upload_bytes = as_u64 s.uploaded_bytes;
  download_bytes = as_u64 s.downloaded_bytes;
  rewardable_bytes = as_u64 s.rewardable_bytes;
  num_dcs = session_dcs s;
  first_timestamp = s.first_timestamp;
  last_timestamp = s.last_timestamp;
}

pub record Burning (Chain : Type 0) : Type 0 where
  pub chain : Chain
  pub pool : Db
  pub valid_sessions : Sink ValidDataTransferSession

pub data BurnError (E : Type 0) : Type 0 where
  file_store_error : SinkError → BurnError E
  sql_error : SqlxError → BurnError E
  solana_error : E → BurnError E

-- `SELECT * FROM data_transfer_sessions`.
unfoldable pub fetch_all : Action Db SqlxError (List DataTransferSession)
unfolding execute
fetch_all = execute λ t. (ok t.sessions, t)

-- The rows of the other payers.
abbrev pub without_payer : ℕ → List DataTransferSession → List DataTransferSession
without_payer payer = filter (λ s. not (s.payer == payer))

-- `DELETE FROM data_transfer_sessions WHERE payer = $1`.
unfoldable pub delete_payer : ℕ → Action Db SqlxError (Unit {0})
unfolding execute
delete_payer payer = execute λ t. (ok tt, record t { sessions = without_payer payer t.sessions })

module _ {Chain E : Type 0} where
  unfoldable pub on_pool :
      {A : Type 0} → Action Db SqlxError A → Action (Burning Chain) (BurnError E) A
  on_pool m b = let (r, d) = m b.pool in (map_err sql_error r, record b { pool = d })

  unfoldable pub on_solana : {A : Type 0} → Call Chain E A → Action (Burning Chain) (BurnError E) A
  on_solana m b = let (r, c) = m b.chain in (of_reply solana_error r, record b { chain = c })

  -- `is_err()` of a call: its answer is whether it went through.
  unfoldable pub attempt : {A : Type 0} → Call Chain E A → Action (Burning Chain) (BurnError E) Bool
  attempt m b =
      let (r, c) = m b.chain in
      (ok (elim r [ done a ↦ true | failed e ↦ false ]), record b { chain = c })

  unfoldable pub write_valid : DataTransferSession → Action (Burning Chain) (BurnError E) (Unit {0})
  write_valid s b =
      let (r, k) = write (valid_session s) b.valid_sessions in
      (map_err file_store_error r, record b { valid_sessions = k })

  unfoldable pub write_each :
      List DataTransferSession → Action (Burning Chain) (BurnError E) (Unit {0})
  unfolding write_valid
  write_each [] = pure tt
  write_each (s ∷ ss) = do write_valid s; write_each ss

  -- What follows a burn that went through.
  unfoldable pub settle_payer :
      ℕ → PayerTotals → Bool → Action (Burning Chain) (BurnError E) (Unit {0})
  unfolding on_pool delete_payer write_each
  settle_payer payer totals false = pure tt
  settle_payer payer totals true = do on_pool (delete_payer payer); write_each totals.sessions

module _ {Chain E Transaction : Type 0} (solana : SolanaNetwork Chain E Transaction) where
  unfoldable pub burn_data_credits : ℕ → ℕ → Call Chain E (Unit {0})
  burn_data_credits payer amount c =
      let (r, c') = solana.make_burn_transaction payer amount c in
      elim r [ done txn ↦ solana.submit_transaction txn c' | failed e ↦ (failed e, c') ]

  unfoldable pub burn_covered :
      ℕ → PayerTotals → Bool → Action (Burning Chain) (BurnError E) (Unit {0})
  unfolding attempt burn_data_credits settle_payer
  burn_covered payer totals false = pure tt
  burn_covered payer totals true = do
    burned ← attempt (burn_data_credits payer totals.total_dcs)
    settle_payer payer totals burned

  -- The body of the loop over the payers.
  unfoldable pub burn_payer : ℕ × PayerTotals → Action (Burning Chain) (BurnError E) (Unit {0})
  unfolding on_solana burn_covered
  burn_payer (payer, totals) = do
    payer_balance ← on_solana (solana.payer_balance payer)
    burn_covered payer totals (not (ltb payer_balance totals.total_dcs))

  unfoldable pub burn_each : Dict PayerTotals → Action (Burning Chain) (BurnError E) (Unit {0})
  unfolding burn_payer
  burn_each [] = pure tt
  burn_each (e ∷ es) = do burn_payer e; burn_each es

  -- `Burner::burn`.
  unfoldable pub burn :
      (Dict PayerTotals → Dict PayerTotals) → Action (Burning Chain) (BurnError E) (Unit {0})
  unfolding on_pool fetch_all burn_each
  burn order = do sessions ← on_pool fetch_all; burn_each (order (group_by_payer sessions []))
