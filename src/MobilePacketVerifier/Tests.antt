-- ===== src/MobilePacketVerifier/Tests.antt =====
-- Runs of the model of mobile_packet_verifier.
use oracles.PacketVerifier.Verifier.{write}
use oracles.Prelude.{
  lookup, insert, ℕ, ◌+◌, ◌≡◌, refl, arith, true, List, [], ◌∷◌, ◌++◌, none, some, ok, Ends, done,
  failed, Dict, ltb, ◌==◌, if◌then◌else◌,
}
use oracles.Prelude.Int.{◌+ℤ◌, pos}
use oracles.PacketVerifier.Solana.{SolanaNetwork}
use oracles.MobilePacketVerifier.Accumulate.{
  upsert, merge, session_of, verify_gateway, verify_known_routing_key, in_range, Services,
  IngestReport, Work, DataTransferSession, accumulate_sessions, handle_file,
}
use oracles.MobilePacketVerifier.Accumulate.Table.{find_session}
use oracles.MobilePacketVerifier.Accumulate.Sessions.{
  session_after, all_invalid, accumulate_sessions-IsAccumulated,
}
use oracles.MobilePacketVerifier.Accumulate.Replayed.{handle_file-replayed}
use oracles.MobilePacketVerifier.Burner.{group_by_payer, push_sess, bytes_to_dc, Burning, burn}
use oracles.MobilePacketVerifier.Burner.Settled.{IsLedger}
use oracles.MobilePacketVerifier.Burner.Paid.{Burnt, burn-HasBurned}

-- The gateways below 100 are known, and the router 7 is authorised.
abbrev services : Services (Unit {0}) ℕ
services = record {
  resolve_gateway_info = λ key. if ltb key 100 then done (some key) else done none;
  verify_authorized_key = λ key. if key == 7 then done true else failed tt;
}

abbrev report_of : ℕ → ℕ → ℕ → IngestReport
report_of gateway event_id bytes = record {
  received_timestamp = 50;
  report = record {
    data_transfer_usage = record {
      pub_key = gateway;
      payer = 3;
      upload_bytes = bytes;
      download_bytes = 0;
      event_id = event_id;
    };
    rewardable_bytes = bytes;
    pub_key = 7;
  };
}

-- A report, the same again, a cancelled one, one of an unknown gateway, and one more.
abbrev reports : List (IngestReport × ℕ)
reports =
    (report_of 1 10 30_000, 60)
    ∷ (report_of 1 10 30_000, 61)
    ∷ (report_of 1 11 0, 62)
    ∷ (report_of 100 12 500, 63)
    ∷ (report_of 1 13 20_000, 64)
    ∷ []

abbrev empty : Work
empty = record {
  conn = record { tables = record { sessions = []; event_ids = [] }; faults = [] };
  invalid_sessions = record { written = []; faults = [] };
}

abbrev handled : Work
handled = (handle_file services 40 reports empty).1

rows :
    find_session 1 3 handled.conn.tables.sessions
    ≡ some (record {
      pub_key = 1;
      payer = 3;
      uploaded_bytes = pos 50_000;
      downloaded_bytes = pos 0;
      rewardable_bytes = pos 50_000;
      first_timestamp = 40;
      last_timestamp = 40;
    })
unfolding handle_file lookup verify_gateway verify_known_routing_key upsert insert write session_of
    in_range merge ◌+ℤ◌
rows = refl

accumulate_sessions-IsAccumulated_example :
    Ends
      (λ _ w.
        ((k p : ℕ)
          → find_session k p w.conn.tables.sessions
            ≡ session_after services [] 40 k p [] reports (find_session k p []))
        × (w.invalid_sessions.written ≡ [] ++ all_invalid services [] [] reports))
      (accumulate_sessions services 40 reports empty)
accumulate_sessions-IsAccumulated_example =
    accumulate_sessions-IsAccumulated services 40 reports empty

handled-ok : handle_file services 40 reports empty ≡ (ok tt, handled)
unfolding handle_file lookup verify_gateway verify_known_routing_key upsert insert write session_of
    in_range merge ◌+ℤ◌
handled-ok = refl

handle_file-replayed_example :
    Ends
      (λ _ w.
        (k p : ℕ)
        → find_session k p w.conn.tables.sessions ≡ find_session k p handled.conn.tables.sessions)
      (handle_file services 45 reports handled)
handle_file-replayed_example = handle_file-replayed services 40 45 reports empty handled handled-ok

-- A chain that keeps the payments, on which every payer has five credits.
abbrev paid : Dict ℕ → ℕ → ℕ
paid [] q = 0
paid (e ∷ es) q = (if e.0 == q then e.1 else 0) + paid es q

abbrev chain : SolanaNetwork (Dict ℕ) (Unit {0}) (ℕ × ℕ)
chain = record {
  payer_balance = λ payer c. (done 5, c);
  make_burn_transaction = λ payer amount c. (done (payer, amount), c);
  submit_transaction = λ txn c. (done tt, txn ∷ c);
  confirm_transaction = λ signature c. (done true, c);
  get_signature = λ txn. 0;
}

chain-IsLedger : IsLedger chain paid
chain-IsLedger = record {
  taken = λ txn c. true;
  asks = λ payer c q. refl;
  makes = λ payer amount c q. refl;
  submits = λ payer amount c c' txn q e. ground arith;
  takes = λ c txn h. refl;
}

abbrev session_of_payer : ℕ → ℕ → DataTransferSession
session_of_payer payer bytes = record {
  pub_key = 1;
  payer = payer;
  uploaded_bytes = pos bytes;
  downloaded_bytes = pos 0;
  rewardable_bytes = pos bytes;
  first_timestamp = 40;
  last_timestamp = 40;
}

abbrev burning : Burning (Dict ℕ)
burning = record {
  chain = [];
  pool = record {
    tables = record {
      sessions = session_of_payer 3 50_000 ∷ session_of_payer 4 900_000 ∷ session_of_payer 3 1 ∷ [];
      event_ids = [];
    };
    faults = [];
  };
  valid_sessions = record { written = []; faults = [] };
}

-- The payer 3 pays for both sessions, and the payer 4 has too little.
burned : (burn chain (λ d. d) burning).1.chain ≡ (3, 4) ∷ []
unfolding burn group_by_payer insert push_sess lookup bytes_to_dc write
burned = refl

burn-HasBurned_example :
    Ends (λ _ w. Burnt chain paid (λ d. d) burning w) (burn chain (λ d. d) burning)
burn-HasBurned_example =
    burn-HasBurned chain paid (λ d. d) burning chain-IsLedger
      (record { keyed = λ d k. k; same = λ d k h. refl })
