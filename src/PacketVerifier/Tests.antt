-- ===== src/PacketVerifier/Tests.antt =====
-- Runs of the models of iot_packet_verifier at concrete states.
use oracles.Prelude.{
  ℕ, ◌+◌, ◌-◌, ◌*◌, ◌^◌, ◌≤◌, ◌<◌, ◌≡◌, ◌≢◌, ◌↔◌, refl, ap, subst, Bool, true, false, List, [], ◌∷◌,
  Option, none, some, ok, panic, Ends, Dict, update, lookup, insert, lookup-insert, done,
  if◌then◌else◌, ◌==◌, arith,
}
use oracles.Prelude.Int.{pos, ◌-ℤ◌}
use mathlib.Core.Option
use oracles.PacketVerifier.Solana.{PublicKey, SolanaNetwork}
use oracles.PacketVerifier.Balances.{
  PayerAccount, Cache, debit_if_sufficient, debit_account, refreshed,
}
use oracles.PacketVerifier.Balances.Debit.{Bounded, Owing, After, debit_if_sufficient-After}
use oracles.PacketVerifier.Balances.Refresh.{debit_if_sufficient-wraps}
use oracles.PacketVerifier.Pending.{
  BurnRow, Tables, World, burn_from_row, fetch_next_burn, add_pending_transaction, begin,
  remove_pending_transaction, subtract_burned_amount, commit,
}
use oracles.PacketVerifier.Pending.Sync.{InSync, IsDue}
use oracles.PacketVerifier.Burner.{BurnClock, burn}
use oracles.PacketVerifier.Burner.Sync.{burn-InSync, Burned, burn-Burned}
use oracles.PacketVerifier.Orgs.{Org, OrgService, OrgClient, or_default, disable_org, fetch_org}
use oracles.PacketVerifier.Orgs.Locks.{OrgLaws, IsTruthful}
use oracles.PacketVerifier.Verifier.{
  Daemon, PacketReport, uplink, join, payload_size_to_dc, bytes_per_dc, verify, handle_file,
  invalid_packet,
}
use oracles.PacketVerifier.Burner.Returns.{Taking, burn-ok}
use oracles.PacketVerifier.Burner.Ticks.{Idle}
use oracles.PacketVerifier.Monitor.{monitor_pass, monitor_each}
use oracles.PacketVerifier.Monitor.Unlocks.{Unlocked, funded, monitor_each-Unlocked}
use oracles.PacketVerifier.Monitor.Steady.{monitor_pass-InSync}
use oracles.PacketVerifier.Verifier.Files.{Settled, handle_file-Settled}
use oracles.PacketVerifier.Verifier.Writes.{Returns, Answering, Faultless}
use oracles.PacketVerifier.Verifier.Returns.{handle_file-Returns}
use oracles.PacketVerifier.Verifier.Packets.{Judged, payload_size_to_dc-ceil, verify-Judged}

-- A chain on which every payer holds 30000 credits, and which confirms all it is given.
abbrev net : SolanaNetwork ℕ ℕ ℕ
net = record {
  payer_balance = λ payer s. (done 30_000, s);
  make_burn_transaction = λ payer amount s. (done (amount + payer), s);
  submit_transaction = λ txn s. (done tt, s + 1);
  confirm_transaction = λ txn s. (done true, s);
  get_signature = λ txn. txn;
}

abbrev account : ℕ → ℕ → PayerAccount
account balance burned = record { balance = balance; burned = burned }

abbrev cache : Cache ℕ
cache = record { payer_accounts = (1, account 30_000 20_000) ∷ (2, account 500 0) ∷ []; chain = 0 }

abbrev tables : Tables
tables = record {
  pending_burns = (1, record { amount = pos 20_000; last_burn = 5 }) ∷ [];
  pending_txns = record { signature = 9; payer = 1; amount = 12_000; time_of_submission = 6 } ∷ [];
}

abbrev world : World ℕ
world = record { cache = cache; db = record { tables = tables; open_txn = tables; faults = [] } }

world-InSync : InSync world
unfolding lookup
world-InSync = record { keyed = (refl, tt); synced = λ q. ground arith }

cache-Bounded : Bounded cache.payer_accounts
unfolding lookup
cache-Bounded q a h = grind arith

cache-Owing : Owing cache.payer_accounts
unfolding lookup
cache-Owing q = ground arith

-- A service that keeps the locks of the organisations; organisation 5 pays from account 1.
abbrev service : OrgService (Dict Bool) ℕ
service = record {
  get = λ oui s. (done (if oui == 5 then some 1 else none), s);
  enable = λ oui s. (done tt, insert oui false s);
  disable = λ oui s. (done tt, insert oui true s);
  list = λ s. (done (record { oui = 6; payer = 1; locked = true } ∷ []), s);
}

abbrev client : OrgClient (Dict Bool)
client = record { server = (6, true) ∷ []; locked_cache = (6, false) ∷ [] }

set_lock :
    (oui q : ℕ) (b : Bool) (s s' : Dict Bool)
    → insert oui b s ≡ s'
    → or_default false (lookup q s') ≡ (if oui == q then b else or_default false (lookup q s))
set_lock oui q b s s' e =
    subst
      (λ x. or_default false (lookup q x) ≡ (if oui == q then b else or_default false (lookup q s)))
      e (grind (arith, lookup-insert oui q b s))

service_laws : OrgLaws service
service_laws = record {
  locked = λ s oui. or_default false (lookup oui s);
  disable_done = λ oui q s s' e. set_lock oui q true s s' (ap (λ r. r.1) e);
  enable_done = λ oui q s s' e. set_lock oui q false s s' (ap (λ r. r.1) e);
}

client-IsTruthful : IsTruthful service service_laws client
unfolding lookup service_laws
client-IsTruthful q = ground arith

chain_bounded : (payer s s' b : ℕ) → net.payer_balance payer s ≡ (done b, s') → b < 2 ^ 63
chain_bounded payer s s' b e = grind arith

debit_if_sufficient-After_example :
    Ends (After net chain_bounded 1 100 cache) (debit_if_sufficient net 1 100 50 cache)
debit_if_sufficient-After_example =
    debit_if_sufficient-After net chain_bounded 1 100 50 cache (omega arith) cache-Owing
      cache-Bounded

known_account : lookup 1 cache.payer_accounts ≡ some (account 30_000 20_000)
unfolding lookup
known_account = refl

-- The same payer, whose credits on chain are gone.
abbrev drained : SolanaNetwork ℕ ℕ ℕ
drained = record net { payer_balance = λ payer s. (done 10, s) }

debit_if_sufficient-wraps_example :
    ((debit_if_sufficient drained 1 100 9_901 cache).0 ≡ ok (some (2 ^ 64 + 10 - 20_100)))
    × (2 ^ 63 ≤ 2 ^ 64 + 10 - 20_100)
debit_if_sufficient-wraps_example =
    debit_if_sufficient-wraps drained 1 100 9_901 (account 30_000 20_000) cache known_account
      (omega arith) (omega arith) 10 0 (omega arith) refl (omega arith) (omega arith)

abbrev clock : BurnClock
clock = record { submitted = 7; burned = 8 }

burn-InSync_example : InSync (burn net clock world).1 × ((burn net clock world).0 ≢ panic)
burn-InSync_example = burn-InSync net clock world world-InSync

burn-Burned_example :
    (due : Option (PublicKey × BurnRow)) × IsDue world.db.tables.pending_burns due
    × Burned net world (Option.map burn_from_row due) (burn net clock world)
burn-Burned_example = burn-Burned net clock world world-InSync

payload_size_to_dc-ceil_example :
    (1 ≤ payload_size_to_dc 49) × ((payload_size_to_dc 49 ≤ 3) ↔ (49 ≤ bytes_per_dc * 3))
payload_size_to_dc-ceil_example = payload_size_to_dc-ceil 49 3 (omega arith) (omega arith)

abbrev daemon : Daemon ℕ (Dict Bool)
daemon = record {
  world = world;
  orgs = client;
  valid_packets = record { written = []; faults = [] };
  invalid_packets = record { written = []; faults = [] };
}

abbrev report : ℕ → PacketReport
report size = record {
  packet_type = uplink;
  oui = 5;
  timestamp = 1;
  payload_size = size;
  gateway = 3;
  payload_hash = 4;
}

-- Two uplinks, of which the second is too large for what is left, and a join request between them.
abbrev reports : List (PacketReport × ℕ)
reports = (report 49, 1) ∷ (record (report 24) { packet_type = join }, 2) ∷ (report 400_000, 3) ∷ []

handle_file-Settled_example :
    Ends (λ _ d. Settled net service chain_bounded d) (handle_file net service 100 reports daemon)
handle_file-Settled_example =
    handle_file-Settled net service chain_bounded 100 reports daemon (world-InSync, cache-Bounded)

verify-Judged_example :
    Ends (λ _ d. Judged net service reports daemon d) (verify net service 100 reports daemon)
verify-Judged_example = verify-Judged net service 100 reports daemon

-- A service that knows every organisation.
abbrev open_service : OrgService (Dict Bool) ℕ
open_service = record service { get = λ oui s. (done (some 1), s) }

answering : Answering net open_service
answering = record {
  payer_balance = λ payer c. (30_000, c, refl);
  get = λ oui s. (1, s, refl);
  disable = λ oui s. (insert oui true s, refl);
}

daemon-Faultless : Faultless daemon
daemon-Faultless = record { db = refl; valid_packets = refl; invalid_packets = refl }

handle_file-Returns_example : Returns Faultless (handle_file net open_service 100 reports daemon)
handle_file-Returns_example =
    handle_file-Returns net open_service answering 100 reports daemon daemon-Faultless

-- The burner, with nothing pending.
abbrev idle_world : World ℕ
idle_world = record world { db = record world.db { tables = record tables { pending_txns = [] } } }

idle_world-Idle : Idle net idle_world
unfolding lookup
idle_world-Idle = (record { keyed = (refl, tt); synced = λ q. ground arith }, refl)

taking : Taking net
taking = record {
  make_burn_transaction = λ payer amount c. (amount + payer, c, refl);
  submit_transaction = λ txn c. (c + 1, refl);
}

burn-ok_example : (burn net clock idle_world).0 ≡ ok tt
burn-ok_example = burn-ok net taking clock idle_world (idle_world-Idle.0) refl refl

abbrev orgs : List Org
orgs =
    record { oui = 6; payer = 1; locked = true }
    ∷ record { oui = 7; payer = 1; locked = false }
    ∷ []

constant : (payer c : ℕ) → (c' : ℕ) × (net.payer_balance payer c ≡ (done 30_000, c'))
constant payer c = (c, refl)

monitor_each-Unlocked_example :
    Ends
      (λ _ d.
        Unlocked net service service_laws
          (λ p. 30_000)
          constant
          (funded (λ p. 30_000) 100 orgs)
          daemon.orgs
          d.orgs)
      (monitor_each net service 100 orgs daemon)
monitor_each-Unlocked_example =
    monitor_each-Unlocked net service service_laws (λ p. 30_000) constant 100 orgs daemon
      client-IsTruthful

monitor_pass-InSync_example :
    InSync (monitor_pass net service 100 daemon).1.world
    × ((monitor_pass net service 100 daemon).0 ≢ panic)
monitor_pass-InSync_example = monitor_pass-InSync net service 100 daemon world-InSync

-- The run of the file: one packet is paid for, with three credits, and one is not, which locks the
-- organisation.
handled :
    (handle_file net service 100 reports daemon).1.invalid_packets.written
    ≡ invalid_packet (report 400_000) ∷ []
unfolding handle_file lookup insert fetch_org debit_if_sufficient payload_size_to_dc refreshed
    debit_account disable_org
handled = refl

handled_lock : lookup 5 (handle_file net service 100 reports daemon).1.orgs.server ≡ some true
unfolding handle_file lookup insert fetch_org debit_if_sufficient payload_size_to_dc refreshed
    debit_account disable_org
handled_lock = refl

burned_txn :
    (burn net clock world).1.db.tables.pending_burns
    ≡ (1, record { amount = pos 0; last_burn = 8 }) ∷ []
unfolding burn lookup insert fetch_next_burn add_pending_transaction begin
    remove_pending_transaction subtract_burned_amount commit update ◌-ℤ◌
burned_txn = refl
