-- ===== src/Lib.antt =====
-- Verification of parts of the oracles: the daemon that makes routers pay for LoRaWAN packets
-- (iot_packet_verifier), the judgement of proofs of coverage (iot_verifier/src/poc.rs) and the
-- runner that has them judged (iot_verifier/src/runner.rs), the device addresses of the IoT
-- configuration service (iot_config), the shares of the IoT rewards
-- (iot_verifier/src/reward_share.rs), the schedule of rewards (reward_scheduler), the speed tests
-- and the coverage of the mobile network (mobile_verifier), and the sessions of its data transfers
-- (mobile_packet_verifier).
--
-- The packet verifier charges each uplink packet to the organisation that owns its address range. A
-- file of reports is handled in one database transaction: for each uplink the organisation's payer is
-- looked up, the cache of balances is debited, the amount is added to the table of pending burns, and
-- the packet is written to the file of valid packets, or to that of invalid ones with the organisation
-- disabled. The burner works on the same table and the same cache: it burns the oldest pending amount
-- on chain, and after an error it confirms the transactions that are still pending.
--
-- A proof of coverage is a beacon with the reports of the gateways that heard it. Each report goes
-- through a chain of checks, of which the first that fails gives the reason of the refusal. The
-- runner takes the beacons that are ready from a table of reports, has each judged with its witnesses,
-- selects the witnesses to reward, saves the shares of the rewards, writes the result to a sink and
-- deletes the reports; after an error it counts an attempt, and the next tick tries again.
-- The purger writes out the reports that were never judged, and deletes them.
--
-- A net id owns a block of device addresses, which its type and its id give; three net ids are
-- Helium's, and an organisation checks addresses of theirs out of a store of used addresses. The
-- rewarders of both networks wait for the end of a period as the scheduler says. A mobile gateway's
-- speed tests are averaged to a multiplier, and for each hex the radios that cover it are collected,
-- of which a few are rewarded. The mobile packet verifier adds the bytes of the sessions that routers
-- report to a table, each event once, and burns what the sessions of a payer cost, all at a time.
--
-- The files, and the code that each is about:
--   Prelude: shared names, tests and lists on the native numbers, dictionaries, and calls that may
--     fail or panic (Prelude/Actions). A call returns its state however it ends. Prelude/Bits has
--     the laws of masks and leading ones, Prelude/Ranges ranges, filters and membership, Prelude/Sorted
--     lists in an order.
--   PacketVerifier/Solana: the trait SolanaNetwork of solana/src/lib.rs, as a record.
--   PacketVerifier/Balances: iot_packet_verifier/src/balances.rs. Debit has what a debit does to the
--     accounts, and Refresh what it answers.
--   PacketVerifier/Pending: iot_packet_verifier/src/pending.rs, the tables of pending burns and of
--     pending transactions. Sync has the agreement of table and cache, and Confirm is about
--     confirm_pending_txns.
--   PacketVerifier/Burner: iot_packet_verifier/src/burner.rs. Recorded and Sync are about
--     Burner::burn, Ticks about the loop of Burner::run, and Returns about a burn in which nothing fails.
--   PacketVerifier/Monitor: monitor_funds of iot_packet_verifier/src/verifier.rs, one pass of its loop.
--     Steady is about what it leaves as it was, and Unlocks about the organisations it enables.
--   PacketVerifier/Orgs: CachedOrgClient of iot_packet_verifier/src/verifier.rs. Locks and
--     Enabled are about its cache of locks.
--   PacketVerifier/Verifier: Verifier::verify of iot_packet_verifier/src/verifier.rs, and
--     Daemon::handle_file of iot_packet_verifier/src/daemon.rs. Charges and Files are about the
--     agreement of table and cache through a file, Packets about what is written, and Writes and
--     Returns about a file in which nothing fails.
--   Poc/Types, Poc/Externals: the data of iot_verifier/src/poc.rs, and what it calls and does not
--     implement (h3 cells, floats, the beacon crate, the filter of the deny list), as records.
--   Poc/Checks: every check of iot_verifier/src/poc.rs; Passed says when each lets a report through.
--   Poc/Beacon, Poc/Witness: do_beacon_verifications and verify_beacon, do_witness_verifications,
--     verify_witness and verify_witnesses. Accepted, Results, Answers and Loop are about them.
--   PocRunner/Select, PocRunner/Units: the selection of witnesses and the reward units of
--     iot_verifier/src/runner.rs. Select/Earliest is about the selection.
--   PocRunner/Reports: iot_verifier/src/poc_report.rs, the statements that the runner calls, with those
--     on the last beacons and on the shares. Attempts is about the attempts that are counted.
--   PocRunner/State, PocRunner/Conclude, PocRunner/Handler: the state of Runner, handle_valid_poc and
--     handle_invalid_poc, and handle_beacon_report with handle_db_tick, over an interface to the
--     verification. Steady and Steady/Saved are about the single calls, Concluded, Progress and Ticks
--     about the conclusion, a beacon and a tick.
--   PocRunner/Verification: Poc/Beacon and Poc/Witness as that interface.
--   PocPurger: iot_verifier/src/purger.rs with its statements of poc_report.rs and entropy.rs. Written
--     says what is written out, and Steps and Ticks are about the steps and a tick.
--   IotConfig/Fields, IotConfig/Text, IotConfig/NetIds: iot_config/src/lora_field.rs, the fields and
--     constraints, their text (RoundTrip), and the addresses of a net id. NetIds/Layout has an address
--     as its fields, Blocks the addresses of a net id, Owners the net id of any address, and Shared
--     the net ids of type 7.
--   IotConfig/Helium, IotConfig/Constraints, IotConfig/Checkout: iot_config/src/helium_netids.rs.
--     Helium/Agrees compares its constants with lora_field.rs, Constraints/Rebuilt is about
--     constraints_from_addrs, Checkout/Lowest about the choice of addresses, and Checkout/Claims about
--     what is asked of the store.
--   IotRewards: iot_verifier/src/reward_share.rs; Tokens has the tokens that are scheduled for a period
--     and the rewards per share. Sums is about the rows of one gateway, and Aggregates about the
--     aggregation of a period and the clearing of its shares.
--   RewardScheduler: reward_scheduler/src/lib.rs; Wakes is about its sleeps.
--   MobileVerifier/Speedtests: mobile_verifier/src/speedtests_average.rs. Tiers is about validity and
--     tier, Averages about the means.
--   MobileVerifier/Coverage: CoveredHexes of mobile_verifier/src/coverage.rs. Aggregated is about
--     aggregate_coverage, Ranked about which radios are rewarded, Points about the points of
--     into_coverage_rewards.
--   MobilePacketVerifier/Accumulate: mobile_packet_verifier/src/accumulate.rs, is_duplicate of
--     event_ids.rs there, and the arm of the loop of daemon.rs for a file. Table is about the upsert,
--     Events and Accepted about the round of a report, Sessions about a whole file, and Replayed about
--     a file that is handled again.
--   MobilePacketVerifier/Burner: mobile_packet_verifier/src/burner.rs. Totals and Entries are about the
--     groups of sessions, Settled, Rounds and Loop about the payers' rounds, and Paid about a burn.
--   The Tests of each part: runs at concrete states.
--
-- A number of 64 bits is a natural number with its wrap-around written out, as in a release build.
-- The chain, the configuration service, the database and the file sinks may fail at any call: the
-- first two are records of functions over a state of their own, and the last two take a schedule of
-- faults, any list of Booleans. A time is a number, given to the call that reads the clock. The
-- mutexes are held for the whole of a call, so calls are sequences of steps; runs of the burner
-- between two packets of a file are not modelled. A loop is structural recursion on a list or on the
-- number of addresses that are missing; the digits of a u64 take fuel 16, which is all that it has.
-- A decimal number of the coverage rewards and of a multiplier is a number of hundredths, which are
-- exact there. The store of addresses, the decoding of reports and the hash of their ids, the cells
-- of h3, the order of a HashMap, the sort of a BinaryHeap and the decimals of the IoT rewards are
-- parameters. The table files_processed has no state here; the statement of the packet verifier that
-- writes to it may fail, and that of the mobile one is left out. The runner handles up to 100 beacons of a tick at a time, and the purger up to 50
-- reports; here they follow one another. Fields that no modelled code reads (a report's signature,
-- channel, tmst, snr) are left out.
--
-- Not modelled: the sleeps and timers of the loops, the loading and queueing of reports, the update of
-- the deny list, organisations and routes of the configuration services, heartbeats, the
-- tables and the sharing of rewards of the mobile oracles, the ingest servers, the file store and the
-- price oracle; and the RPC calls, the servers and the metrics, which are input
-- and output.
pub mod Prelude
pub mod PacketVerifier
pub mod Poc
pub mod PocPurger
pub mod PocRunner
pub mod IotConfig
pub mod IotRewards
pub mod RewardScheduler
pub mod MobileVerifier
pub mod MobilePacketVerifier
