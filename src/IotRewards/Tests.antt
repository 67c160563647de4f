-- ===== src/IotRewards/Tests.antt =====
-- Runs of the model of iot_verifier/src/reward_share.rs, with whole numbers as decimals.
use oracles.Prelude.{
  insert, ℕ, ◌+◌, ◌-◌, ◌*◌, ◌≡◌, refl, arith, true, false, [], ◌∷◌, some, lookup, ltb, leb,
}
use oracles.IotRewards.{
  add_poc_rows, add_poc_reward, add_dc_rows, gateway_reward, add_dc_reward, compute_rewards,
  Decimals, Tables, GatewayPocShare, beacon, or_none, aggregate_reward_shares,
  clear_rewarded_shares, into_iot_reward_shares, save_poc_share,
}
use oracles.IotRewards.Sums.{IsSum}
use oracles.IotRewards.Aggregates.{lookup-aggregate_reward_shares, aggregate-clear_rewarded_shares}

abbrev pub whole : Decimals ℕ
whole = record {
  zero = 0;
  add = λ a b. a + b;
  sub = λ a b. a - b;
  mul = λ a b. a * b;
  div = λ a b. a;
  le = λ a b. leb a b;
  gt = λ a b. ltb b a;
  round = λ a. a;
  to_u64 = λ a. some a;
}

abbrev pub poc_row : ℕ → ℕ → ℕ → GatewayPocShare ℕ
poc_row key time unit = record {
  hotspot_key = key;
  reward_type = beacon;
  reward_timestamp = time;
  hex_scale = 2;
  reward_unit = unit;
  poc_id = time;
}

abbrev pub tables : Tables ℕ
tables = record {
  gateway_shares = poc_row 1 5 10 ∷ poc_row 2 10 20 ∷ poc_row 1 11 30 ∷ [];
  gateway_dc_shares = record { hotspot_key = 1; reward_timestamp = 7; num_dcs = 4; id = 1 } ∷ [];
}

lookup-aggregate_reward_shares_example :
    IsSum whole
      (20 ∷ [])
      []
      (4 ∷ [])
      (record { beacon_shares = 0; witness_shares = 0; dc_shares = 0 })
      (or_none whole (lookup 1 (aggregate_reward_shares whole 0 10 tables)))
lookup-aggregate_reward_shares_example = lookup-aggregate_reward_shares whole 1 0 10 tables

aggregate-clear_rewarded_shares_example :
    (aggregate_reward_shares whole 0 10 (clear_rewarded_shares 10 tables) ≡ [])
    × (aggregate_reward_shares whole 10 20 (clear_rewarded_shares 10 tables)
        ≡ aggregate_reward_shares whole 10 20 tables)
aggregate-clear_rewarded_shares_example =
    aggregate-clear_rewarded_shares whole 10 0 10 10 20 tables (omega arith) (omega arith)

-- The gateway 1 has 20 beacon shares and 4 data shares in the first period, and 60 in the next; the
-- gateway 2 has 40 in the first.
rewards :
    (into_iot_reward_shares whole 1 1 10 (aggregate_reward_shares whole 0 10 tables)
      ≡ (
        60,
        record { hotspot_key = 1; beacon_amount = 20; witness_amount = 0; dc_transfer_amount = 40 },
      )
        ∷ (
          40,
          record {
            hotspot_key = 2;
            beacon_amount = 40;
            witness_amount = 0;
            dc_transfer_amount = 0;
          },
        )
        ∷ [])
    × (into_iot_reward_shares whole 0 1 10 (aggregate_reward_shares whole 10 20 tables) ≡ [])
unfolding into_iot_reward_shares aggregate_reward_shares add_dc_rows insert add_poc_rows
    gateway_reward compute_rewards add_dc_reward lookup add_poc_reward
rewards = (refl, refl)

-- A second share with the same key and id replaces the first.
upsert :
    ((save_poc_share (poc_row 2 10 25) tables).0 ≡ false)
    × ((save_poc_share (poc_row 3 10 25) tables).0 ≡ true)
unfolding save_poc_share
upsert = (refl, refl)
