-- ===== src/IotRewards/Tokens.antt =====
-- iot_verifier/src/reward_share.rs: the tokens that are scheduled for a period, and the rewards per share.
-- A duration is a number of seconds, and the statics are the constants that they are made of.
use oracles.Prelude.{ℕ, [], ◌∷◌, Dict}
use oracles.Prelude.Int.{ℤ, pos}
use oracles.IotRewards.{Decimals, RewardShares, normalize_dc_transfer_rewards, rewards_per_share}

-- Further operations: `lit m s` is the literal of m with s places, `round_up` is to 15 places towards
-- positive infinity, and `floor` to none towards negative infinity.
pub record Literals (D : Type 0) : Type 0 where
  pub lit : ℕ → ℕ → D
  pub of_i64 : ℤ → D
  pub round_up : D → D
  pub floor : D → D

module _ {D : Type 0} (dec : Decimals D) (literals : Literals D) where
  abbrev pub rewards_per_day : D
  rewards_per_day =
      dec.mul (dec.div (literals.lit 32_500_000_000 0) (literals.lit 366 0))
        (literals.lit 1_000_000 0)

  abbrev pub dc_usd_price : D
  dc_usd_price = literals.lit 1 5

  unfoldable pub get_tokens_by_duration : D → ℤ → D
  get_tokens_by_duration tokens duration =
      dec.round (dec.mul (dec.div tokens (literals.of_i64 (pos 86_400))) (literals.of_i64 duration))

  -- A share of the rewards of a day: 0.06 for beacons, 0.24 for witnesses, 0.50 for data transfer, and
  -- 0.07 each for operations and oracles.
  abbrev pub scheduled : ℕ → ℤ → D
  scheduled percent duration =
      get_tokens_by_duration (dec.mul rewards_per_day (literals.lit percent 2)) duration

  unfoldable pub get_scheduled_poc_tokens : ℤ → D → D × D
  get_scheduled_poc_tokens duration dc_transfer_remainder = (
    dec.add (scheduled 6 duration) (dec.mul dc_transfer_remainder (literals.lit 20 2)),
    dec.add (scheduled 24 duration) (dec.mul dc_transfer_remainder (literals.lit 80 2)),
  )

  unfoldable pub get_scheduled_dc_tokens : ℤ → D
  get_scheduled_dc_tokens duration = scheduled 50 duration

  unfoldable pub get_scheduled_ops_fund_tokens : ℤ → D
  get_scheduled_ops_fund_tokens duration = scheduled 7 duration

  unfoldable pub get_scheduled_oracle_tokens : ℤ → D
  get_scheduled_oracle_tokens duration = scheduled 7 duration

  unfoldable pub iot_price_to_bones : D → D
  iot_price_to_bones iot_price =
      dec.div (dec.div iot_price (literals.lit 1_000_000 0)) (literals.lit 1_000_000 0)

  unfoldable pub dc_to_iot_bones : D → D → D
  dc_to_iot_bones dc_amount iot_price =
      literals.round_up (dec.div (dec.mul dc_amount dc_usd_price) (iot_price_to_bones iot_price))

  unfoldable pub iot_bones_to_dc : D → D → D
  iot_bones_to_dc iot_amount iot_price =
      literals.floor (dec.div (dec.mul iot_amount (iot_price_to_bones iot_price)) dc_usd_price)

  unfoldable pub total_shares : Dict (RewardShares D) → RewardShares D → RewardShares D
  total_shares [] sums = sums
  total_shares (e ∷ shares) sums = total_shares shares (record {
    beacon_shares = dec.add sums.beacon_shares e.1.beacon_shares;
    witness_shares = dec.add sums.witness_shares e.1.witness_shares;
    dc_shares = dec.add sums.dc_shares e.1.dc_shares;
  })

  unfoldable pub calculate_rewards_per_share : ℤ → D → Dict (RewardShares D) → D × D × D
  calculate_rewards_per_share duration iot_price shares =
      let total =
        total_shares shares
          (record { beacon_shares = dec.zero; witness_shares = dec.zero; dc_shares = dec.zero }) in
      let (unused, capped) =
        normalize_dc_transfer_rewards dec (dc_to_iot_bones total.dc_shares iot_price)
          (get_scheduled_dc_tokens duration) in
      let (beacons, witnesses) = get_scheduled_poc_tokens duration unused in
      (
        rewards_per_share dec beacons total.beacon_shares,
        rewards_per_share dec witnesses total.witness_shares,
        rewards_per_share dec capped total.dc_shares,
      )
