-- ===== src/IotRewards.antt =====
-- iot_verifier/src/reward_share.rs: the shares that beacons, witnesses and packets earn, and the rewards
-- for them. `Decimal` is a parameter, the record below, of which nothing is asked. A key, an id and a
-- time are numbers; the two tables are lists of rows, and `GatewayRewardShares` is a dictionary.
use oracles.Prelude.{
  ℕ, ◌+◌, ◌%◌, ◌^◌, Bool, true, false, ◌&&◌, ◌||◌, Option, none, some, List, [], ◌∷◌, ◌++◌, filter,
  ltb, leb, ◌==◌, if◌then◌else◌, Dict, lookup, insert,
}
pub mod Sums
pub mod Aggregates
pub mod Tokens
pub mod Tests

-- What the rewards use of rust_decimal: `round` is to 15 places with ties to even, `to_u64` drops what
-- stands behind the point, and has no answer out of range.
pub record Decimals (D : Type 0) : Type 0 where
  pub zero : D
  pub add : D → D → D
  pub sub : D → D → D
  pub mul : D → D → D
  pub div : D → D → D
  pub le : D → D → Bool
  pub gt : D → D → Bool
  pub round : D → D
  pub to_u64 : D → Option ℕ

pub data ReportType : Type 0 where
  beacon witness : ReportType

pub record GatewayPocShare (D : Type 0) : Type 0 where
  pub hotspot_key : ℕ
  pub reward_type : ReportType
  pub reward_timestamp : ℕ
  pub hex_scale : D
  pub reward_unit : D
  pub poc_id : ℕ

pub record GatewayDcShare (D : Type 0) : Type 0 where
  pub hotspot_key : ℕ
  pub reward_timestamp : ℕ
  pub num_dcs : D
  pub id : ℕ

-- The fields of an `IotPoc` that are read: those of its beacon, and of each selected witness.
pub record Participant (D : Type 0) : Type 0 where
  pub is_valid : Bool
  pub pub_key : ℕ
  pub received_timestamp : ℕ
  pub hex_scale : D
  pub reward_unit : D

pub record IotPoc (D : Type 0) : Type 0 where
  pub poc_id : ℕ
  pub beacon_report : Participant D
  pub selected_witnesses : List (Participant D)

pub record RewardShares (D : Type 0) : Type 0 where
  pub beacon_shares : D
  pub witness_shares : D
  pub dc_shares : D

-- The tables gateway_shares and gateway_dc_shares.
pub record Tables (D : Type 0) : Type 0 where
  pub gateway_shares : List (GatewayPocShare D)
  pub gateway_dc_shares : List (GatewayDcShare D)

pub record GatewayReward : Type 0 where
  pub hotspot_key : ℕ
  pub beacon_amount : ℕ
  pub witness_amount : ℕ
  pub dc_transfer_amount : ℕ

-- The upserts: the row with the same key is replaced, or the row goes to the end. The answer says
-- whether it was inserted.
abbrev pub replace_first {ℓ} : {A : Type ℓ} → (A → Bool) → A → List A → List A × Bool
replace_first same a [] = (a ∷ [], true)
replace_first same a (x ∷ xs) =
    let (ys, inserted) = replace_first same a xs in
    if same x then (a ∷ xs, false) else (x ∷ ys, inserted)

module _ {D : Type 0} where
  unfoldable pub save_poc_share : GatewayPocShare D → Tables D → Bool × Tables D
  save_poc_share share t =
      let (rows, inserted) =
        replace_first
          (λ row. (row.hotspot_key == share.hotspot_key) && (row.poc_id == share.poc_id)) share
          t.gateway_shares in
      (inserted, record { gateway_shares = rows; gateway_dc_shares = t.gateway_dc_shares })

  unfoldable pub save_dc_share : GatewayDcShare D → Tables D → Bool × Tables D
  save_dc_share share t =
      let (rows, inserted) = replace_first (λ row. row.id == share.id) share t.gateway_dc_shares in
      (inserted, record { gateway_shares = t.gateway_shares; gateway_dc_shares = rows })

  unfoldable pub clear_rewarded_shares : ℕ → Tables D → Tables D
  clear_rewarded_shares period_end t = record {
    gateway_shares = filter (λ row. ltb period_end row.reward_timestamp) t.gateway_shares;
    gateway_dc_shares = filter (λ row. ltb period_end row.reward_timestamp) t.gateway_dc_shares;
  }

module _ {D : Type 0} (dec : Decimals D) where
  -- A participant earns a share if its scale and its unit are more than zero.
  abbrev pub earns : Participant D → Bool
  earns p = dec.gt p.hex_scale dec.zero && dec.gt p.reward_unit dec.zero

  abbrev pub share_of : ReportType → ℕ → Participant D → GatewayPocShare D
  share_of reward_type poc_id p = record {
    hotspot_key = p.pub_key;
    reward_type = reward_type;
    reward_timestamp = p.received_timestamp;
    hex_scale = p.hex_scale;
    reward_unit = p.reward_unit;
    poc_id = poc_id;
  }

  unfoldable pub witness_shares_of : ℕ → List (Participant D) → List (GatewayPocShare D)
  witness_shares_of poc_id [] = []
  witness_shares_of poc_id (w ∷ ws) =
      let rest = witness_shares_of poc_id ws in
      if w.is_valid && earns w then share_of witness poc_id w ∷ rest else rest

  unfoldable pub shares_from_poc : IotPoc D → List (GatewayPocShare D)
  shares_from_poc report =
      (if earns report.beacon_report
        then share_of beacon report.poc_id report.beacon_report ∷ []
        else [])
      ++ witness_shares_of report.poc_id report.selected_witnesses

  abbrev pub no_shares : RewardShares D
  no_shares = record { beacon_shares = dec.zero; witness_shares = dec.zero; dc_shares = dec.zero }

  abbrev pub add_reward : ReportType → D → RewardShares D → RewardShares D
  add_reward beacon rewards s = record s { beacon_shares = dec.add s.beacon_shares rewards }
  add_reward witness rewards s = record s { witness_shares = dec.add s.witness_shares rewards }

  unfoldable pub add_poc_reward : GatewayPocShare D → RewardShares D → RewardShares D
  add_poc_reward share = add_reward share.reward_type (dec.mul share.hex_scale share.reward_unit)

  unfoldable pub add_dc_reward : GatewayDcShare D → RewardShares D → RewardShares D
  add_dc_reward share s = record s { dc_shares = dec.add s.dc_shares share.num_dcs }

  abbrev pub or_none : Option (RewardShares D) → RewardShares D
  or_none none = no_shares
  or_none (some s) = s

  -- `shares.entry(key).or_default()`, changed in place.
  abbrev pub at_entry :
      ℕ → (RewardShares D → RewardShares D) → Dict (RewardShares D) → Dict (RewardShares D)
  at_entry key change shares = insert key (change (or_none (lookup key shares))) shares

  -- `reward_timestamp > $1 and reward_timestamp <= $2`.
  abbrev pub in_period : ℕ → ℕ → ℕ → Bool
  in_period start end time = ltb start time && leb time end

  unfoldable pub add_poc_rows :
      List (GatewayPocShare D) → Dict (RewardShares D) → Dict (RewardShares D)
  add_poc_rows [] shares = shares
  add_poc_rows (row ∷ rows) shares =
      add_poc_rows rows (at_entry row.hotspot_key (add_poc_reward row) shares)

  unfoldable pub add_dc_rows :
      List (GatewayDcShare D) → Dict (RewardShares D) → Dict (RewardShares D)
  add_dc_rows [] shares = shares
  add_dc_rows (row ∷ rows) shares =
      add_dc_rows rows (at_entry row.hotspot_key (add_dc_reward row) shares)

  unfoldable pub aggregate_reward_shares : ℕ → ℕ → Tables D → Dict (RewardShares D)
  aggregate_reward_shares start end t =
      add_dc_rows (filter (λ row. in_period start end row.reward_timestamp) t.gateway_dc_shares) (
        add_poc_rows (filter (λ row. in_period start end row.reward_timestamp) t.gateway_shares) [])

  unfoldable pub normalize_dc_transfer_rewards : D → D → D × D
  normalize_dc_transfer_rewards used total =
      if dec.le used total then (dec.sub total used, used) else (dec.zero, total)

  unfoldable pub rewards_per_share : D → D → D
  rewards_per_share total_rewards total_shares =
      if dec.gt total_shares dec.zero
      then dec.round (dec.div total_rewards total_shares)
      else dec.zero

  abbrev pub or_zero : Option ℕ → ℕ
  or_zero none = 0
  or_zero (some n) = n

  unfoldable pub compute_rewards : D → D → ℕ
  compute_rewards per_share shares = or_zero (dec.to_u64 (dec.mul per_share shares))

  unfoldable pub gateway_reward : D → D → D → ℕ × RewardShares D → GatewayReward
  gateway_reward beacons witnesses dcs e = record {
    hotspot_key = e.0;
    beacon_amount = compute_rewards beacons e.1.beacon_shares;
    witness_amount = compute_rewards witnesses e.1.witness_shares;
    dc_transfer_amount = compute_rewards dcs e.1.dc_shares;
  }

  -- The sum of its amounts, a u64, and the reward.
  abbrev pub with_total : GatewayReward → ℕ × GatewayReward
  with_total r =
      (((r.dc_transfer_amount + r.beacon_amount) % 2 ^ 64 + r.witness_amount) % 2 ^ 64, r)

  unfoldable pub into_iot_reward_shares :
      D → D → D → Dict (RewardShares D) → List (ℕ × GatewayReward)
  into_iot_reward_shares beacons witnesses dcs [] = []
  into_iot_reward_shares beacons witnesses dcs (e ∷ shares) =
      let rest = into_iot_reward_shares beacons witnesses dcs shares in
      let r = gateway_reward beacons witnesses dcs e in
      if ltb 0 r.beacon_amount || (ltb 0 r.witness_amount || ltb 0 r.dc_transfer_amount)
      then with_total r ∷ rest
      else rest
