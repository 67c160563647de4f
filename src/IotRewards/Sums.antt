-- ===== src/IotRewards/Sums.antt =====
-- iot_verifier/src/reward_share.rs: the sums of the rows of a gateway.
use oracles.Prelude.{
  ℕ, ◌≡◌, refl, ap, ◌∙◌, arith, Bool, true, false, List, [], ◌∷◌, filter, ltb, leb, ◌==◌, ◌&&◌,
  if◌then◌else◌, Dict, lookup, lookup-insert,
}
use oracles.IotRewards.{
  ReportType, beacon, witness, Decimals, GatewayPocShare, GatewayDcShare, RewardShares, or_none,
  at_entry, in_period, add_reward, add_poc_reward, add_dc_reward, add_poc_rows, add_dc_rows,
}

module _ {D : Type 0} (dec : Decimals D) where
  -- What the rows of one gateway come to, one after the other.
  abbrev pub poc_total : ℕ → List (GatewayPocShare D) → RewardShares D → RewardShares D
  poc_total key [] s = s
  poc_total key (row ∷ rows) s =
      poc_total key rows (if row.hotspot_key == key then add_poc_reward dec row s else s)

  abbrev pub dc_total : ℕ → List (GatewayDcShare D) → RewardShares D → RewardShares D
  dc_total key [] s = s
  dc_total key (row ∷ rows) s =
      dc_total key rows (if row.hotspot_key == key then add_dc_reward dec row s else s)

  lookup-at_entry :
      (k j : ℕ) (f : RewardShares D → RewardShares D) (d : Dict (RewardShares D))
      → or_none dec (lookup j (at_entry dec k f d))
        ≡ (if k == j then f (or_none dec (lookup j d)) else or_none dec (lookup j d))
  lookup-at_entry k j f d =
      ap (or_none dec) (lookup-insert k j (f (or_none dec (lookup k d))) d) ∙ grind arith

  pub lookup-add_poc_rows :
      (key : ℕ) (rows : List (GatewayPocShare D)) (d : Dict (RewardShares D))
      → or_none dec (lookup key (add_poc_rows dec rows d))
        ≡ poc_total key rows (or_none dec (lookup key d))
  unfolding add_poc_rows
  lookup-add_poc_rows key [] d = refl
  lookup-add_poc_rows key (row ∷ rows) d =
      lookup-add_poc_rows key rows (at_entry dec row.hotspot_key (add_poc_reward dec row) d)
      ∙ ap (poc_total key rows) (lookup-at_entry row.hotspot_key key (add_poc_reward dec row) d)

  pub lookup-add_dc_rows :
      (key : ℕ) (rows : List (GatewayDcShare D)) (d : Dict (RewardShares D))
      → or_none dec (lookup key (add_dc_rows dec rows d))
        ≡ dc_total key rows (or_none dec (lookup key d))
  unfolding add_dc_rows
  lookup-add_dc_rows key [] d = refl
  lookup-add_dc_rows key (row ∷ rows) d =
      lookup-add_dc_rows key rows (at_entry dec row.hotspot_key (add_dc_reward dec row) d)
      ∙ ap (dc_total key rows) (lookup-at_entry row.hotspot_key key (add_dc_reward dec row) d)

  abbrev pub sum_from : D → List D → D
  sum_from total [] = total
  sum_from total (x ∷ xs) = sum_from (dec.add total x) xs

  abbrev pub same_type : ReportType → ReportType → Bool
  same_type beacon beacon = true
  same_type witness witness = true
  same_type beacon witness = false
  same_type witness beacon = false

  abbrev pub within : ℕ → ℕ → ℕ → Bool
  within start end time = ltb start time && leb time end

  -- What a gateway's rows of the period count, of one type of share.
  abbrev pub poc_units : ReportType → ℕ → ℕ → ℕ → List (GatewayPocShare D) → List D
  poc_units type key start end [] = []
  poc_units type key start end (row ∷ rows) =
      let rest = poc_units type key start end rows in
      if within start end row.reward_timestamp
        && ((row.hotspot_key == key) && same_type row.reward_type type)
      then dec.mul row.hex_scale row.reward_unit ∷ rest
      else rest

  abbrev pub dc_units : ℕ → ℕ → ℕ → List (GatewayDcShare D) → List D
  dc_units key start end [] = []
  dc_units key start end (row ∷ rows) =
      let rest = dc_units key start end rows in
      if within start end row.reward_timestamp && (row.hotspot_key == key)
      then row.num_dcs ∷ rest
      else rest

  -- The three shares of an entry.
  pub record IsSum (beacons witnesses dcs : List D) (from s : RewardShares D) : Type 0 where
    pub beacon_shares : s.beacon_shares ≡ sum_from from.beacon_shares beacons
    pub witness_shares : s.witness_shares ≡ sum_from from.witness_shares witnesses
    pub dc_shares : s.dc_shares ≡ sum_from from.dc_shares dcs

  pub poc_total-IsSum :
      (key start end : ℕ) (rows : List (GatewayPocShare D)) (s : RewardShares D)
      → IsSum
          (poc_units beacon key start end rows)
          (poc_units witness key start end rows)
          []
          s
          (poc_total key (filter (λ row. in_period dec start end row.reward_timestamp) rows) s)
  unfolding add_poc_reward
  poc_total-IsSum key start end [] s = record {
    beacon_shares = refl;
    witness_shares = refl;
    dc_shares = refl;
  }
  poc_total-IsSum key start end (row ∷ rows) s =
      of_row (poc_total-IsSum key start end rows) (within start end row.reward_timestamp)
    where
      unit : D
      unit = dec.mul row.hex_scale row.reward_unit

      bs : List D
      bs = poc_units beacon key start end rows

      ws : List D
      ws = poc_units witness key start end rows

      rest : List (GatewayPocShare D)
      rest = filter (λ row. in_period dec start end row.reward_timestamp) rows

      Later : Type 0
      Later = (s : RewardShares D) → IsSum bs ws [] s (poc_total key rest s)

      of_key :
          Later
          → (k : Bool) (t : ReportType)
          → IsSum
              (if k && same_type t beacon then unit ∷ bs else bs)
              (if k && same_type t witness then unit ∷ ws else ws)
              []
              s
              (poc_total key rest (if k then add_reward dec t unit s else s))
      of_key later true beacon =
          let h = later (add_reward dec beacon unit s) in
          record {
            beacon_shares = h.beacon_shares;
            witness_shares = h.witness_shares;
            dc_shares = h.dc_shares;
          }
      of_key later true witness =
          let h = later (add_reward dec witness unit s) in
          record {
            beacon_shares = h.beacon_shares;
            witness_shares = h.witness_shares;
            dc_shares = h.dc_shares;
          }
      of_key later false beacon = later s
      of_key later false witness = later s

      of_row :
          Later
          → (p : Bool)
          → IsSum
              (if p && ((row.hotspot_key == key) && same_type row.reward_type beacon)
                then unit ∷ bs
                else bs)
              (if p && ((row.hotspot_key == key) && same_type row.reward_type witness)
                then unit ∷ ws
                else ws)
              []
              s
              (poc_total key (if p then row ∷ rest else rest) s)
      of_row later true = of_key later (row.hotspot_key == key) row.reward_type
      of_row later false = later s

  pub dc_total-IsSum :
      (key start end : ℕ) (rows : List (GatewayDcShare D)) (s : RewardShares D)
      → IsSum [] []
          (dc_units key start end rows)
          s
          (dc_total key (filter (λ row. in_period dec start end row.reward_timestamp) rows) s)
  unfolding add_dc_reward
  dc_total-IsSum key start end [] s = record {
    beacon_shares = refl;
    witness_shares = refl;
    dc_shares = refl;
  }
  dc_total-IsSum key start end (row ∷ rows) s =
      of_row (dc_total-IsSum key start end rows) (within start end row.reward_timestamp)
    where
      ds : List D
      ds = dc_units key start end rows

      rest : List (GatewayDcShare D)
      rest = filter (λ row. in_period dec start end row.reward_timestamp) rows

      Later : Type 0
      Later = (s : RewardShares D) → IsSum [] [] ds s (dc_total key rest s)

      of_key :
          Later
          → (k : Bool)
          → IsSum [] []
              (if k then row.num_dcs ∷ ds else ds)
              s
              (dc_total key rest (if k then add_dc_reward dec row s else s))
      of_key later true =
          let h = later (add_dc_reward dec row s) in
          record {
            beacon_shares = h.beacon_shares;
            witness_shares = h.witness_shares;
            dc_shares = h.dc_shares;
          }
      of_key later false = later s

      of_row :
          Later
          → (p : Bool)
          → IsSum [] []
              (if p && (row.hotspot_key == key) then row.num_dcs ∷ ds else ds)
              s
              (dc_total key (if p then row ∷ rest else rest) s)
      of_row later true = of_key later (row.hotspot_key == key)
      of_row later false = later s
