-- ===== src/IotRewards/Aggregates.antt =====
-- iot_verifier/src/reward_share.rs: what the aggregation of a period counts for each gateway.
use oracles.Prelude.{
  ℕ, ◌≡◌, ◌≤◌, refl, ap, ◌∙◌, arith, Bool, true, false, List, [], ◌∷◌, filter, ltb, lookup,
}
use oracles.IotRewards.{
  beacon, witness, Decimals, GatewayPocShare, GatewayDcShare, RewardShares, Tables, no_shares,
  or_none, in_period, add_poc_rows, add_dc_rows, aggregate_reward_shares, clear_rewarded_shares,
}
use oracles.IotRewards.Sums.{
  IsSum, poc_units, dc_units, poc_total, dc_total, sum_from, poc_total-IsSum, dc_total-IsSum,
  lookup-add_poc_rows, lookup-add_dc_rows,
}

module _ {D : Type 0} (dec : Decimals D) where
  -- For any decimals, tables, period and gateway: the entry of the gateway in the aggregated shares,
  -- which is all zeros where there is none, has as beacon shares the sum of scale times unit over its
  -- rows of gateway_shares of the period that are of a beacon, as witness shares that over those of a
  -- witness, and as data credits the sum of the credits of its rows of gateway_dc_shares of the period.
  -- Each sum adds the rows one by one to zero, in their order; the period does not have its start.
  pub lookup-aggregate_reward_shares :
      (key start end : ℕ) (t : Tables D)
      → IsSum dec
          (poc_units dec beacon key start end t.gateway_shares)
          (poc_units dec witness key start end t.gateway_shares)
          (dc_units dec key start end t.gateway_dc_shares)
          (record { beacon_shares = dec.zero; witness_shares = dec.zero; dc_shares = dec.zero })
          (or_none dec (lookup key (aggregate_reward_shares dec start end t)))
  unfolding aggregate_reward_shares lookup
  lookup-aggregate_reward_shares key start end t =
      let pocs = filter (λ row. in_period dec start end row.reward_timestamp) t.gateway_shares in
      let dcs = filter (λ row. in_period dec start end row.reward_timestamp) t.gateway_dc_shares in
      let total = poc_total dec key pocs (no_shares dec) in
      let e =
        lookup-add_dc_rows dec key dcs (add_poc_rows dec pocs [])
        ∙ ap (dc_total dec key dcs) (lookup-add_poc_rows dec key pocs []) in
      let p = poc_total-IsSum dec key start end t.gateway_shares (no_shares dec) in
      let d = dc_total-IsSum dec key start end t.gateway_dc_shares total in
      record {
        beacon_shares =
            ap (λ (x : RewardShares D). x.beacon_shares) e ∙ d.beacon_shares ∙ p.beacon_shares;
        witness_shares =
            ap (λ (x : RewardShares D). x.witness_shares) e ∙ d.witness_shares ∙ p.witness_shares;
        dc_shares =
            ap (λ (x : RewardShares D). x.dc_shares) e
            ∙ d.dc_shares
            ∙ ap (λ x. sum_from dec x (dc_units dec key start end t.gateway_dc_shares)) p.dc_shares;
      }

filter-filter :
    {A : Type 0} (p q : A → Bool) (xs : List A)
    → ((x : A) → p x ≡ true → q x ≡ true)
    → filter p (filter q xs) ≡ filter p xs
filter-filter p q [] h = refl
filter-filter p q (x ∷ xs) h = let ih = filter-filter p q xs h in let k = h x in grind arith

filter-none :
    {A : Type 0} (p q : A → Bool) (xs : List A)
    → ((x : A) → q x ≡ true → p x ≡ false)
    → filter p (filter q xs) ≡ []
filter-none p q [] h = refl
filter-none p q (x ∷ xs) h = let ih = filter-none p q xs h in let k = h x in grind arith

module _ {D : Type 0} (dec : Decimals D) where
  later :
      (cleared start end time : ℕ)
      → cleared ≤ start
      → in_period dec start end time ≡ true
      → ltb cleared time ≡ true
  later cleared start end time h k = ground arith

  over :
      (cleared start end time : ℕ)
      → end ≤ cleared
      → ltb cleared time ≡ true
      → in_period dec start end time ≡ false
  over cleared start end time h k = ground arith

  past_rows :
      {A : Type 0} (time : A → ℕ) (cleared start end : ℕ) (rows : List A)
      → end ≤ cleared
      → filter (λ r. in_period dec start end (time r)) (filter (λ r. ltb cleared (time r)) rows)
        ≡ []
  past_rows time cleared start end rows h =
      filter-none (λ r. in_period dec start end (time r)) (λ r. ltb cleared (time r)) rows
        (λ r. over cleared start end (time r) h)

  next_rows :
      {A : Type 0} (time : A → ℕ) (cleared start end : ℕ) (rows : List A)
      → cleared ≤ start
      → filter (λ r. in_period dec start end (time r)) (filter (λ r. ltb cleared (time r)) rows)
        ≡ filter (λ r. in_period dec start end (time r)) rows
  next_rows time cleared start end rows h =
      filter-filter (λ r. in_period dec start end (time r)) (λ r. ltb cleared (time r)) rows
        (λ r. later cleared start end (time r) h)

  -- For any decimals and tables, and a time at which the rewarded shares are cleared: a period that ends
  -- then or earlier has no share left, so that none of its shares is rewarded again, and a period that
  -- starts then or later is aggregated as it was before the clearing.
  pub aggregate-clear_rewarded_shares :
      (cleared start end start' end' : ℕ) (t : Tables D)
      → end ≤ cleared
      → cleared ≤ start'
      → (aggregate_reward_shares dec start end (clear_rewarded_shares cleared t) ≡ [])
        × (aggregate_reward_shares dec start' end' (clear_rewarded_shares cleared t)
            ≡ aggregate_reward_shares dec start' end' t)
  unfolding aggregate_reward_shares clear_rewarded_shares add_poc_rows add_dc_rows
  aggregate-clear_rewarded_shares cleared start end start' end' t h h' = (
    same_rows (past_rows (λ r. r.reward_timestamp) cleared start end t.gateway_dc_shares h)
        (past_rows (λ r. r.reward_timestamp) cleared start end t.gateway_shares h),
    same_rows (next_rows (λ r. r.reward_timestamp) cleared start' end' t.gateway_dc_shares h')
        (next_rows (λ r. r.reward_timestamp) cleared start' end' t.gateway_shares h'),
  )
    where
      same_rows :
          {c c' : List (GatewayDcShare D)} {p p' : List (GatewayPocShare D)}
          → c ≡ c'
          → p ≡ p'
          → add_dc_rows dec c (add_poc_rows dec p []) ≡ add_dc_rows dec c' (add_poc_rows dec p' [])
      same_rows {c' = c'} {p = p} e f =
          ap (λ c. add_dc_rows dec c (add_poc_rows dec p [])) e
          ∙ ap (λ p. add_dc_rows dec c' (add_poc_rows dec p [])) f
