-- ===== src/PocRunner/Units.antt =====
-- iot_verifier/src/runner.rs: the reward units of a beaconer and of its witnesses. `Decimal` is a
-- parameter; a unit is rounded to four places, and counts steps of 0.0001.
use oracles.Prelude.{ℕ, ◌-◌, Option, none, some, leb, ◌==◌, if◌then◌else◌}

-- What the units use of rust_decimal: `lit m s` is the literal of m with s places, and `ratio` the
-- quotient of two numbers as an f32.
pub record UnitDecimals (D : Type 0) : Type 0 where
  pub lit : ℕ → ℕ → D
  pub ratio : ℕ → ℕ → Option D
  pub of_u32 : ℕ → D
  pub sub : D → D → D
  pub div : D → D → D
  pub min : D → D → D
  pub checked_powu : D → ℕ → Option D
  pub round_dp : D → ℕ

-- WITNESS_REDUNDANCY.
abbrev pub witness_redundancy : ℕ
witness_redundancy = 4

module _ {D : Type 0} (dec : UnitDecimals D) where
  -- POC_REWARD_DECAY_RATE and HIP15_TX_REWARD_UNIT_CAP.
  abbrev pub poc_reward_decay_rate : D
  poc_reward_decay_rate = dec.lit 8 1

  abbrev pub tx_reward_unit_cap : D
  tx_reward_unit_cap = dec.lit 2 0

  abbrev pub capped : Option D → (D → D) → Option ℕ
  capped none unnormalized = none
  capped (some to_sub) unnormalized =
      some (dec.round_dp (dec.min tx_reward_unit_cap (unnormalized to_sub)))

  abbrev pub rounded : Option D → Option ℕ
  rounded none = none
  rounded (some units) = some (dec.round_dp units)

  unfoldable pub poc_beaconer_reward_unit : ℕ → Option ℕ
  poc_beaconer_reward_unit num_witnesses =
      if num_witnesses == 0
      then some (dec.round_dp (dec.lit 0 0))
      else if leb num_witnesses witness_redundancy
      then rounded (dec.ratio num_witnesses witness_redundancy)
      else capped (dec.checked_powu poc_reward_decay_rate (num_witnesses - witness_redundancy))
          (λ to_sub. dec.sub (dec.lit 2 0) to_sub)

  unfoldable pub poc_per_witness_reward_unit : ℕ → Option ℕ
  poc_per_witness_reward_unit num_witnesses =
      if num_witnesses == 0
      then some (dec.round_dp (dec.lit 0 0))
      else if leb num_witnesses witness_redundancy
      then some (dec.round_dp (dec.lit 1 0))
      else capped (dec.checked_powu poc_reward_decay_rate (num_witnesses - witness_redundancy))
          (λ to_sub.
            dec.div (dec.sub (dec.of_u32 witness_redundancy) (dec.sub (dec.lit 1 0) to_sub))
              (dec.of_u32 num_witnesses))
