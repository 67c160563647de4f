-- ===== src/MobileVerifier/Coverage.antt =====
-- mobile_verifier/src/coverage.rs: the radios that cover each hex, and the rewards for them. A radio key,
-- a hotspot and a hex are numbers. A `HashMap` and a `BTreeMap` are association lists, a `BinaryHeap` is
-- the list of what was pushed, and `into_sorted_vec` of each heap is a parameter. Points are counted in
-- hundredths, which are exact here.
use oracles.Prelude.{
  ℕ, ◌+◌, ◌-◌, ◌*◌, ◌^◌, Bool, true, false, Option, none, some, List, [], ◌∷◌, ◌++◌, map, take,
  filter, ltb, leb, if◌then◌else◌, Dict, lookup, insert, Outcome, ok, err, panic, Reply, done,
  failed,
}
use oracles.Prelude.Int.{ℤ, pos, negsuc, ◌+ℤ◌, ◌-ℤ◌, ltb_ℤ}
pub mod Aggregated
pub mod Points
pub mod Ranked

pub data SignalLevel : Type 0 where
  no_signal low medium high : SignalLevel

-- Its derived order.
abbrev pub level_rank : SignalLevel → ℕ
level_rank no_signal = 0
level_rank low = 1
level_rank medium = 2
level_rank high = 3

pub data OwnedKeyType : Type 0 where
  cbrs wifi : ℕ → OwnedKeyType

abbrev pub is_wifi : OwnedKeyType → Bool
is_wifi (cbrs id) = false
is_wifi (wifi key) = true

-- The fields of a `HexCoverage` that the aggregation reads.
pub record HexCoverage : Type 0 where
  pub hex : ℕ
  pub indoor : Bool
  pub radio_key : OwnedKeyType
  pub signal_level : SignalLevel
  pub signal_power : ℤ
  pub coverage_claim_time : ℕ

pub record IndoorCoverageLevel : Type 0 where
  pub radio_key : OwnedKeyType
  pub seniority_timestamp : ℕ
  pub hotspot : ℕ
  pub signal_level : SignalLevel

pub record OutdoorCoverageLevel : Type 0 where
  pub radio_key : OwnedKeyType
  pub seniority_timestamp : ℕ
  pub hotspot : ℕ
  pub signal_power : ℤ
  pub signal_level : SignalLevel

-- `cmp` of two levels, as whether the first is not after the second: the stronger signal comes first, and
-- of two that are as strong the older claim; indoors only the claims count.
unfoldable pub outdoor_le : OutdoorCoverageLevel → OutdoorCoverageLevel → Bool
outdoor_le a b =
    if ltb_ℤ b.signal_power a.signal_power
    then true
    else if ltb_ℤ a.signal_power b.signal_power
    then false
    else leb a.seniority_timestamp b.seniority_timestamp

unfoldable pub indoor_le : IndoorCoverageLevel → IndoorCoverageLevel → Bool
indoor_le a b = leb a.seniority_timestamp b.seniority_timestamp

unfoldable pub indoor_points : SignalLevel → ℕ
indoor_points high = 400
indoor_points low = 100
indoor_points medium = 0
indoor_points no_signal = 0

unfoldable pub outdoor_points : SignalLevel → ℕ
outdoor_points high = 16
outdoor_points medium = 8
outdoor_points low = 4
outdoor_points no_signal = 0

pub record CoverageReward : Type 0 where
  pub radio_key : OwnedKeyType
  pub points : ℕ
  pub hotspot : ℕ

pub record CoveredHexes : Type 0 where
  pub indoor : Dict (Dict (List IndoorCoverageLevel))
  pub outdoor : Dict (List OutdoorCoverageLevel)

abbrev pub max_indoor_radios : ℕ
max_indoor_radios = 5

abbrev pub max_outdoor_radios : ℕ
max_outdoor_radios = 3

-- 1.0, 0.75 and 0.25.
abbrev pub outdoor_reward_weights : List ℕ
outdoor_reward_weights = 100 ∷ 75 ∷ 25 ∷ []

-- An i32 that is 300 less.
abbrev pub less_300 : ℤ → ℤ
less_300 power =
    let less = power -ℤ pos 300 in
    if ltb_ℤ less (negsuc (2 ^ 31 - 1)) then less +ℤ pos (2 ^ 32) else less

abbrev pub or_default {ℓ} : {A : Type ℓ} → Option (List A) → List A
or_default none = []
or_default (some xs) = xs

-- `map.entry(key).or_default().push(a)`.
abbrev pub push_at {ℓ} : {A : Type ℓ} → ℕ → A → Dict (List A) → Dict (List A)
push_at key a heaps = insert key (or_default (lookup key heaps) ++ (a ∷ [])) heaps

unfoldable pub indoor_level : ℕ → HexCoverage → IndoorCoverageLevel
indoor_level hotspot c = record {
  radio_key = c.radio_key;
  seniority_timestamp = c.coverage_claim_time;
  hotspot = hotspot;
  signal_level = c.signal_level;
}

unfoldable pub outdoor_level : ℕ → HexCoverage → OutdoorCoverageLevel
outdoor_level hotspot c = record {
  radio_key = c.radio_key;
  seniority_timestamp = c.coverage_claim_time;
  hotspot = hotspot;
  signal_power = if is_wifi c.radio_key then less_300 c.signal_power else c.signal_power;
  signal_level = c.signal_level;
}

-- The body of the loop, for a hex that is a cell.
unfoldable pub add_hex : ℕ → HexCoverage → ℕ → CoveredHexes → CoveredHexes
add_hex hotspot c cell hexes =
    if c.indoor
    then record {
      indoor =
          insert cell
            (push_at (level_rank c.signal_level) (indoor_level hotspot c)
              (or_default (lookup cell hexes.indoor)))
            hexes.indoor;
      outdoor = hexes.outdoor;
    }
    else record {
      indoor = hexes.indoor;
      outdoor = push_at cell (outdoor_level hotspot c) hexes.outdoor;
    }

-- `CellIndex::try_from` is a parameter; the unwrap of its error panics.
module _ {E : Type 0} (try_from : ℕ → Option ℕ) where
  unfoldable pub aggregate_coverage :
      ℕ → List (Reply E HexCoverage) → CoveredHexes → Outcome E (Unit {0}) × CoveredHexes
  aggregate_coverage hotspot [] hexes = (ok tt, hexes)
  aggregate_coverage hotspot (failed e ∷ rest) hexes = (err e, hexes)
  aggregate_coverage hotspot (done c ∷ rest) hexes = elim (try_from c.hex) [
    | none ↦ (panic, hexes)
    | some cell ↦ aggregate_coverage hotspot rest (add_hex hotspot c cell hexes)
  ]

-- `zip` with the weights, and the rewards by it.
unfoldable pub weighted : List OutdoorCoverageLevel → List ℕ → List CoverageReward
weighted [] weights = []
weighted (cl ∷ cls) [] = []
weighted (cl ∷ cls) (rank ∷ ranks) =
    record {
      radio_key = cl.radio_key;
      points = outdoor_points cl.signal_level * rank;
      hotspot = cl.hotspot;
    }
    ∷ weighted cls ranks

abbrev pub indoor_reward : IndoorCoverageLevel → CoverageReward
indoor_reward cl = record {
  radio_key = cl.radio_key;
  points = indoor_points cl.signal_level * 100;
  hotspot = cl.hotspot;
}

-- The entry with the greatest key.
unfoldable pub pop_last {ℓ} : {V : Type ℓ} → Dict V → Option (ℕ × V)
pop_last [] = none
pop_last (e ∷ d) = elim (pop_last d) [
  | none ↦ some e
  | some b ↦ if ltb e.0 b.0 then some b else some e
]

abbrev pub flat_map {ℓ κ} : {A : Type ℓ} {B : Type κ} → (A → List B) → List A → List B
flat_map f [] = []
flat_map f (x ∷ xs) = f x ++ flat_map f xs

module _ (sorted_outdoor : List OutdoorCoverageLevel → List OutdoorCoverageLevel)
    (sorted_indoor : List IndoorCoverageLevel → List IndoorCoverageLevel) where
  unfoldable pub outdoor_rewards : ℕ × List OutdoorCoverageLevel → List CoverageReward
  outdoor_rewards e = weighted (take max_outdoor_radios (sorted_outdoor e.1)) outdoor_reward_weights

  unfoldable pub indoor_rewards : ℕ × Dict (List IndoorCoverageLevel) → List CoverageReward
  indoor_rewards e = elim (pop_last e.1) [
    | none ↦ []
    | some l ↦ map indoor_reward (take max_indoor_radios (sorted_indoor l.1))
  ]

  unfoldable pub into_coverage_rewards : CoveredHexes → List CoverageReward
  into_coverage_rewards hexes =
      filter (λ r. ltb 0 r.points)
        (flat_map outdoor_rewards hexes.outdoor ++ flat_map indoor_rewards hexes.indoor)
