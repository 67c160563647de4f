-- ===== src/MobileVerifier/Coverage/Points.antt =====
-- mobile_verifier/src/coverage.rs: a bound on the points of the rewards.
use oracles.Prelude.{
  ℕ, zero, suc, ◌+◌, ◌*◌, ◌≤◌, ◌≡◌, arith, List, [], ◌∷◌, ◌++◌, map, take, filter, ltb, if-split,
  length, Option, none, some, Bool, Dict,
}
use oracles.MobileVerifier.Coverage.{
  SignalLevel, no_signal, low, medium, high, IndoorCoverageLevel, OutdoorCoverageLevel,
  CoverageReward, CoveredHexes, indoor_points, outdoor_points, weighted, indoor_reward,
  outdoor_reward_weights, flat_map, outdoor_rewards, indoor_rewards, into_coverage_rewards,
  pop_last, max_indoor_radios, max_outdoor_radios,
}

abbrev pub total_points : List CoverageReward → ℕ
total_points [] = 0
total_points (r ∷ rs) = r.points + total_points rs

total_points-++ :
    (a b : List CoverageReward) → total_points (a ++ b) ≡ total_points a + total_points b
total_points-++ [] b = omega arith
total_points-++ (r ∷ a) b = omega (arith, total_points-++ a b)

total_points-filter :
    (p : CoverageReward → Bool) (rs : List CoverageReward)
    → total_points (filter p rs) ≤ total_points rs
total_points-filter p [] = omega arith
total_points-filter p (r ∷ rs) =
    let ih = total_points-filter p rs in
    if-split (λ l. total_points l ≤ r.points + total_points rs) (p r) {x = r ∷ filter p rs}
      {y = filter p rs} (λ b. omega arith) (λ b. omega arith)

outdoor_points-le : (l : SignalLevel) → outdoor_points l ≤ 16
unfolding outdoor_points
outdoor_points-le no_signal = omega arith
outdoor_points-le low = omega arith
outdoor_points-le medium = omega arith
outdoor_points-le high = omega arith

indoor_points-le : (l : SignalLevel) → indoor_points l ≤ 400
unfolding indoor_points
indoor_points-le no_signal = omega arith
indoor_points-le low = omega arith
indoor_points-le medium = omega arith
indoor_points-le high = omega arith

abbrev sum : List ℕ → ℕ
sum [] = 0
sum (x ∷ xs) = x + sum xs

weighted-le :
    (cls : List OutdoorCoverageLevel) (ws : List ℕ) → total_points (weighted cls ws) ≤ 16 * sum ws
unfolding weighted
weighted-le [] ws = omega arith
weighted-le (c ∷ cls) [] = omega arith
weighted-le (c ∷ cls) (w ∷ ws) =
    let ih = weighted-le cls ws in
    let p = outdoor_points-le c.signal_level in
    product (outdoor_points c.signal_level) w (sum ws) p ih
  where
    product : (p w s : ℕ) {t : ℕ} → p ≤ 16 → t ≤ 16 * s → p * w + t ≤ 16 * (w + s)
    product p w s h k = grind arith

indoor-le :
    (n : ℕ) (cls : List IndoorCoverageLevel)
    → total_points (map indoor_reward (take n cls)) ≤ 40000 * n
indoor-le zero cls = omega arith
indoor-le (suc n) [] = omega arith
indoor-le (suc n) (c ∷ cls) = omega (arith, indoor-le n cls, indoor_points-le c.signal_level)

module _ (so : List OutdoorCoverageLevel → List OutdoorCoverageLevel)
    (si : List IndoorCoverageLevel → List IndoorCoverageLevel) where
  outdoor-hex : (e : ℕ × List OutdoorCoverageLevel) → total_points (outdoor_rewards so si e) ≤ 3200
  unfolding outdoor_rewards
  outdoor-hex e =
      omega (arith, weighted-le (take max_outdoor_radios (so e.1)) outdoor_reward_weights)

  indoor-hex :
      (e : ℕ × Dict (List IndoorCoverageLevel)) → total_points (indoor_rewards so si e) ≤ 200000
  unfolding indoor_rewards
  indoor-hex e = by_last (pop_last e.1)
    where
      by_last :
          (o : Option (ℕ × List IndoorCoverageLevel))
          → total_points
              (elim o [ none ↦ [] | some l ↦ map indoor_reward (take max_indoor_radios (si l.1)) ])
            ≤ 200000
      by_last none = omega arith
      by_last (some l) = omega (arith, indoor-le max_indoor_radios (si l.1))

flat_map-le {ℓ} :
    {A : Type ℓ} (f : A → List CoverageReward) (bound : ℕ) (xs : List A)
    → ((x : A) → total_points (f x) ≤ bound)
    → total_points (flat_map f xs) ≤ bound * length xs
flat_map-le f bound [] h = omega arith
flat_map-le f bound (x ∷ xs) h =
    product bound (length xs) (h x) (flat_map-le f bound xs h)
      (total_points-++ (f x) (flat_map f xs))
  where
    product : (b n : ℕ) {a r t : ℕ} → a ≤ b → r ≤ b * n → t ≡ a + r → t ≤ b * suc n
    product b n h k e = grind arith

-- For any ways to sort the radios of a hex: the points of all rewards come to at most 32 for each hex
-- with outdoor radios and 2000 for each hex with indoor radios, counted here in hundredths.
pub into_coverage_rewards-bound :
    (sorted_outdoor : List OutdoorCoverageLevel → List OutdoorCoverageLevel)
    (sorted_indoor : List IndoorCoverageLevel → List IndoorCoverageLevel) (hexes : CoveredHexes)
    → total_points (into_coverage_rewards sorted_outdoor sorted_indoor hexes)
      ≤ 3200 * length hexes.outdoor + 200000 * length hexes.indoor
unfolding into_coverage_rewards
into_coverage_rewards-bound so si hexes = omega (
  arith,
  total_points-filter (λ r. ltb 0 r.points)
      (flat_map (outdoor_rewards so si) hexes.outdoor
        ++ flat_map (indoor_rewards so si) hexes.indoor),
  total_points-++ (flat_map (outdoor_rewards so si) hexes.outdoor)
      (flat_map (indoor_rewards so si) hexes.indoor),
  flat_map-le (outdoor_rewards so si) 3200 hexes.outdoor (outdoor-hex so si),
  flat_map-le (indoor_rewards so si) 200000 hexes.indoor (indoor-hex so si),
)
