-- ===== src/MobileVerifier/Tests.antt =====
-- Runs of the models of mobile_verifier/src/speedtests_average.rs and mobile_verifier/src/coverage.rs.
use mathlib.Core.List.Perm
use oracles.Prelude.{
  Dict, insert, lookup, ℕ, ◌+◌, ◌*◌, ◌≤◌, ◌≡◌, refl, true, false, List, [], ◌∷◌, some, length, ok,
}
use oracles.Prelude.Int.{pos, negsuc}
use oracles.MobileVerifier.Speedtests.{
  average_of, validity, add_speedtests, from_download_speed, from_upload_speed, from_latency,
  CellSpeedtest, slow_upload_speed, calculate_tier, into_multiplier, from_speedtests,
}
use oracles.MobileVerifier.Coverage.{
  outdoor_points, indoor_level, pop_last, outdoor_rewards, indoor_points, add_hex, indoor_rewards,
  outdoor_level, weighted, OutdoorCoverageLevel, IndoorCoverageLevel, outdoor_le, indoor_le,
  CoveredHexes, cbrs, wifi, high, low, aggregate_coverage, into_coverage_rewards,
}
use oracles.MobileVerifier.Coverage.Aggregated.{
  Item, stream, Aggregated, aggregate_coverage-Aggregated,
}
use oracles.MobileVerifier.Coverage.Ranked.{
  IsSorted, OutdoorRewarded, IndoorRewarded, outdoor_rewards-IsBest,
}
use oracles.MobileVerifier.Coverage.Points.{total_points, into_coverage_rewards-bound}

abbrev pub test_of : ℕ → ℕ → ℕ → CellSpeedtest
test_of upload download latency = record {
  pubkey = 7 ∷ [];
  upload_speed = upload;
  download_speed = download;
  latency = latency;
}

abbrev pub fast : CellSpeedtest
fast = test_of 1_250_000 12_500_000 40

abbrev pub slow : CellSpeedtest
slow = test_of 100_000 12_500_000 60

average :
    ((from_speedtests (fast ∷ fast ∷ [])).reward_multiplier ≡ 100)
    × ((from_speedtests (fast ∷ slow ∷ [])).upload_speed_avg_bps ≡ 675_000)
    × ((from_speedtests (fast ∷ slow ∷ [])).reward_multiplier ≡ 50)
    × ((from_speedtests (slow ∷ slow ∷ [])).validity ≡ slow_upload_speed)
    × ((from_speedtests (fast ∷ [])).reward_multiplier ≡ 0)
unfolding from_speedtests average_of add_speedtests into_multiplier calculate_tier
    from_download_speed from_upload_speed from_latency validity
average = (refl, refl, refl, refl, refl)

-- An outdoor radio of each kind and an indoor one at the hex 5.
abbrev pub items : List Item
items =
    (
      record {
        hex = 5;
        indoor = false;
        radio_key = cbrs 1;
        signal_level = high;
        signal_power = negsuc 899;
        coverage_claim_time = 10;
      },
      5,
    )
    ∷ (
      record {
        hex = 5;
        indoor = false;
        radio_key = wifi 2;
        signal_level = low;
        signal_power = negsuc 799;
        coverage_claim_time = 20;
      },
      5,
    )
    ∷ (
      record {
        hex = 5;
        indoor = true;
        radio_key = cbrs 3;
        signal_level = low;
        signal_power = pos 0;
        coverage_claim_time = 30;
      },
      5,
    )
    ∷ []

abbrev pub no_hexes : CoveredHexes
no_hexes = record { indoor = []; outdoor = [] }

abbrev pub covered : CoveredHexes
covered = (aggregate_coverage {E = Unit {0}} (λ n. some n) 9 (stream items) no_hexes).1

aggregate_coverage-Aggregated_example :
    ((aggregate_coverage {E = Unit {0}} (λ n. some n) 9 (stream items) no_hexes).0 ≡ ok tt)
    × Aggregated 9 no_hexes items covered
aggregate_coverage-Aggregated_example =
    aggregate_coverage-Aggregated {E = Unit {0}} (λ n. some n) 9 items no_hexes
      (refl, (refl, (refl, tt)))

-- The heaps as they stand: 1600, 300 and 10000 hundredths.
points : total_points (into_coverage_rewards (λ l. l) (λ l. l) covered) ≡ 11_900
unfolding into_coverage_rewards aggregate_coverage add_hex insert outdoor_rewards weighted lookup
    outdoor_points outdoor_level indoor_rewards pop_last indoor_points indoor_level
points = refl

into_coverage_rewards-bound_example :
    total_points (into_coverage_rewards (λ l. l) (λ l. l) covered)
    ≤ 3200 * length covered.outdoor + 200000 * length covered.indoor
into_coverage_rewards-bound_example = into_coverage_rewards-bound (λ l. l) (λ l. l) covered

abbrev pub outdoor_at : ℕ → ℕ → OutdoorCoverageLevel
outdoor_at weaker claim = record {
  radio_key = cbrs claim;
  seniority_timestamp = claim;
  hotspot = 9;
  signal_power = negsuc weaker;
  signal_level = high;
}

abbrev pub indoor_at : ℕ → IndoorCoverageLevel
indoor_at claim = record {
  radio_key = cbrs claim;
  seniority_timestamp = claim;
  hotspot = 9;
  signal_level = high;
}

abbrev pub four_outdoor : List OutdoorCoverageLevel
four_outdoor = outdoor_at 799 10 ∷ outdoor_at 899 5 ∷ outdoor_at 899 7 ∷ outdoor_at 999 1 ∷ []

abbrev pub two_indoor : List IndoorCoverageLevel
two_indoor = indoor_at 3 ∷ indoor_at 8 ∷ []

abbrev pub two_levels : Dict (List IndoorCoverageLevel)
two_levels = (3, two_indoor) ∷ (1, indoor_at 2 ∷ []) ∷ []

four_outdoor-IsSorted : IsSorted outdoor_le four_outdoor four_outdoor
unfolding outdoor_le
four_outdoor-IsSorted = record {
  same = Perm.refl four_outdoor;
  ordered = ((refl, (refl, (refl, tt))), ((refl, (refl, tt)), ((refl, tt), (tt, tt))));
}

two_indoor-IsSorted : IsSorted indoor_le two_indoor two_indoor
unfolding indoor_le
two_indoor-IsSorted = record { same = Perm.refl two_indoor; ordered = ((refl, tt), (tt, tt)) }

one_indoor-IsSorted : IsSorted indoor_le (indoor_at 2 ∷ []) (indoor_at 2 ∷ [])
one_indoor-IsSorted = record { same = Perm.refl (indoor_at 2 ∷ []); ordered = (tt, tt) }

outdoor_rewards-IsBest_example :
    OutdoorRewarded (λ l. l) (λ l. l) 5 four_outdoor × IndoorRewarded (λ l. l) (λ l. l) 5 two_levels
outdoor_rewards-IsBest_example =
    outdoor_rewards-IsBest (λ l. l) (λ l. l) 5 four_outdoor two_levels four_outdoor-IsSorted
      (two_indoor-IsSorted, (one_indoor-IsSorted, tt))
