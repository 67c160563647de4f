-- ===== src/MobileVerifier/Speedtests/Tiers.antt =====
-- mobile_verifier/src/speedtests_average.rs: the validity and the multiplier of an average agree.
use oracles.Prelude.{ℕ, ◌/◌, ◌<◌, ◌≤◌, ◌≡◌, ◌↔◌, refl, arith, ltb, if◌then◌else◌, List}
use oracles.MobileVerifier.Speedtests.{
  CellSpeedtest, SpeedtestTier, failed, poor, degraded, acceptable, valid, min_required_samples,
  rank, min_tier, into_multiplier, from_download_speed, from_upload_speed, from_latency,
  calculate_tier, validity, add_speedtests, average_of, from_speedtests, no_sums,
}

validity-multiplier :
    (w u d l : ℕ) → (validity w u d l ≡ valid) ↔ (0 < into_multiplier (calculate_tier w u d l))
unfolding validity calculate_tier into_multiplier from_download_speed from_upload_speed from_latency
validity-multiplier w u d l = ground arith

-- For any list of speed tests, the empty one and sums that wrap around included: the average that it
-- makes is valid exactly if its reward multiplier is more than zero.
pub from_speedtests-multiplier :
    (speedtests : List CellSpeedtest)
    → ((from_speedtests speedtests).validity ≡ valid)
      ↔ (0 < (from_speedtests speedtests).reward_multiplier)
unfolding from_speedtests average_of
from_speedtests-multiplier speedtests =
    let s = add_speedtests speedtests no_sums in
    let agree =
      validity-multiplier s.window_size (s.sum_upload / s.window_size)
        (s.sum_download / s.window_size) (s.sum_latency / s.window_size) in
    ground (arith, agree)

from_download_speed_mono :
    (d d' : ℕ) → d ≤ d' → rank (from_download_speed d) ≤ rank (from_download_speed d')
unfolding from_download_speed
from_download_speed_mono d d' h = ground arith

from_upload_speed_mono :
    (u u' : ℕ) → u ≤ u' → rank (from_upload_speed u) ≤ rank (from_upload_speed u')
unfolding from_upload_speed
from_upload_speed_mono u u' h = ground arith

from_latency_mono : (l l' : ℕ) → l' ≤ l → rank (from_latency l) ≤ rank (from_latency l')
unfolding from_latency
from_latency_mono l l' h = ground arith

min_tier_mono :
    (a b a' b' : SpeedtestTier)
    → rank a ≤ rank a'
    → rank b ≤ rank b'
    → rank (min_tier a b) ≤ rank (min_tier a' b')
min_tier_mono a b a' b' h k = ground arith

gated :
    (w w' : ℕ) (t t' : SpeedtestTier)
    → w ≤ w'
    → rank t ≤ rank t'
    → rank (if ltb w min_required_samples then failed else t)
      ≤ rank (if ltb w' min_required_samples then failed else t')
gated w w' t t' h k = ground arith

tier_mono :
    (w u d l w' u' d' l' : ℕ)
    → w ≤ w'
    → u ≤ u'
    → d ≤ d'
    → l' ≤ l
    → rank (calculate_tier w u d l) ≤ rank (calculate_tier w' u' d' l')
unfolding calculate_tier
tier_mono w u d l w' u' d' l' hw hu hd hl =
    let speeds =
      min_tier_mono _ _ _ _ (from_download_speed_mono d d' hd) (from_upload_speed_mono u u' hu) in
    let all = min_tier_mono _ _ _ _ speeds (from_latency_mono l l' hl) in gated w w' _ _ hw all

abbrev multiplier_of_rank : ℕ → ℕ
multiplier_of_rank r = if ltb r 1 then 0 else if ltb r 2 then 25 else if ltb r 3 then 50 else 100

multiplier_of_rank_lem : (t : SpeedtestTier) → into_multiplier t ≡ multiplier_of_rank (rank t)
unfolding into_multiplier
multiplier_of_rank_lem failed = refl
multiplier_of_rank_lem poor = refl
multiplier_of_rank_lem degraded = refl
multiplier_of_rank_lem acceptable = refl

multiplier_mono : (a b : SpeedtestTier) → rank a ≤ rank b → into_multiplier a ≤ into_multiplier b
multiplier_mono a b h = ground (arith, multiplier_of_rank_lem a, multiplier_of_rank_lem b, h)

-- A gateway with no fewer samples, no lower speeds and no higher latency is in no lower tier, and so no
-- lower is its multiplier.
pub calculate_tier_mono :
    (w u d l w' u' d' l' : ℕ)
    → w ≤ w'
    → u ≤ u'
    → d ≤ d'
    → l' ≤ l
    → (rank (calculate_tier w u d l) ≤ rank (calculate_tier w' u' d' l'))
      × (into_multiplier (calculate_tier w u d l) ≤ into_multiplier (calculate_tier w' u' d' l'))
calculate_tier_mono w u d l w' u' d' l' hw hu hd hl =
    let h = tier_mono w u d l w' u' d' l' hw hu hd hl in (h, multiplier_mono _ _ h)
