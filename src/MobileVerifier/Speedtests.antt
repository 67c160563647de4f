-- ===== src/MobileVerifier/Speedtests.antt =====
-- mobile_verifier/src/speedtests_average.rs: the average of a gateway's speed tests, whether it is valid,
-- and its tier. A sum wraps around, as in a release build; a multiplier is a number of hundredths.
use oracles.Prelude.{ℕ, zero, suc, ◌+◌, ◌*◌, ◌/◌, ◌%◌, ◌^◌, List, [], ◌∷◌, ltb, leb, if◌then◌else◌}
pub mod Tiers
pub mod Averages

-- The report of a `Speedtest`; the key is its bytes.
pub record CellSpeedtest : Type 0 where
  pub pubkey : List ℕ
  pub upload_speed : ℕ
  pub download_speed : ℕ
  pub latency : ℕ

pub data SpeedtestAvgValidity : Type 0 where
  valid too_few_samples slow_download_speed slow_upload_speed high_latency : SpeedtestAvgValidity

pub data SpeedtestTier : Type 0 where
  failed poor degraded acceptable : SpeedtestTier

abbrev pub mbps : ℕ → ℕ
mbps n = n * 125000

abbrev pub min_required_samples : ℕ
min_required_samples = 2

abbrev pub min_download : ℕ
min_download = mbps 30

abbrev pub min_upload : ℕ
min_upload = mbps 2

abbrev pub max_latency : ℕ
max_latency = 100

-- The order of the tiers, from which `min` is derived.
abbrev pub rank : SpeedtestTier → ℕ
rank failed = 0
rank poor = 1
rank degraded = 2
rank acceptable = 3

abbrev pub min_tier : SpeedtestTier → SpeedtestTier → SpeedtestTier
min_tier a b = if leb (rank a) (rank b) then a else b

unfoldable pub into_multiplier : SpeedtestTier → ℕ
into_multiplier acceptable = 100
into_multiplier degraded = 50
into_multiplier poor = 25
into_multiplier failed = 0

unfoldable pub from_download_speed : ℕ → SpeedtestTier
from_download_speed speed =
    if leb (mbps 100) speed
    then acceptable
    else if leb (mbps 50) speed
    then degraded
    else if leb (mbps 30) speed
    then poor
    else failed

unfoldable pub from_upload_speed : ℕ → SpeedtestTier
from_upload_speed speed =
    if leb (mbps 10) speed
    then acceptable
    else if leb (mbps 5) speed
    then degraded
    else if leb (mbps 2) speed
    then poor
    else failed

unfoldable pub from_latency : ℕ → SpeedtestTier
from_latency latency =
    if leb latency 50
    then acceptable
    else if leb latency 75
    then degraded
    else if leb latency 100
    then poor
    else failed

unfoldable pub calculate_tier : ℕ → ℕ → ℕ → ℕ → SpeedtestTier
calculate_tier window_size upload download latency =
    if ltb window_size min_required_samples
    then failed
    else min_tier (min_tier (from_download_speed download) (from_upload_speed upload))
        (from_latency latency)

unfoldable pub validity : ℕ → ℕ → ℕ → ℕ → SpeedtestAvgValidity
validity window_size upload download latency =
    if ltb window_size min_required_samples
    then too_few_samples
    else if ltb download min_download
    then slow_download_speed
    else if ltb upload min_upload
    then slow_upload_speed
    else if ltb max_latency latency
    then high_latency
    else valid

pub record SpeedtestAverage : Type 0 where
  pub pubkey : List ℕ
  pub window_size : ℕ
  pub upload_speed_avg_bps : ℕ
  pub download_speed_avg_bps : ℕ
  pub latency_avg_ms : ℕ
  pub validity : SpeedtestAvgValidity
  pub reward_multiplier : ℕ
  pub speedtests : List CellSpeedtest

-- The locals of the loop.
pub record Sums : Type 0 where
  pub id : List ℕ
  pub window_size : ℕ
  pub sum_upload : ℕ
  pub sum_download : ℕ
  pub sum_latency : ℕ

abbrev pub add_speedtest : CellSpeedtest → Sums → Sums
add_speedtest t s = record {
  id = t.pubkey;
  window_size = s.window_size + 1;
  sum_upload = (s.sum_upload + t.upload_speed) % 2 ^ 64;
  sum_download = (s.sum_download + t.download_speed) % 2 ^ 64;
  sum_latency = (s.sum_latency + t.latency) % 2 ^ 32;
}

unfoldable pub add_speedtests : List CellSpeedtest → Sums → Sums
add_speedtests [] s = s
add_speedtests (t ∷ ts) s = add_speedtests ts (add_speedtest t s)

abbrev pub no_sums : Sums
no_sums = record { id = []; window_size = 0; sum_upload = 0; sum_download = 0; sum_latency = 0 }

unfoldable pub average_of : List CellSpeedtest → Sums → SpeedtestAverage
average_of speedtests s =
    let upload = s.sum_upload / s.window_size in
    let download = s.sum_download / s.window_size in
    let latency = s.sum_latency / s.window_size in
    if ltb 0 s.window_size
    then record {
      pubkey = s.id;
      window_size = s.window_size;
      upload_speed_avg_bps = upload;
      download_speed_avg_bps = download;
      latency_avg_ms = latency;
      validity = validity s.window_size upload download latency;
      reward_multiplier = into_multiplier (calculate_tier s.window_size upload download latency);
      speedtests = speedtests;
    }
    else record {
      pubkey = s.id;
      window_size = 0;
      upload_speed_avg_bps = s.sum_upload;
      download_speed_avg_bps = s.sum_download;
      latency_avg_ms = s.sum_latency;
      validity = too_few_samples;
      reward_multiplier = 0;
      speedtests = speedtests;
    }

unfoldable pub from_speedtests : List CellSpeedtest → SpeedtestAverage
from_speedtests speedtests = average_of speedtests (add_speedtests speedtests no_sums)
