-- ===== src/MobileVerifier/Speedtests/Averages.antt =====
-- mobile_verifier/src/speedtests_average.rs: what the average of speed tests holds.
use oracles.Prelude.{
  ℕ, ◌+◌, ◌/◌, ◌^◌, ◌<◌, ◌≡◌, refl, ap, ◌∙◌, arith, ltb, ltb→ge, if-split, List, [], ◌∷◌, length,
}
use oracles.MobileVerifier.Speedtests.{
  CellSpeedtest, SpeedtestAverage, Sums, add_speedtest, add_speedtests, average_of, from_speedtests,
  no_sums,
}

abbrev pub total : (CellSpeedtest → ℕ) → List CellSpeedtest → ℕ
total f [] = 0
total f (t ∷ ts) = f t + total f ts

abbrev pub last_key : List ℕ → List CellSpeedtest → List ℕ
last_key key [] = key
last_key key (t ∷ ts) = last_key t.pubkey ts

abbrev pub uploads : List CellSpeedtest → ℕ
uploads = total (λ t. t.upload_speed)

abbrev pub downloads : List CellSpeedtest → ℕ
downloads = total (λ t. t.download_speed)

abbrev pub latencies : List CellSpeedtest → ℕ
latencies = total (λ t. t.latency)

-- The sums do not wrap around.
record Adds (s s' : Sums) (ts : List CellSpeedtest) : Type 0 where
  ids : s'.id ≡ last_key s.id ts
  counted : s'.window_size ≡ s.window_size + length ts
  uploaded : s'.sum_upload ≡ s.sum_upload + uploads ts
  downloaded : s'.sum_download ≡ s.sum_download + downloads ts
  delayed : s'.sum_latency ≡ s.sum_latency + latencies ts

add_speedtests-Adds :
    (ts : List CellSpeedtest) (s : Sums)
    → s.sum_upload + uploads ts < 2 ^ 64
    → s.sum_download + downloads ts < 2 ^ 64
    → s.sum_latency + latencies ts < 2 ^ 32
    → Adds s (add_speedtests ts s) ts
unfolding add_speedtests
add_speedtests-Adds [] s hu hd hl = record {
  ids = refl;
  counted = omega arith;
  uploaded = omega arith;
  downloaded = omega arith;
  delayed = omega arith;
}
add_speedtests-Adds (t ∷ ts) s hu hd hl =
    let ih = add_speedtests-Adds ts (add_speedtest t s) (omega arith) (omega arith) (omega arith) in
    record {
      ids = ih.ids;
      counted = omega (arith, ih.counted);
      uploaded = omega (arith, ih.uploaded);
      downloaded = omega (arith, ih.downloaded);
      delayed = omega (arith, ih.delayed);
    }

-- An average over n speed tests: the quotients of the sums, rounded down, of the tests in order.
pub record IsAverage (ts : List CellSpeedtest) (a : SpeedtestAverage) : Type 0 where
  pub key : a.pubkey ≡ last_key [] ts
  pub tests : a.speedtests ≡ ts
  pub window : a.window_size ≡ length ts
  pub upload : a.upload_speed_avg_bps ≡ uploads ts / length ts
  pub download : a.download_speed_avg_bps ≡ downloads ts / length ts
  pub latency : a.latency_avg_ms ≡ latencies ts / length ts

-- For one or more speed tests whose speeds add up to less than 2 ^ 64 and whose latencies to less than
-- 2 ^ 32: the average is over all of them, has the key of the last, and holds the means of the uploads,
-- the downloads and the latencies, rounded down.
pub from_speedtests-IsAverage :
    (t : CellSpeedtest) (ts : List CellSpeedtest)
    → uploads (t ∷ ts) < 2 ^ 64
    → downloads (t ∷ ts) < 2 ^ 64
    → latencies (t ∷ ts) < 2 ^ 32
    → IsAverage (t ∷ ts) (from_speedtests (t ∷ ts))
unfolding from_speedtests average_of
from_speedtests-IsAverage t ts hu hd hl =
    let a = add_speedtests-Adds (t ∷ ts) no_sums (omega arith) (omega arith) (omega arith) in
    let s = add_speedtests (t ∷ ts) no_sums in
    if-split (IsAverage (t ∷ ts)) (ltb 0 s.window_size)
      (λ b. record {
        key = a.ids;
        tests = refl;
        window = omega (arith, a.counted);
        upload = quotient (uploads (t ∷ ts)) (length (t ∷ ts)) a.uploaded a.counted;
        download = quotient (downloads (t ∷ ts)) (length (t ∷ ts)) a.downloaded a.counted;
        latency = quotient (latencies (t ∷ ts)) (length (t ∷ ts)) a.delayed a.counted;
      })
      (λ b. absurd (omega (arith, ltb→ge _ _ b, a.counted)))
  where
    strip : {x : ℕ} (y : ℕ) → x ≡ 0 + y → x ≡ y
    strip y h = omega (arith, h)

    quotient : {x m : ℕ} (y n : ℕ) → x ≡ 0 + y → m ≡ 0 + n → x / m ≡ y / n
    quotient {m = m} y n h k = ap (λ z. z / m) (strip y h) ∙ ap (λ z. y / z) (strip n k)
