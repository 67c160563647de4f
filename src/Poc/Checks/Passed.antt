-- ===== src/Poc/Checks/Passed.antt =====
-- When a check of iot_verifier/src/poc.rs lets a report through.
use oracles.Prelude.{
  ℕ, ◌+◌, ◌^◌, ◌≤◌, ◌<◌, ◌≡◌, ◌≢◌, refl, ◌↔◌, Bool, true, false, Option, none, some, ok, [], ◌∷◌,
  arith,
}
use oracles.Prelude.Int.{int_laws}
use oracles.Poc.Types
use oracles.Poc.Externals.{Cells, DenyList}
use oracles.Poc.Checks.{
  ◌&>◌, refuse_if, verify_denylist, contains_key, contains_edge, verify_edge_denylist,
  verify_entropy, verify_gw_capability, verify_beacon_schedule, verify_witness_lag,
  verify_self_witness, verify_witness_freq, verify_witness_region, verify_witness_data, eq_bytes,
  verify_witness_distance, calc_distance, check_distance, check_cell_distance,
  verify_witness_cell_distance, calc_cell_distance,
}

abbrev pub Passes : Types.VerifyResult → Type 0
Passes r = r ≡ ok tt

pub refuse_if_iff : (b : Bool) (r : Types.InvalidReason) → Passes (refuse_if b r) ↔ (b ≡ false)
refuse_if_iff b r = ground arith

pub &>_iff : (a b : Types.VerifyResult) → Passes (a &> b) ↔ (Passes a × Passes b)
&>_iff a b = ground arith

-- Two checks in a row, by what each of them asks for.
pub &>_all :
    (a b : Types.VerifyResult) (P Q : Type 0)
    → Passes a ↔ P
    → Passes b ↔ Q
    → Passes (a &> b) ↔ (P × Q)
&>_all a b P Q (f, g) (h, k) =
    let i = &>_iff a b in (λ r. let (p, q) = i.0 r in (f p, h q), λ (p, q). i.1 (g p, k q))

pub verify_denylist_iff :
    (key : Types.PublicKey) (l : DenyList)
    → Passes (verify_denylist key l) ↔ (contains_key l key ≡ false)
unfolding verify_denylist
verify_denylist_iff key l = ground arith

pub verify_entropy_iff :
    (s e r : ℕ)
    → Passes (verify_entropy s e r)
      ↔ ((Types.seconds s ≤ Types.seconds r) × (Types.seconds r ≤ Types.seconds e))
unfolding verify_entropy
verify_entropy_iff s e r = ground arith

pub verify_edge_denylist_iff :
    (b w : Types.PublicKey) (l : DenyList)
    → Passes (verify_edge_denylist b w l) ↔ (contains_edge l b w ≡ false)
unfolding verify_edge_denylist
verify_edge_denylist_iff b w l = ground arith

pub verify_gw_capability_iff : (b : Bool) → Passes (verify_gw_capability b) ↔ (b ≡ true)
unfolding verify_gw_capability
verify_gw_capability_iff b = ground arith

-- The report lies in a later interval than the last beacon, if there is one.
abbrev pub LaterBucket : (ℕ → ℕ → Option ℕ) → Option Types.LastBeacon → ℕ → ℕ → Type 0
LaterBucket trunc none received interval = Unit {0}
LaterBucket trunc (some last) received interval =
    (a : ℕ) × (b : ℕ) × (trunc last.timestamp interval ≡ some a)
    × (trunc received interval ≡ some b)
    × (a < b)

pub verify_beacon_schedule_iff :
    (trunc : ℕ → ℕ → Option ℕ) (last : Option Types.LastBeacon) (received interval : ℕ)
    → Passes (verify_beacon_schedule trunc last received interval)
      ↔ LaterBucket trunc last received interval
unfolding verify_beacon_schedule
verify_beacon_schedule_iff trunc none received interval = ground arith
verify_beacon_schedule_iff trunc (some last) received interval = ground arith

-- Up to four seconds after the beacon, or a second and a half after the first witness if that was
-- received before the beacon.
abbrev pub InTime : ℕ → ℕ → ℕ → Type 0
InTime beacon first received =
    (beacon ≤ first → received ≤ beacon + 4_000_000_000)
    × (first < beacon → received ≤ first + 1_500_000_000)

pub verify_witness_lag_iff : (b f r : ℕ) → Passes (verify_witness_lag b f r) ↔ InTime b f r
unfolding verify_witness_lag
verify_witness_lag_iff b f r = ground arith

pub verify_self_witness_iff : (b w : ℕ) → Passes (verify_self_witness b w) ↔ (b ≢ w)
unfolding verify_self_witness
verify_self_witness_iff b w = ground arith

pub verify_witness_freq_iff :
    (b w : ℕ)
    → b < 2 ^ 31
    → w < 2 ^ 31
    → Passes (verify_witness_freq b w) ↔ ((b ≤ w + 100_000) × (w ≤ b + 100_000))
unfolding verify_witness_freq
verify_witness_freq_iff b w hb hw = grind (int_laws, arith)

pub verify_witness_region_iff : (b w : ℕ) → Passes (verify_witness_region b w) ↔ (b ≡ w)
unfolding verify_witness_region
verify_witness_region_iff b w = ground arith

eq_bytes_iff : (xs ys : Types.Bytes) → (eq_bytes xs ys ≡ true) ↔ (xs ≡ ys)
unfolding eq_bytes
eq_bytes_iff [] [] = ground arith
eq_bytes_iff [] (y ∷ ys) = ground arith
eq_bytes_iff (x ∷ xs) [] = ground arith
eq_bytes_iff (x ∷ xs) (y ∷ ys) = let ih = eq_bytes_iff xs ys in grind arith

pub verify_witness_data_iff : (b w : Types.Bytes) → Passes (verify_witness_data b w) ↔ (w ≡ b)
unfolding verify_witness_data
verify_witness_data_iff b w = let e = eq_bytes_iff w b in ground arith

module _ {Cell : Type 0} (cells : Cells Cell) where
  -- A distance that can be computed and is at most a hundred whole kilometres.
  abbrev pub Near : ℕ → ℕ → Type 0
  Near p q = (d : ℕ) × (calc_distance cells p q ≡ some d) × (d < 101_000)

  near_iff :
      (d : Option ℕ) → Passes (check_distance cells d) ↔ ((m : ℕ) × (d ≡ some m) × (m < 101_000))
  unfolding check_distance
  near_iff none = ground arith
  near_iff (some m) = (λ h. (m, refl, ground arith), λ h. ground arith)

  pub verify_witness_distance_iff :
      (p q : ℕ) → Passes (verify_witness_distance cells p q) ↔ Near p q
  unfolding verify_witness_distance
  verify_witness_distance_iff p q = near_iff (calc_distance cells p q)

  abbrev pub Apart : ℕ → ℕ → Type 0
  Apart p q = (d : ℕ) × (calc_cell_distance cells p q ≡ some d) × (8 ≤ d)

  apart_iff :
      (d : Option ℕ) → Passes (check_cell_distance cells d) ↔ ((m : ℕ) × (d ≡ some m) × (8 ≤ m))
  unfolding check_cell_distance
  apart_iff none = ground arith
  apart_iff (some m) = (λ h. (m, refl, ground arith), λ h. ground arith)

  pub verify_witness_cell_distance_iff :
      (p q : ℕ) → Passes (verify_witness_cell_distance cells p q) ↔ Apart p q
  unfolding verify_witness_cell_distance
  verify_witness_cell_distance_iff p q = apart_iff (calc_cell_distance cells p q)

-- Frequencies that differ by 2^31 or more, and by less than 2^32, pass: the difference is negative
-- as an `i32`.
pub verify_witness_freq-wraps :
    (b w : ℕ) → b + 2 ^ 31 ≤ w → w < b + 2 ^ 32 → Passes (verify_witness_freq b w)
unfolding verify_witness_freq
verify_witness_freq-wraps b w h k = grind (int_laws, arith)
