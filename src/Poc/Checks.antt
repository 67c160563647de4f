-- ===== src/Poc/Checks.antt =====
-- The checks of iot_verifier/src/poc.rs.
use oracles.Prelude.{
  ℕ, ◌+◌, ◌-◌, ◌*◌, ◌/◌, ◌%◌, ◌^◌, Bool, true, false, not, ◌||◌, Option, none, some, ok, err, panic,
  ltb, leb, ◌==◌, if◌then◌else◌, [], ◌∷◌, ◌&&◌,
}
use oracles.Prelude.Int.{ℤ, pos, negsuc, ltb_ℤ, sub_ℕ}
use oracles.Poc.Types.{
  PublicKey, Bytes, seconds, InvalidReason, denied, denied_edge, self_witness, entropy_expired,
  invalid_capability, irregular_interval, invalid_packet, too_late, invalid_frequency,
  invalid_region, max_distance_exceeded, below_min_distance, bad_rssi, denylist_tag, VerifyResult,
  LastBeacon,
}
use oracles.Poc.Externals.{Cells, Floats, DenyList}
pub mod Passed

-- The operator `?` on a check, and what follows it.
infixr 4 ◌&>◌
abbrev pub ◌&>◌ : VerifyResult → VerifyResult → VerifyResult
ok _ &> k = k
err e &> k = err e
panic &> k = panic

-- `Err(InvalidResponse { reason, details: None })`.
abbrev pub refuse : InvalidReason → VerifyResult
refuse reason = err (record { reason = reason; details = none })

-- An early return of a reason if the test holds.
abbrev pub refuse_if : Bool → InvalidReason → VerifyResult
refuse_if true reason = refuse reason
refuse_if false reason = ok tt

-- `DenyList::contains_key`: with no filter every key counts as denied.
abbrev pub contains_key : DenyList → PublicKey → Bool
contains_key l key = elim l.filter [ none ↦ true | some f ↦ f.contains key ]

abbrev pub contains_edge : DenyList → PublicKey → PublicKey → Bool
contains_edge l b w = elim l.filter [ none ↦ true | some f ↦ f.contains_edge b w ]

abbrev refuse_tagged : Bool → InvalidReason → ℕ → VerifyResult
refuse_tagged true reason tag = err (record { reason = reason; details = some (denylist_tag tag) })
refuse_tagged false reason tag = ok tt

unfoldable pub verify_denylist : PublicKey → DenyList → VerifyResult
verify_denylist key l = refuse_tagged (contains_key l key) denied l.tag_name

unfoldable pub verify_edge_denylist : PublicKey → PublicKey → DenyList → VerifyResult
verify_edge_denylist b w l = refuse_tagged (contains_edge l b w) denied_edge l.tag_name

unfoldable pub verify_entropy : ℕ → ℕ → ℕ → VerifyResult
verify_entropy entropy_start entropy_end received =
    refuse_if
      (ltb (seconds received) (seconds entropy_start)
        || ltb (seconds entropy_end) (seconds received))
      entropy_expired

unfoldable pub verify_gw_capability : Bool → VerifyResult
verify_gw_capability is_full_hotspot = refuse_if (not is_full_hotspot) invalid_capability

-- `duration_trunc` stands outside: it cuts a time to a multiple of the interval, or fails.
abbrev compare_buckets : Option ℕ → Option ℕ → VerifyResult
compare_buckets (some last) (some cur) = refuse_if (leb cur last) irregular_interval
compare_buckets (some last) none = panic
compare_buckets none cur = panic

unfoldable pub verify_beacon_schedule :
    (ℕ → ℕ → Option ℕ) → Option LastBeacon → ℕ → ℕ → VerifyResult
verify_beacon_schedule duration_trunc none received interval = ok tt
verify_beacon_schedule duration_trunc (some last) received interval =
    compare_buckets (duration_trunc last.timestamp interval) (duration_trunc received interval)

-- MAX_WITNESS_LAG and MAX_BEACON_TO_WITNESS_LAG.
abbrev pub max_witness_lag : ℕ
max_witness_lag = 1_500_000_000

abbrev pub max_beacon_to_witness_lag : ℕ
max_beacon_to_witness_lag = 4_000_000_000

-- The lag is negative where the report came before the first event, and is then within any limit;
-- so it may be cut off at zero.
abbrev pub lag_over : ℕ → ℕ × ℕ → Bool
lag_over received (first, limit) = ltb limit (received - first)

unfoldable pub verify_witness_lag : ℕ → ℕ → ℕ → VerifyResult
verify_witness_lag beacon_received first_witness received =
    refuse_if
      (lag_over received (
        if leb beacon_received first_witness
        then (beacon_received, max_beacon_to_witness_lag)
        else (first_witness, max_witness_lag)))
      too_late

unfoldable pub verify_self_witness : PublicKey → PublicKey → VerifyResult
verify_self_witness beacon_key witness_key = refuse_if (witness_key == beacon_key) self_witness

abbrev pub abs_diff : ℕ → ℕ → ℕ
abs_diff a b = (a - b) + (b - a)

-- `as i32` of a `u64`.
abbrev pub as_i32 : ℕ → ℤ
as_i32 n = if ltb (n % 2 ^ 32) (2 ^ 31) then pos (n % 2 ^ 32) else negsuc (2 ^ 32 - n % 2 ^ 32 - 1)

unfoldable pub verify_witness_freq : ℕ → ℕ → VerifyResult
verify_witness_freq beacon_freq witness_freq =
    refuse_if (ltb_ℤ (pos (1000 * 100)) (as_i32 (abs_diff beacon_freq witness_freq)))
      invalid_frequency

unfoldable pub verify_witness_region : ℕ → ℕ → VerifyResult
verify_witness_region beacon_region witness_region =
    refuse_if (not (beacon_region == witness_region)) invalid_region

unfoldable pub eq_bytes : Bytes → Bytes → Bool
eq_bytes [] [] = true
eq_bytes [] (y ∷ ys) = false
eq_bytes (x ∷ xs) [] = false
eq_bytes (x ∷ xs) (y ∷ ys) = (x == y) && eq_bytes xs ys

unfoldable pub verify_witness_data : Bytes → Bytes → VerifyResult
unfolding eq_bytes
verify_witness_data beacon_data witness_data =
    refuse_if (not (eq_bytes witness_data beacon_data)) invalid_packet

module _ {Cell : Type 0} (cells : Cells Cell) where
  abbrev cell_pair : {A : Type 0} → (Cell → Cell → Option A) → Option Cell → Option Cell → Option A
  cell_pair f (some a) (some b) = f a b
  cell_pair f (some a) none = none
  cell_pair f none b = none

  -- `calc_cell_distance`: the errors are told apart by nobody.
  unfoldable pub calc_cell_distance : ℕ → ℕ → Option ℕ
  calc_cell_distance p1 p2 =
      cell_pair (λ a b. cell_pair cells.grid_distance (cells.parent a) (cells.parent b))
        (cells.try_from p1) (cells.try_from p2)

  unfoldable pub calc_distance : ℕ → ℕ → Option ℕ
  calc_distance p1 p2 =
      cell_pair (λ a b. some (cells.distance_m a b)) (cells.try_from p1) (cells.try_from p2)

  -- POC_DISTANCE_LIMIT, in km.
  unfoldable pub check_distance : Option ℕ → VerifyResult
  check_distance none = refuse max_distance_exceeded
  check_distance (some d) = refuse_if (ltb 100 (d / 1000)) max_distance_exceeded

  unfoldable pub verify_witness_distance : ℕ → ℕ → VerifyResult
  unfolding check_distance
  verify_witness_distance beacon_loc witness_loc =
      check_distance (calc_distance beacon_loc witness_loc)

  -- POC_CELL_DISTANCE_MINIMUM.
  unfoldable pub check_cell_distance : Option ℕ → VerifyResult
  check_cell_distance none = refuse below_min_distance
  check_cell_distance (some d) = refuse_if (ltb d 8) below_min_distance

  unfoldable pub verify_witness_cell_distance : ℕ → ℕ → VerifyResult
  unfolding check_cell_distance
  verify_witness_cell_distance beacon_loc witness_loc =
      check_cell_distance (calc_cell_distance beacon_loc witness_loc)

  module _ {F : Type 0} (f64 : Floats F) where
    calc_fpsl : ℕ → ℕ → F
    calc_fpsl freq distance_mtrs = f64.mul (f64.of_ℤ (pos 20)) (
        f64.log10 (
          f64.div
            (f64.mul (f64.mul (f64.mul (f64.of_ℤ (pos 4)) f64.pi) (f64.of_ℤ (pos distance_mtrs)))
              (f64.of_ℤ (pos freq)))
            f64.light_speed))

    -- Division of an `i32` by 10, towards zero.
    tenth : ℤ → ℤ
    tenth (pos n) = pos (n / 10)
    tenth (negsuc n) = sub_ℕ 0 ((n + 1) / 10)

    unfoldable pub calc_expected_rssi : ℤ → ℕ → ℕ → ℤ → ℤ → F
    unfolding calc_fpsl tenth
    calc_expected_rssi tx_power freq distance_mtrs beaconer_gain witness_gain =
        f64.add
          (f64.sub (f64.add (f64.of_ℤ tx_power) (f64.of_ℤ (tenth beaconer_gain)))
            (calc_fpsl freq distance_mtrs))
          (f64.of_ℤ (tenth witness_gain))

    unfoldable pub check_rssi : ℤ → ℕ → ℤ → ℤ → ℤ → Option ℕ → VerifyResult
    unfolding calc_expected_rssi
    check_rssi signal freq tx_power beacon_gain witness_gain none = refuse bad_rssi
    check_rssi signal freq tx_power beacon_gain witness_gain (some distance) =
        refuse_if
          (f64.gt (f64.div (f64.of_ℤ signal) (f64.of_ℤ (pos 10)))
            (calc_expected_rssi tx_power freq distance beacon_gain witness_gain))
          bad_rssi

    unfoldable pub verify_witness_rssi : ℤ → ℕ → ℤ → ℤ → ℤ → ℕ → ℕ → VerifyResult
    unfolding check_rssi
    verify_witness_rssi signal freq tx_power beacon_gain witness_gain beacon_loc witness_loc =
        check_rssi signal freq tx_power beacon_gain witness_gain
          (calc_distance beacon_loc witness_loc)
