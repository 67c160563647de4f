-- ===== src/IotConfig/Tests.antt =====
-- Runs of the models of iot_config/src/lora_field.rs and iot_config/src/helium_netids.rs.
use oracles.Prelude.Bits.{leading_ones}
use oracles.Prelude.{
  ℕ, ◌+◌, ◌^◌, ◌≤◌, ◌≡◌, refl, true, arith, List, [], ◌∷◌, ◌++◌, some, done, take, length, contains,
  range, inr,
}
use oracles.Prelude
use oracles.Prelude.Int.{negsuc}
use oracles.Prelude.Results.{ok, err}
use oracles.IotConfig.Fields.{devaddr, DevAddrConstraint, new_constraint, to_i32}
use oracles.IotConfig.Text.{
  digit_of, verify_len, from_hex, parse_digits, hex_digit, hex_digits, display, from_str,
  length_mismatch,
}
use oracles.IotConfig.Text.RoundTrip.{from_str-display}
use oracles.IotConfig.NetIds.{
  net_id_arms, nwk_id_bits, nwk_id, range_end, devaddr_type_bits, net_id_type, range_start,
  max_nwk_addr_bit, full_range, to_net_id, invalid_net_id,
}
use oracles.IotConfig.NetIds.Layout.{net_id_of, address}
use oracles.IotConfig.NetIds.Blocks.{IsBlock, full_range-to_net_id, full_range-IsBlock}
use oracles.IotConfig.NetIds.Owners.{Owner, to_net_id-Owner}
use oracles.IotConfig.NetIds.Shared.{full_range-shared}
use oracles.IotConfig.Helium.{type6_0xc00053, addr_range}
use oracles.IotConfig.Constraints.{add_addr, add_addrs, last_constraint, constraints_from_addrs}
use oracles.IotConfig.Constraints.Rebuilt.{constraints_from_addrs-all_addrs, all_addrs}
use oracles.IotConfig.Checkout.{
  fill, available_diff, claim_chosen, AddressStore, checkout_devaddr_constraints,
  checkout_specified_devaddr_constraint, choose_addrs,
}
use oracles.IotConfig.Checkout.Claims.{
  AreUsed, IsFree, IsAnswered, IsCheckedOut, free_addrs, checkout-lowest, choose_addrs-IsFree,
  checkout_specified-IsAnswered,
}

abbrev block : ℕ → ℕ → DevAddrConstraint
block s e = record { start_addr = s; end_addr = e }

abbrev type6_block : DevAddrConstraint
type6_block = block 4_227_943_424 4_227_944_447

range_of_type6 : full_range 0xc00053 ≡ ok type6_block
unfolding full_range range_start devaddr_type_bits net_id_type nwk_id_bits range_end
    max_nwk_addr_bit devaddr nwk_id
range_of_type6 = refl

net_ids :
    (to_net_id 0xfc014e01 ≡ ok 0xc00053)
    × (to_net_id 0xe05a_0000 ≡ ok 0x60002d)
    × (to_net_id 0xffff_0000 ≡ err (invalid_net_id 16))
unfolding to_net_id net_id_arms leading_ones
net_ids = (refl, refl, refl)

full_range-to_net_id_example : to_net_id 4_227_943_500 ≡ ok (net_id_of 6 83)
full_range-to_net_id_example =
    full_range-to_net_id 6 83 4_227_943_500 type6_block (omega arith) range_of_type6 (omega arith)
      (omega arith)

full_range-IsBlock_example :
    (c : DevAddrConstraint) × (full_range (net_id_of 3 45) ≡ ok c) × IsBlock c 17
full_range-IsBlock_example = full_range-IsBlock 3 45 (omega arith)

to_net_id-Owner_example : Owner 4_227_943_500 (to_net_id 4_227_943_500)
to_net_id-Owner_example = to_net_id-Owner 4_227_943_500 (omega arith)

full_range-shared_example :
    (full_range (net_id_of 7 (2 ^ 16 + 5)) ≡ full_range (net_id_of 7 5))
    × (to_net_id (address 7 5 9) ≡ ok (net_id_of 7 5))
    × (to_net_id (address 7 (2 ^ 16 + 5) 9) ≡ ok (net_id_of 7 (2 ^ 16 + 5)))
full_range-shared_example = full_range-shared 5 9 (omega arith) (omega arith)

column : to_i32 4_227_943_424 ≡ negsuc 67_023_871
unfolding to_i32
column = refl

from_str-display_example :
    (length (display 6 0xc00053) ≡ 6) × (from_str 6 (display 6 0xc00053) ≡ ok 0xc00053)
from_str-display_example = from_str-display 5 0xc00053 (omega arith) (omega arith)

-- "00003C", "*", "+000ff" and a text that is too short.
texts :
    (display 6 60 ≡ 48 ∷ 48 ∷ 48 ∷ 48 ∷ 51 ∷ 67 ∷ [])
    × (from_str 6 (42 ∷ []) ≡ ok 0)
    × (from_str 6 (43 ∷ 48 ∷ 48 ∷ 48 ∷ 102 ∷ 102 ∷ []) ≡ ok 255)
    × (from_str 6 (48 ∷ []) ≡ err (length_mismatch 1 6))
unfolding display hex_digits hex_digit from_str verify_len from_hex parse_digits digit_of
texts = (refl, refl, refl, refl)

constraints_from_addrs-all_addrs_example :
    constraints_from_addrs (all_addrs (block 4 7 ∷ block 10 11 ∷ []))
    ≡ ok (block 4 7 ∷ block 10 11 ∷ [])
unfolding new_constraint
constraints_from_addrs-all_addrs_example =
    constraints_from_addrs-all_addrs (block 4 7) (block 10 11 ∷ []) (refl, omega arith, refl)

-- The second address of a run is not tested to follow the first.
gap : constraints_from_addrs (4 ∷ 9 ∷ []) ≡ ok (block 4 9 ∷ [])
unfolding constraints_from_addrs add_addrs add_addr last_constraint new_constraint
gap = refl

-- A store that lists the used addresses in its state, and puts new ones behind them.
abbrev pub store : AddressStore (List ℕ) (Unit {0})
store = record {
  get_used_addrs = λ net_id used. (done used, used);
  claim_addrs = λ net_id addrs used. (done tt, used ++ addrs);
  release_addrs = λ net_id addrs used. (done tt, used);
}

abbrev pub used : List ℕ
used = 4_227_943_424 ∷ 4_227_943_425 ∷ 4_227_943_428 ∷ 4_227_943_429 ∷ []

used-AreUsed : AreUsed type6_0xc00053 used
unfolding addr_range
used-AreUsed = record {
  ordered = (omega arith, (omega arith, (omega arith, (omega arith, tt))));
  inside = omega arith;
}

checkout-lowest_example :
    IsCheckedOut store 4 type6_0xc00053
      (free_addrs type6_0xc00053 used)
      used
      (checkout_devaddr_constraints store 4 type6_0xc00053 used)
checkout-lowest_example = checkout-lowest store 4 type6_0xc00053 used used used refl used-AreUsed

-- The two addresses in the gap, and the first two above.
abbrev pub claimed : List ℕ
claimed = 4_227_943_426 ∷ 4_227_943_427 ∷ 4_227_943_430 ∷ 4_227_943_431 ∷ []

chosen :
    choose_addrs 4 (addr_range type6_0xc00053).start (addr_range type6_0xc00053).end used
    ≡ some claimed
unfolding choose_addrs fill available_diff addr_range
chosen = refl

choose_addrs-IsFree_example : (length claimed ≡ 4) × IsFree type6_0xc00053 used 4_227_943_430
choose_addrs-IsFree_example =
    choose_addrs-IsFree 4 type6_0xc00053 used claimed 4_227_943_430 used-AreUsed chosen refl

checked_out :
    (checkout_devaddr_constraints store 4 type6_0xc00053 used).0
    ≡ Prelude.ok (block 4_227_943_426 4_227_943_427 ∷ block 4_227_943_430 4_227_943_431 ∷ [])
unfolding checkout_devaddr_constraints claim_chosen choose_addrs fill available_diff addr_range
    constraints_from_addrs add_addrs add_addr new_constraint last_constraint
checked_out = refl

checkout_specified-IsAnswered_example :
    IsAnswered store type6_0xc00053 4_227_943_426 4_227_943_427 used used (
      checkout_specified_devaddr_constraint store type6_0xc00053
        (block 4_227_943_426 4_227_943_427)
        used)
checkout_specified-IsAnswered_example =
    checkout_specified-IsAnswered store type6_0xc00053 (block 4_227_943_426 4_227_943_427) used used
      used refl
