-- ===== src/IotConfig/NetIds.antt =====
-- iot_config/src/lora_field.rs: the addresses of a net id, and the net id of an address. `match id_type`
-- is a table with a row for each type; past it stands `Err(InvalidNetId(other))`.
use Prim.Native.Nat.{bit_and, bit_or}
use oracles.Prelude.{ℕ, ◌+◌, ◌-◌, ◌^◌, Option, none, some, List, [], ◌∷◌, get_elem?}
use oracles.Prelude.Bits.{leading_ones}
use oracles.Prelude.Results.{Result, ok, err, ◌>>=◌}
use oracles.IotConfig.Fields.{
  NetIdField, DevAddrField, DevAddrConstraint, to_u32, shl, shr, devaddr,
}
pub mod Layout
pub mod Blocks
pub mod Owners
pub mod Shared

pub data InvalidNetId : Type 0 where
  invalid_net_id : ℕ → InvalidNetId

abbrev pub of_row : ℕ → Option ℕ → Result InvalidNetId ℕ
of_row other none = err (invalid_net_id other)
of_row other (some a) = ok a

abbrev pub match_type : ℕ → List ℕ → Result InvalidNetId ℕ
match_type id_type rows = of_row id_type (get_elem? rows id_type)

unfoldable pub net_id_type : NetIdField → ℕ
net_id_type self = shr (to_u32 self) (24 - 3)

unfoldable pub nwk_id : NetIdField → ℕ
nwk_id self =
    let prefix_length = net_id_type self + 1 in
    shr (shl (to_u32 self) (prefix_length + 8)) (prefix_length + 8)

unfoldable pub devaddr_type_bits : ℕ → Result InvalidNetId ℕ
devaddr_type_bits id_type = match_type id_type (
    0
    ∷ shl 2 (32 - 2)
    ∷ shl 6 (32 - 3)
    ∷ shl 14 (32 - 4)
    ∷ shl 30 (32 - 5)
    ∷ shl 62 (32 - 6)
    ∷ shl 126 (32 - 7)
    ∷ shl 254 (32 - 8)
    ∷ [])

unfoldable pub nwk_id_bits : ℕ → ℕ → Result InvalidNetId ℕ
nwk_id_bits id_type nwk_id = match_type id_type (
    shl nwk_id 25
    ∷ shl nwk_id 24
    ∷ shl nwk_id 20
    ∷ shl nwk_id 17
    ∷ shl nwk_id 15
    ∷ shl nwk_id 13
    ∷ shl nwk_id 10
    ∷ shl nwk_id 7
    ∷ [])

unfoldable pub max_nwk_addr_bit : ℕ → Result InvalidNetId ℕ
max_nwk_addr_bit id_type = match_type id_type (
    (2 ^ 25 - 1)
    ∷ (2 ^ 24 - 1)
    ∷ (2 ^ 20 - 1)
    ∷ (2 ^ 17 - 1)
    ∷ (2 ^ 15 - 1)
    ∷ (2 ^ 13 - 1)
    ∷ (2 ^ 10 - 1)
    ∷ (2 ^ 7 - 1)
    ∷ [])

unfoldable pub range_start : NetIdField → Result InvalidNetId DevAddrField
range_start self = do
  left ← devaddr_type_bits (net_id_type self)
  middle ← nwk_id_bits (net_id_type self) (nwk_id self)
  ok (devaddr (bit_or left middle))

unfoldable pub range_end : NetIdField → Result InvalidNetId DevAddrField
range_end self = do
  left ← devaddr_type_bits (net_id_type self)
  middle ← nwk_id_bits (net_id_type self) (nwk_id self)
  right ← max_nwk_addr_bit (net_id_type self)
  ok (devaddr (bit_or (bit_or left middle) right))

unfoldable pub full_range : NetIdField → Result InvalidNetId DevAddrConstraint
full_range self = do
  start_addr ← range_start self
  end_addr ← range_end self
  ok (record { start_addr = start_addr; end_addr = end_addr })

-- The arms of `to_net_id`, by the number of leading ones.
unfoldable pub net_id_arms : ℕ → List ℕ
net_id_arms addr =
    shr (bit_and addr 0x7e00_0000) 25
    ∷ bit_or (shr (bit_and addr 0x3f00_0000) 24) 0x20_0000
    ∷ bit_or (shr (bit_and addr 0x1ff0_0000) 20) 0x40_0000
    ∷ bit_or (shr (bit_and addr 0x0ffe_0000) 17) 0x60_0000
    ∷ bit_or (shr (bit_and addr 0x07ff_8000) 15) 0x80_0000
    ∷ bit_or (shr (bit_and addr 0x03ff_e000) 13) 0xa0_0000
    ∷ bit_or (shr (bit_and addr 0x01ff_fc00) 10) 0xc0_0000
    ∷ bit_or (shr (bit_and addr 0x00ff_ff80) 7) 0xe0_0000
    ∷ []

unfoldable pub to_net_id : DevAddrField → Result InvalidNetId NetIdField
to_net_id self = let addr = to_u32 self in match_type (leading_ones 32 addr) (net_id_arms addr)
