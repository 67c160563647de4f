-- ===== src/IotConfig/Fields.antt =====
-- iot_config/src/lora_field.rs: the fields and the constraints on addresses. A field is its u64; an
-- addition or a shift wraps around, as in a release build.
use oracles.Prelude.{
  ℕ, ◌+◌, ◌-◌, ◌*◌, ◌/◌, ◌%◌, ◌^◌, Bool, ◌&&◌, ◌||◌, not, ltb, leb, ◌==◌, if◌then◌else◌,
}
use oracles.Prelude.Int.{ℤ, pos, negsuc}
use oracles.Prelude.Results.{Result, ok, err}

abbrev pub NetIdField : Type 0
NetIdField = ℕ

abbrev pub DevAddrField : Type 0
DevAddrField = ℕ

-- `as u32`.
abbrev pub to_u32 : ℕ → ℕ
to_u32 x = x % 2 ^ 32

-- `<<` and `>>` of a u32.
abbrev pub shl : ℕ → ℕ → ℕ
shl x n = (x * 2 ^ (n % 32)) % 2 ^ 32

abbrev pub shr : ℕ → ℕ → ℕ
shr x n = x / 2 ^ (n % 32)

-- From a field to the i32 of a column, and back.
unfoldable pub to_i32 : ℕ → ℤ
to_i32 x = if ltb (to_u32 x) (2 ^ 31) then pos (to_u32 x) else negsuc (2 ^ 32 - 1 - to_u32 x)

unfoldable pub from_i32 : ℤ → ℕ
from_i32 (pos n) = to_u32 n
from_i32 (negsuc n) = 2 ^ 32 - 1 - to_u32 n

-- `devaddr`, which takes a u32.
unfoldable pub devaddr : ℕ → DevAddrField
devaddr val = val

pub data DevAddrRangeError : Type 0 where
  end_less_than_start next_start_unavailable range_uneven : DevAddrRangeError

-- A range without its `route_id`, which nothing here reads.
pub record DevAddrRange : Type 0 where
  pub start_addr : DevAddrField
  pub end_addr : DevAddrField

unfoldable pub contains_addr : DevAddrRange → DevAddrField → Bool
contains_addr range addr = leb range.start_addr addr && leb addr range.end_addr

pub record DevAddrConstraint : Type 0 where
  pub start_addr : DevAddrField
  pub end_addr : DevAddrField

unfoldable pub new_constraint :
    DevAddrField → DevAddrField → Result DevAddrRangeError DevAddrConstraint
new_constraint start_addr end_addr =
    if leb end_addr start_addr
    then err end_less_than_start
    else if not (start_addr % 2 == 0) || (end_addr % 2 == 0)
    then err range_uneven
    else ok (record { start_addr = start_addr; end_addr = end_addr })

unfoldable pub next_start : DevAddrConstraint → Result DevAddrRangeError DevAddrField
next_start c = ok (devaddr ((to_u32 c.end_addr + 1) % 2 ^ 32))

unfoldable pub contains_range : DevAddrConstraint → DevAddrRange → Bool
contains_range c range = leb c.start_addr range.start_addr && leb range.end_addr c.end_addr

-- The `add` addresses from `self` on.
unfoldable pub to_range : DevAddrField → ℕ → DevAddrConstraint
to_range self add = record {
  start_addr = self;
  end_addr = (self + (add + (2 ^ 64 - 1)) % 2 ^ 64) % 2 ^ 64;
}
