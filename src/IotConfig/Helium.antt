-- ===== src/IotConfig/Helium.antt =====
-- iot_config/src/helium_netids.rs: the net ids of Helium and their addresses.
use oracles.Prelude.{ℕ, Bool, ◌||◌, ◌==◌, if◌then◌else◌}
use oracles.Prelude.Results.{Result, ok, err}
use oracles.IotConfig.Fields.{NetIdField}
pub mod Agrees

abbrev pub type_0_id : NetIdField
type_0_id = 0x00003c

abbrev pub type_3_id : NetIdField
type_3_id = 0x60002d

abbrev pub type_6_id : NetIdField
type_6_id = 0xc00053

-- A `RangeInclusive<u32>`.
pub record RangeInclusive : Type 0 where
  pub start : ℕ
  pub end : ℕ

abbrev pub type_0_range : RangeInclusive
type_0_range = record { start = 2_013_265_920; end = 2_046_820_351 }

abbrev pub type_3_range : RangeInclusive
type_3_range = record { start = 3_763_994_624; end = 3_764_125_695 }

abbrev pub type_6_range : RangeInclusive
type_6_range = record { start = 4_227_943_424; end = 4_227_944_447 }

pub data HeliumNetId : Type 0 where
  type0_0x00003c type3_0x60002d type6_0xc00053 : HeliumNetId

unfoldable pub id : HeliumNetId → NetIdField
id type0_0x00003c = type_0_id
id type3_0x60002d = type_3_id
id type6_0xc00053 = type_6_id

unfoldable pub addr_range : HeliumNetId → RangeInclusive
addr_range type0_0x00003c = type_0_range
addr_range type3_0x60002d = type_3_range
addr_range type6_0xc00053 = type_6_range

-- "not a helium id".
pub data NotHelium : Type 0 where
  not_a_helium_id : NotHelium

unfoldable pub try_from : NetIdField → Result NotHelium HeliumNetId
try_from field =
    if field == type_0_id
    then ok type0_0x00003c
    else if field == type_3_id
    then ok type3_0x60002d
    else if field == type_6_id
    then ok type6_0xc00053
    else err not_a_helium_id

unfoldable pub is_helium_netid : NetIdField → Bool
is_helium_netid net_id = (type_0_id == net_id) || ((type_3_id == net_id) || (type_6_id == net_id))
