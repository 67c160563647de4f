-- ===== src/IotConfig/Helium/Agrees.antt =====
-- iot_config/src/helium_netids.rs: the ranges of Helium, which are written out there, are the ones that
-- lora_field.rs computes, and addresses keep their value in the i32 columns of the store.
use oracles.Prelude.{ℕ, ◌^◌, ◌<◌, ◌≡◌, refl, arith, true, false, ltb, ◌==◌, if-split}
use oracles.Prelude.Results.{Result, ok, err}
use oracles.IotConfig.Fields.{NetIdField, to_i32, from_i32, to_u32}
use oracles.IotConfig.NetIds.{full_range}
use oracles.IotConfig.Helium.{
  HeliumNetId, type_0_id, type_3_id, type_6_id, type0_0x00003c, type3_0x60002d, type6_0xc00053,
  NotHelium, id, addr_range, try_from, is_helium_netid,
}
use oracles.IotConfig.NetIds.Layout.{full_range_lem}

-- For each of the three Helium net ids: `full_range` of its id is the constraint from the start to the
-- end of its address range, and `try_from` of its id is the net id.
full_range-addr_range :
    (net_id : HeliumNetId)
    → (full_range (id net_id)
        ≡ ok
            (record { start_addr = (addr_range net_id).start; end_addr = (addr_range net_id).end }))
      × (try_from (id net_id) ≡ ok net_id)
unfolding id addr_range try_from
full_range-addr_range type0_0x00003c = (full_range_lem 0 60 (omega arith), refl)
full_range-addr_range type3_0x60002d = (full_range_lem 3 45 (omega arith), refl)
full_range-addr_range type6_0xc00053 = (full_range_lem 6 83 (omega arith), refl)

-- What `try_from` of a field may be.
abbrev pub Tried : NetIdField → Result NotHelium HeliumNetId → Type 0
Tried field (ok net_id) = (id net_id ≡ field) × (is_helium_netid field ≡ true)
Tried field (err e) = is_helium_netid field ≡ false

-- `try_from` of any field is either a net id with this id, and then `is_helium_netid` holds of the field,
-- or an error, and then `is_helium_netid` does not hold.
try_from-Tried : (field : NetIdField) → Tried field (try_from field)
unfolding try_from is_helium_netid id
try_from-Tried field =
    if-split (Tried field) (field == type_0_id) (λ b. (by_test b, grind arith))
      (λ b.
        if-split (Tried field) (field == type_3_id) (λ c. (by_test c, grind arith))
          (λ c.
            if-split (Tried field) (field == type_6_id) (λ d. (by_test d, grind arith))
              (λ d. grind arith)))
  where
    by_test : {a b : ℕ} → (a == b) ≡ true → b ≡ a
    by_test h = grind arith

-- For a number below 2 ^ 32, a net id or an address as an i32 column holds it: `as u32` of the i32 that
-- it is stored as is the number.
pub from_i32-to_i32 : (x : ℕ) → x < 2 ^ 32 → from_i32 (to_i32 x) ≡ x
unfolding to_i32 from_i32
from_i32-to_i32 x h =
    if-split (λ i. from_i32 i ≡ x) (ltb (to_u32 x) (2 ^ 31)) (λ b. omega arith) (λ b. omega arith)
