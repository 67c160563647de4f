-- ===== src/IotConfig/NetIds/Shared.antt =====
-- iot_config/src/lora_field.rs: the net ids of type 7, of which `nwk_id` keeps 16 of 17 bits.
use oracles.Prelude.{ℕ, ◌+◌, ◌^◌, ◌<◌, ◌≡◌, arith}
use oracles.Prelude.Results.{ok}
use oracles.IotConfig.NetIds.{nwk_id, full_range, to_net_id, range_start, range_end}
use oracles.IotConfig.NetIds.Layout.{net_id_of, address, net_id_type_lem}
use oracles.IotConfig.NetIds.Layout.Arms.{to_net_id-address}

nwk_id-shared :
    (id : ℕ) → id < 2 ^ 16 → nwk_id (net_id_of 7 (2 ^ 16 + id)) ≡ nwk_id (net_id_of 7 id)
unfolding nwk_id
nwk_id-shared id h =
    rw
      (
        net_id_type_lem 7 (2 ^ 16 + id) (omega arith) (omega arith),
        net_id_type_lem 7 id (omega arith) (omega arith),
      )
      (omega arith)

-- For an id below 2 ^ 16 and any of the 128 addresses of a network of type 7: `full_range` of the net id
-- with the id 2 ^ 16 higher is that of the net id with the id itself, though `to_net_id` tells the
-- addresses of the two apart.
pub full_range-shared :
    (id r : ℕ)
    → id < 2 ^ 16
    → r < 128
    → (full_range (net_id_of 7 (2 ^ 16 + id)) ≡ full_range (net_id_of 7 id))
      × (to_net_id (address 7 id r) ≡ ok (net_id_of 7 id))
      × (to_net_id (address 7 (2 ^ 16 + id) r) ≡ ok (net_id_of 7 (2 ^ 16 + id)))
unfolding full_range range_start range_end
full_range-shared id r h l = (
  rw (
    net_id_type_lem 7 (2 ^ 16 + id) (omega arith) (omega arith),
    net_id_type_lem 7 id (omega arith) (omega arith),
    nwk_id-shared id h,
  ),
  to_net_id-address 7 id r (omega arith) (omega arith) l,
  to_net_id-address 7 (2 ^ 16 + id) r (omega arith) (omega arith) l,
)
